-- ===== src/StorageCsv/Sequence.antt =====
-- Calls of storage_csv_store_cntr of src/storage_csv.c one after the other, each with its own time.
use mathlib.Core.List.{append_assoc, append-nil}
use sflow_toolkit.Base.{
  ℕ, ◌≡◌, refl, sym, ap, ◌∙◌, List, [], ◌∷◌, ◌++◌, ◌==◌, leb, ◌-◌, Bool-cases, inl, inr,
}
use sflow_toolkit.Base.Results.{Result, ok, ◌>>=◌, Returns, returns, Returns-bind, Returns-weaken}
use sflow_toolkit.Bytes.{Bytes}
use sflow_toolkit.Parser.Samples.{CntrSample}
use sflow_toolkit.Dataparser.Process.{CounterList}
use sflow_toolkit.StorageCsv.Report.{
  csv_line, Doubles, Csv, CsvCall, writes, storage_csv_store_cntr,
}
use sflow_toolkit.StorageCsv.Remembered.{Remembered, csv_lines, remember, remember_all}
use sflow_toolkit.StorageCsv.Rows.{IsTable, target, storage_csv_store_cntr-Stores}

-- The lines that calls write.
abbrev pub written : List CsvCall → List Bytes
written [] = []
written (CsvCall.shm_open name ∷ calls) = written calls
written (CsvCall.close fd ∷ calls) = written calls
written (CsvCall.write fd line ∷ calls) = line ∷ written calls

-- A call: the time, what `shm_open` returns, and the samples.
pub record Call : Type 0 where
  pub now : ℕ
  pub granted : ℕ
  pub counters : CounterList

abbrev pub samples_of : List Call → List CntrSample
samples_of [] = []
samples_of (call ∷ calls) = call.counters.nodes ++ samples_of calls

module _ {D : Type 0} (o : Doubles D) (stamp : ℕ → Bytes) where
  unfoldable pub store_each : List Call → Csv → Result Csv
  unfolding storage_csv_store_cntr
  store_each [] c = ok c
  store_each (call ∷ calls) c = do
    c' ← storage_csv_store_cntr stamp call.now call.granted o call.counters c
    store_each calls c'

written-append : (a b : List CsvCall) → written (a ++ b) ≡ written a ++ written b
written-append [] b = refl
written-append (CsvCall.shm_open name ∷ a) b = written-append a b
written-append (CsvCall.close fd ∷ a) b = written-append a b
written-append (CsvCall.write fd line ∷ a) b = ap (λ t. line ∷ t) (written-append a b)

written-writes : (fd : ℕ) (lines : List Bytes) → written (writes fd lines) ≡ lines
written-writes fd [] = refl
written-writes fd (line ∷ lines) = ap (λ t. line ∷ t) (written-writes fd lines)

csv_lines-append :
    {D : Type 0} (o : Doubles D) (a b : List CntrSample) (f : Remembered)
    → csv_lines o (a ++ b) f ≡ csv_lines o a f ++ csv_lines o b (remember_all a f)
unfolding csv_lines remember_all
csv_lines-append o [] b f = refl
csv_lines-append o (s ∷ a) b f =
    ap (λ t. csv_line o (f s.agent_address s.generic.if_index) s ∷ t)
      (csv_lines-append o a b (remember s f))

remember_all-append :
    (a b : List CntrSample) (f : Remembered)
    → remember_all (a ++ b) f ≡ remember_all b (remember_all a f)
unfolding remember_all
remember_all-append [] b f = refl
remember_all-append (s ∷ a) b f = remember_all-append a b (remember s f)

module _ {D : Type 0} (o : Doubles D) (stamp : ℕ → Bytes) where
  written-target :
      (now granted : ℕ) (c : Csv) → written (target o stamp now granted c).calls ≡ written c.calls
  written-target now granted c = elim (Bool-cases (c.fd == 0)) [
    | inl e ↦ rw e (written-append c.calls _ ∙ append-nil (written c.calls))
    | inr e ↦ elim (Bool-cases (leb 300 (now - c.time))) [
      | inl old ↦ rw (e, old) (written-append c.calls _ ∙ append-nil (written c.calls))
      | inr recent ↦ rw (e, recent) refl
    ]
  ]

  call-writes :
      (call : Call) (f : Remembered) (c : Csv)
      → written (
          (target o stamp call.now call.granted c).calls
          ++ writes (target o stamp call.now call.granted c).fd (csv_lines o call.counters.nodes f))
        ≡ written c.calls ++ csv_lines o call.counters.nodes f
  call-writes call f c =
      let t = target o stamp call.now call.granted c in
      let lines = csv_lines o call.counters.nodes f in
      written-append t.calls (writes t.fd lines)
      ∙ ap (λ w. w ++ written (writes t.fd lines)) (written-target call.now call.granted c)
      ∙ ap (λ w. written c.calls ++ w) (written-writes t.fd lines)

  abbrev pub Writes : List CntrSample → Remembered → Csv → Csv → Type 0
  Writes ss f c c' =
      IsTable (remember_all ss f) c'.hash × (written c'.calls ≡ written c.calls ++ csv_lines o ss f)

  -- Calls one after the other, from a well-formed table with the numbers of a map, all return.
  -- What they write together are the lines of all their samples, as if these came in one call: the
  -- rates of a sample are against the sample before of its interface, also across calls and files.
  pub store_each-Writes :
      (calls : List Call) (f : Remembered) (c : Csv)
      → IsTable f c.hash
      → Returns (Writes (samples_of calls) f c) (store_each o stamp calls c)
  unfolding store_each csv_lines remember_all
  store_each-Writes [] f c table = returns (table, sym (append-nil (written c.calls)))
  store_each-Writes (call ∷ calls) f c table =
      Returns-bind
        (storage_csv_store_cntr-Stores o stamp call.now call.granted call.counters f c table)
        λ c'. λ (table', fd, time, made).
          Returns-weaken (store_each-Writes calls (remember_all call.counters.nodes f) c' table')
            λ c''. λ (table'', rest). (
              rw (remember_all-append call.counters.nodes (samples_of calls) f) table'',
              rest
                  ∙ ap
                      (λ t.
                        t ++ csv_lines o (samples_of calls) (remember_all call.counters.nodes f))
                      (ap written made ∙ call-writes call f c)
                  ∙ append_assoc (written c.calls) (csv_lines o call.counters.nodes f)
                      (csv_lines o (samples_of calls) (remember_all call.counters.nodes f))
                  ∙ ap (λ t. written c.calls ++ t)
                      (sym (csv_lines-append o call.counters.nodes (samples_of calls) f)),
            )
