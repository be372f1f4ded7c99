-- ===== src/StorageCsv/Rows.antt =====
-- storage_csv_store_cntr of src/storage_csv.c against a map from interfaces to their last counters.
use mathlib.Core.List.{append_assoc}
use sflow_toolkit.Base.{
  ℕ, ◌≡◌, refl, ap, inl, inr, Option, none, some, ◌==◌, false, Bool-cases, arith, List, [], ◌∷◌,
  ◌++◌, ◌-◌, leb, if◌then◌else◌,
}
use sflow_toolkit.Base.Results.{ok, and_then, Returns, returns, Returns-bind, ◌>>=◌}
use sflow_toolkit.Base.Heap.{deref}
use sflow_toolkit.Bytes.{Bytes}
use sflow_toolkit.Parser.Samples.{CntrSample}
use sflow_toolkit.StorageCsv.{StatusHash, walk, found_status, hash_init, hash_lookup}
use sflow_toolkit.StorageCsv.Lookup.{IsStored, added-IsStored}
use sflow_toolkit.StorageCsv.Report.{Doubles, values, csv_line, report, report_all}
use sflow_toolkit.Dataparser.Process.{CounterList}
use sflow_toolkit.StorageCsv.Report.{
  Csv, CsvCall, writes, ensure_file, renew_file, open_file, storage_csv_store_cntr,
}
use sflow_toolkit.StorageCsv.Remembered.{
  Remembered, Represents, nothing, remember, csv_lines, remember_all, looked, Kept,
  added-Represents, added-looked-same, added-Kept,
}
use sflow_toolkit.StorageCsv.Updated.{updated, updated-IsStored, updated-Represents}

-- A well-formed table with the numbers of a map.
pub record IsTable (f : Remembered) (h : StatusHash) : Type 0 where
  pub stored : IsStored h
  pub shows : Represents h f

pub hash_init-IsTable : IsTable nothing hash_init
unfolding hash_init Represents walk
hash_init-IsTable = record {
  stored = record { bucket = λ k. tt; node = λ p lt. absurd (omega arith) };
  shows = λ agent ifindex. (none, refl, refl);
}

module _ {D : Type 0} (o : Doubles D) where
  -- A lookup returns a node with the numbers of the map.
  abbrev LooksUp : ℕ → ℕ → Remembered → ℕ × StatusHash → Type 0
  LooksUp a i f (p, g) = IsTable f g × (looked g a i ≡ ok (some p)) × Kept g a i (f a i) (some p)

  hash_lookup-LooksUp :
      (a i : ℕ) (f : Remembered) (h : StatusHash)
      → IsTable f h
      → Returns (LooksUp a i f) (hash_lookup a i h)
  unfolding hash_lookup found_status Represents
  hash_lookup-LooksUp a i f h table = let (at, found, kept) = table.shows a i in go at found kept
    where
      go :
          (at : Option ℕ)
          → looked h a i ≡ ok at
          → Kept h a i (f a i) at
          → Returns (LooksUp a i f) (hash_lookup a i h)
      go (some p) found kept = rw (found, and_then) (returns (table, found, kept))
      go none found kept =
          rw (found, and_then)
            (returns (
              record {
                stored = added-IsStored h a i table.stored;
                shows = added-Represents h a i f table.stored found table.shows;
              },
              added-looked-same h a i f table.stored a i refl refl,
              added-Kept h a i f found table.shows,
            ))

  abbrev Reported : CntrSample → Remembered → Bytes × StatusHash → Type 0
  Reported s f (line, h) =
      (line ≡ csv_line o (f s.agent_address s.generic.if_index) s) × IsTable (remember s f) h

  report-Reported :
      (s : CntrSample) (f : Remembered) (h : StatusHash)
      → IsTable f h
      → Returns (Reported s f) (report o s h)
  unfolding report
  report-Reported s f h table =
      Returns-bind (hash_lookup-LooksUp s.agent_address s.generic.if_index f h table) go
    where
      go :
          (r : ℕ × StatusHash)
          → LooksUp s.agent_address s.generic.if_index f r
          → Returns
              (Reported s f)
              (do n ← deref r.1.nodes r.0; ok (csv_line o (values n) s, updated r.1 s r.0 n))
      go (p, g) (found, at, (n, lt, here, status, shown)) =
          rw (here, and_then)
            (returns (
              ap (λ v. csv_line o v s) shown,
              record {
                stored = updated-IsStored g s p n found.stored here;
                shows = updated-Represents g s p n f found.stored at lt here status found.shows;
              },
            ))

  abbrev ReportedAll : List CntrSample → Remembered → List Bytes × StatusHash → Type 0
  ReportedAll ss f (lines, h) = (lines ≡ csv_lines o ss f) × IsTable (remember_all ss f) h

  report_all-Reported :
      (ss : List CntrSample) (f : Remembered) (h : StatusHash)
      → IsTable f h
      → Returns (ReportedAll ss f) (report_all o ss h)
  unfolding report_all csv_lines remember_all
  report_all-Reported [] f h table = returns (refl, table)
  report_all-Reported (s ∷ ss) f h table =
      Returns-bind (report-Reported s f h table) λ (line, g) (first, shown).
        Returns-bind (report_all-Reported ss (remember s f) g shown)
          λ (lines, g') (rest, all). returns (rw (first, rest) refl, all)

  module _ (stamp : ℕ → Bytes) (now granted : ℕ) where
    -- The lines of a call go to one file: the one that is open, or a new one, when none is open or
    -- it was opened 300 seconds ago.
    abbrev pub target : Csv → Csv
    target c =
        if c.fd == 0
        then record c {
          fd = granted;
          time = now;
          calls = c.calls ++ (CsvCall.shm_open (stamp now) ∷ []);
        }
        else if leb 300 (now - c.time)
        then record c {
          fd = granted;
          time = now;
          calls = c.calls ++ (CsvCall.close c.fd ∷ CsvCall.shm_open (stamp now) ∷ []);
        }
        else c

    abbrev pub Stores : List CntrSample → Remembered → Csv → Csv → Type 0
    Stores ss f c c' =
        IsTable (remember_all ss f) c'.hash
        × (c'.fd ≡ (target c).fd)
        × (c'.time ≡ (target c).time)
        × (c'.calls ≡ (target c).calls ++ writes (target c).fd (csv_lines o ss f))

    target-hash : (c : Csv) → (target c).hash ≡ c.hash
    target-hash c = elim (Bool-cases (c.fd == 0)) [
      | inl e ↦ rw e refl
      | inr e ↦ elim (Bool-cases (leb 300 (now - c.time))) [
        | inl old ↦ rw (e, old) refl
        | inr recent ↦ rw (e, recent) refl
      ]
    ]

    renew-ensure-target :
        (c : Csv) → renew_file stamp now granted (ensure_file stamp now granted c) ≡ target c
    unfolding renew_file ensure_file open_file
    renew-ensure-target c = elim (Bool-cases (c.fd == 0)) [
      | inl e ↦ let recent : leb 300 (now - now) ≡ false = ground arith in rw e (rw recent refl)
      | inr e ↦ elim (Bool-cases (leb 300 (now - c.time))) [
        | inl old ↦
            rw
              (
                e,
                old,
                append_assoc c.calls (CsvCall.close c.fd ∷ []) (CsvCall.shm_open (stamp now) ∷ []),
              )
              refl
        | inr recent ↦ rw (e, recent) refl
      ]
    ]

    -- On a well-formed table with the numbers of a map, a call returns. It writes a line for each
    -- sample, in their order, with the rates against what the map has of its agent and interface;
    -- the map takes the numbers of each sample behind its line, and the table has those of the map
    -- again. The lines go to the open file, or to a new one if none is open or it was opened 300
    -- seconds ago or earlier.
    pub storage_csv_store_cntr-Stores :
        (l : CounterList) (f : Remembered) (c : Csv)
        → IsTable f c.hash
        → Returns (Stores l.nodes f c) (storage_csv_store_cntr stamp now granted o l c)
    unfolding storage_csv_store_cntr
    storage_csv_store_cntr-Stores l f c table = rw (renew-ensure-target c) (
        Returns-bind (report_all-Reported l.nodes f (target c).hash (rw (target-hash c) table))
          λ (lines, h) (all, shown). returns (shown, refl, refl, rw all refl))
