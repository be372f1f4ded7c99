-- ===== src/Parser/Kept.antt =====
-- What the parser leaves alone in the sample buffers, on any bytes at all.
pub mod Received
use sflow_toolkit.Base.{
  ℕ, zero, suc, ◌+◌, ◌%◌, ◌^◌, ◌≤◌, ◌<◌, ◌≡◌, refl, none, some, Option, List, [], ◌∷◌, length, ◌==◌,
  ◌||◌, ◌∙◌, Bool, true, false, arith, get_elem?, length-set, get_elem?-set_ne, if◌then◌else◌,
}
use mathlib.Core.Path.{subst}
use sflow_toolkit.Base.Results.{Result, ok, fault, overrun, and_then}
use sflow_toolkit.Parser.Readers.{Datagram, Cmd, ◌>>=◌, get_data32, skip_bytes}
use sflow_toolkit.Parser.Samples.{Sample, FlowSample, CntrSample}
use sflow_toolkit.Parser.Counters.{parse_counter_sample}
use sflow_toolkit.Parser.Flow.{parse_flow_sample}
use sflow_toolkit.Parser.Collect.{
  Buffer, Collector, slot, fill, collect_flow, collect_cntr, parse_sample, parse_samples,
}

-- The count stays inside the array, and the array is not too large for a 32-bit count.
abbrev pub IsBuffer : {A : Type 0} → Buffer A → Type 0
IsBuffer b = (b.count ≤ length b.items) × (length b.items < 2 ^ 32)

-- `b'` has the samples of `b` and perhaps more behind them.
pub record Extends {A : Type 0} (b b' : Buffer A) : Type 0 where
  pub size : length b'.items ≡ length b.items
  pub count : b.count ≤ b'.count
  pub inside : b'.count ≤ length b'.items
  pub kept : (i : ℕ) → i < b.count → get_elem? b'.items i ≡ get_elem? b.items i

Extends-refl : {A : Type 0} (b : Buffer A) → IsBuffer b → Extends b b
Extends-refl b is = record { size = refl; count = omega arith; inside = is.0; kept = λ i h. refl }

Extends-trans : {A : Type 0} (a b c : Buffer A) → Extends a b → Extends b c → Extends a c
Extends-trans a b c x y = record {
  size = y.size ∙ x.size;
  count = omega arith;
  inside = y.inside;
  kept = λ i h. y.kept i (omega arith) ∙ x.kept i h;
}

pub length_of_get_elem? :
    {A : Type 0} (xs : List A) (i : ℕ) {x : A} → get_elem? xs i ≡ some x → i < length xs
length_of_get_elem? [] i e = cc
length_of_get_elem? (x ∷ xs) zero e = omega arith
length_of_get_elem? (x ∷ xs) (suc i) e = omega (arith, length_of_get_elem? xs i e)

Extends-fill :
    {A : Type 0} (b : Buffer A) (s s' : A)
    → IsBuffer b
    → get_elem? b.items b.count ≡ some s
    → Extends b (fill b s')
unfolding fill
Extends-fill b s s' is held =
    let room = length_of_get_elem? b.items b.count held in
    record {
      size = length-set b.items b.count s';
      count = omega arith;
      inside = omega (arith, length-set b.items b.count s');
      kept = λ i h. get_elem?-set_ne b.items s' (λ e. absurd (omega arith));
    }

-- Every result of the command satisfies `P`.
abbrev Holds : {A : Type 0} → (A → Type 0) → Result (A × Datagram) → Type 0
Holds P (ok (a, d)) = P a
Holds P (fault e) = Unit {0}

record Ensures {A : Type 0} (P : A → Type 0) (m : Cmd A) : Type 0 where
  holds : (d : Datagram) → Holds P (m d)

Holds-any : {A : Type 0} (r : Result (A × Datagram)) → Holds (λ a. Unit {0}) r
Holds-any (ok p) = tt
Holds-any (fault e) = tt

Ensures-any : {A : Type 0} (m : Cmd A) → Ensures (λ a. Unit {0}) m
Ensures-any m = record { holds = λ d. Holds-any (m d) }

module _ {A B : Type 0} {P : A → Type 0} {Q : B → Type 0} where
  Holds-and_then :
      (r : Result (A × Datagram)) (f : A → Cmd B)
      → Holds P r
      → ((a : A) → P a → Ensures Q (f a))
      → Holds Q (and_then r λ p. f p.0 p.1)
  Holds-and_then (ok (a, d)) f h k = (k a h).holds d
  Holds-and_then (fault e) f h k = tt

  Ensures-bind :
      (m : Cmd A) (f : A → Cmd B)
      → Ensures P m
      → ((a : A) → P a → Ensures Q (f a))
      → Ensures Q (m >>= f)
  Ensures-bind m f h k = record { holds = λ d. Holds-and_then (m d) f (h.holds d) k }

Ensures-slot :
    {A : Type 0} (b : Buffer A) → Ensures (λ s. get_elem? b.items b.count ≡ some s) (slot b)
unfolding slot
Ensures-slot {A} b = record { holds = λ d. held d (get_elem? b.items b.count) refl }
  where
    held :
        (d : Datagram) (o : Option A)
        → get_elem? b.items b.count ≡ o
        → Holds
            (λ s. get_elem? b.items b.count ≡ some s)
            (elim o [ none ↦ fault overrun | some s ↦ ok (s, d) ])
    held d none e = tt
    held d (some s) e = e

-- Both buffers grew at their ends, and the totals by as much as the counts.
pub record Grew (c c' : Collector) : Type 0 where
  pub flow : Extends c.flow c'.flow
  pub cntr : Extends c.cntr c'.cntr
  pub total_flow :
      (c'.total_samples_flow + c.flow.count) % 2 ^ 32
      ≡ (c.total_samples_flow + c'.flow.count) % 2 ^ 32
  pub total_cntr :
      (c'.total_samples_cntr + c.cntr.count) % 2 ^ 32
      ≡ (c.total_samples_cntr + c'.cntr.count) % 2 ^ 32

abbrev pub IsCollector : Collector → Type 0
IsCollector c = IsBuffer c.flow × IsBuffer c.cntr

Grew-refl : (c : Collector) → IsCollector c → Grew c c
Grew-refl c is = record {
  flow = Extends-refl c.flow is.0;
  cntr = Extends-refl c.cntr is.1;
  total_flow = refl;
  total_cntr = refl;
}

Grew-trans : (a b c : Collector) → Grew a b → Grew b c → Grew a c
Grew-trans a b c x y = record {
  flow = Extends-trans a.flow b.flow c.flow x.flow y.flow;
  cntr = Extends-trans a.cntr b.cntr c.cntr x.cntr y.cntr;
  total_flow = omega (arith, x.total_flow, y.total_flow);
  total_cntr = omega (arith, x.total_cntr, y.total_cntr);
}

Grew-IsCollector : (c c' : Collector) → IsCollector c → Grew c c' → IsCollector c'
Grew-IsCollector c c' is g =
    ((g.flow.inside, omega (arith, g.flow.size)), (g.cntr.inside, omega (arith, g.cntr.size)))

module _ (t : Sample) (c : Collector) (is : IsCollector c) where
  Grew-flow :
      (s s' : FlowSample)
      → get_elem? c.flow.items c.flow.count ≡ some s
      → Grew c (record c {
        flow = fill c.flow s';
        total_samples_flow = (c.total_samples_flow + 1) % 2 ^ 64;
      })
  Grew-flow s s' held =
      let room = length_of_get_elem? c.flow.items c.flow.count held in
      record {
        flow = Extends-fill c.flow s s' is.0 held;
        cntr = Extends-refl c.cntr is.1;
        total_flow = unfold fill in omega arith;
        total_cntr = refl;
      }

  Grew-cntr :
      (s s' : CntrSample)
      → get_elem? c.cntr.items c.cntr.count ≡ some s
      → Grew c (record c {
        cntr = fill c.cntr s';
        total_samples_cntr = (c.total_samples_cntr + 1) % 2 ^ 64;
      })
  Grew-cntr s s' held =
      let room = length_of_get_elem? c.cntr.items c.cntr.count held in
      record {
        cntr = Extends-fill c.cntr s s' is.1 held;
        flow = Extends-refl c.flow is.0;
        total_cntr = unfold fill in omega arith;
        total_flow = refl;
      }

  Ensures-collect_flow : (expanded : Bool) → Ensures (Grew c) (collect_flow t c expanded)
  unfolding collect_flow
  Ensures-collect_flow expanded = Ensures-bind (slot c.flow) _ (Ensures-slot c.flow) λ s held.
      Ensures-bind (parse_flow_sample _ expanded) _ (Ensures-any _)
        λ s' _. record { holds = λ d. Grew-flow s s' held }

  Ensures-collect_cntr : (expanded : Bool) → Ensures (Grew c) (collect_cntr t c expanded)
  unfolding collect_cntr
  Ensures-collect_cntr expanded = Ensures-bind (slot c.cntr) _ (Ensures-slot c.cntr) λ s held.
      Ensures-bind (parse_counter_sample _ expanded) _ (Ensures-any _)
        λ s' _. record { holds = λ d. Grew-cntr s s' held }

  Ensures-if :
      (b : Bool) (m n : Cmd Collector)
      → Ensures (Grew c) m
      → Ensures (Grew c) n
      → Ensures (Grew c) (if b then m else n)
  Ensures-if true m n h k = h
  Ensures-if false m n h k = k

  Ensures-parse_sample : Ensures (Grew c) (parse_sample t c)
  unfolding parse_sample
  Ensures-parse_sample = Ensures-bind get_data32 _ (Ensures-any _) λ tag _.
      Ensures-bind get_data32 _ (Ensures-any _) λ size _.
        Ensures-if (tag == 1 || tag == 3) _ _ (Ensures-collect_flow _) (
          Ensures-if (tag == 2 || tag == 4) _ _ (Ensures-collect_cntr _) (
            Ensures-bind (skip_bytes size) _ (Ensures-any _)
              λ _ _. record { holds = λ d. Grew-refl c is }))

Ensures-weaken :
    {A : Type 0} {P Q : A → Type 0} (m : Cmd A) → Ensures P m → ((a : A) → P a → Q a) → Ensures Q m
Ensures-weaken {P} {Q} m h k = record { holds = λ d. weaken (m d) (h.holds d) }
  where
    weaken : (r : Result (_ × Datagram)) → Holds P r → Holds Q r
    weaken (ok (a, d)) p = k a p
    weaken (fault e) p = tt

Ensures-parse_samples :
    (n : ℕ) (t : Sample) (c : Collector) → IsCollector c → Ensures (Grew c) (parse_samples n t c)
unfolding parse_samples
Ensures-parse_samples zero t c is = record { holds = λ d. Grew-refl c is }
Ensures-parse_samples (suc n) t c is =
    Ensures-bind (parse_sample t c) _ (Ensures-parse_sample t c is) λ c' g.
      Ensures-weaken (parse_samples n t c')
        (Ensures-parse_samples n t c' (Grew-IsCollector c c' is g))
        λ c'' g'. Grew-trans c c' c'' g g'

-- Whatever bytes the samples of a datagram are parsed from, if no fault ends the run, then no
-- sample that was collected before is touched, both counts stay inside their arrays, and the two
-- totals grow by the same numbers as the counts (modulo 2^32).
pub parse_samples-Grew :
    (n : ℕ) (t : Sample) (c c' : Collector) (d d' : Datagram)
    → IsCollector c
    → parse_samples n t c d ≡ ok (c', d')
    → Grew c c' × IsCollector c'
parse_samples-Grew n t c c' d d' is e =
    let g : Grew c c' = subst (Holds (Grew c)) e ((Ensures-parse_samples n t c is).holds d) in
    (g, Grew-IsCollector c c' is g)
