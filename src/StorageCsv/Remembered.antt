-- ===== src/StorageCsv/Remembered.antt =====
-- storage_csv_store_cntr of src/storage_csv.c against a table that is a function: what the hash of
-- nodes remembers of each interface.
use sflow_toolkit.Base.{
  ℕ, zero, suc, ◌<◌, ◌≤◌, ◌≡◌, refl, sym, ◌∙◌, inl, inr, Option, none, some, ◌==◌, true, false,
  Bool, Bool-cases, ==→eq, arith, List, [], ◌∷◌, ◌&&◌, if◌then◌else◌,
}
use sflow_toolkit.Base.Results.{Result, ok, and_then}
use sflow_toolkit.Bytes.{Bytes}
use sflow_toolkit.Parser.Samples.{CntrSample}
use sflow_toolkit.StorageCsv.{CntrStatus, StatusHash, status_key, is_status, walk, add_status}
use sflow_toolkit.StorageCsv.Lookup.{
  IsBelow, IsStored, fresh, added, fresh-is_status, fresh-at, added-other, walk_here, added-bucket,
  added-top, fresh-IsStatus,
}
use sflow_toolkit.StorageCsv.Report.{Doubles, Values, values, sampled, csv_line}

-- What a walk sees of the nodes of `h` is the same in `g`.
abbrev pub Alike : StatusHash → StatusHash → ℕ → Type 0
Alike g h q =
    (m : CntrStatus)
    → h.nodes q ≡ some m
    → (n : CntrStatus) × (g.nodes q ≡ some n)
      × (n.agent ≡ m.agent)
      × (n.interface ≡ m.interface)
      × (n.next ≡ m.next)

module _ (g h : StatusHash) (agent ifindex : ℕ) where
  -- Enough fuel of either size leads to the same node.
  pub walk_fuel :
      (k j m : ℕ) (o : Option ℕ)
      → IsStored h
      → ((q : ℕ) → q < h.top → Alike g h q)
      → m ≤ h.top
      → IsBelow m o
      → m ≤ k
      → m ≤ j
      → walk k g agent ifindex o ≡ walk j h agent ifindex o
  unfolding walk
  walk_fuel k j m none stored alike le below lk lj = refl
  walk_fuel zero j m (some p) stored alike le below lk lj = absurd (omega arith)
  walk_fuel (suc k) zero m (some p) stored alike le below lk lj = absurd (omega arith)
  walk_fuel (suc k) (suc j) m (some p) stored alike le below lk lj =
      let (old, at, older) = stored.node p (omega arith) in
      let (new, here, agents, interfaces, nexts) = alike p (omega arith) old at in
      let rest =
        walk_fuel k j p old.next stored alike (omega arith) older (omega arith) (omega arith) in
      rw (here, at, and_then, agents, interfaces, nexts, rest) refl

-- A map from interfaces of agents to numbers.
abbrev pub Remembered : Type 0
Remembered = ℕ → ℕ → Values

unfoldable pub nothing : Remembered
nothing agent ifindex = record { timestamp = 0; octets_in = 0; octets_out = 0; linespeed = 0 }

unfoldable pub remember : CntrSample → Remembered → Remembered
remember s f agent ifindex =
    if agent == s.agent_address && ifindex == s.generic.if_index then sampled s else f agent ifindex

-- The lines of samples, each against the sample before of the same interface.
unfoldable pub csv_lines : {D : Type 0} → Doubles D → List CntrSample → Remembered → List Bytes
unfolding remember
csv_lines o [] f = []
csv_lines o (s ∷ ss) f =
    csv_line o (f s.agent_address s.generic.if_index) s ∷ csv_lines o ss (remember s f)

unfoldable pub remember_all : List CntrSample → Remembered → Remembered
unfolding remember
remember_all [] f = f
remember_all (s ∷ ss) f = remember_all ss (remember s f)

abbrev pub looked : StatusHash → ℕ → ℕ → Result (Option ℕ)
looked h agent ifindex = walk h.top h agent ifindex (h.buckets (status_key agent))

abbrev pub Kept : StatusHash → ℕ → ℕ → Values → Option ℕ → Type 0
Kept h agent ifindex v none = v ≡ nothing agent ifindex
Kept h agent ifindex v (some p) =
    (n : CntrStatus) × (p < h.top)
    × (h.nodes p ≡ some n)
    × (is_status agent ifindex n ≡ true)
    × (values n ≡ v)

-- The table `h` has the numbers that `f` has.
unfoldable pub Represents : StatusHash → Remembered → Type 0
Represents h f =
    (agent ifindex : ℕ)
    → (o : Option ℕ) × (looked h agent ifindex ≡ ok o) × Kept h agent ifindex (f agent ifindex) o

abbrev pub same_interface : ℕ → ℕ → ℕ → ℕ → Bool
same_interface a i b j = b == a && j == i

pub same_interface-eq : (a i b j : ℕ) → same_interface a i b j ≡ true → (b ≡ a) × (j ≡ i)
same_interface-eq a i b j e = (ground arith, ground arith)

is_status-eq :
    (a i : ℕ) (n : CntrStatus) → is_status a i n ≡ true → (n.agent ≡ a) × (n.interface ≡ i)
is_status-eq a i n e = (ground arith, ground arith)

pub is_status-differs :
    (a i b j : ℕ) (n : CntrStatus)
    → is_status a i n ≡ true
    → same_interface a i b j ≡ false
    → is_status b j n ≡ false
is_status-differs a i b j n here differs = ground arith

module _ (h : StatusHash) (a i : ℕ) (f : Remembered) where
  pub added-looked-same :
      IsStored h → (b j : ℕ) → b ≡ a → j ≡ i → looked (added h a i) b j ≡ ok (some h.top)
  added-looked-same stored b j eb ej =
      rw (eb, ej, added-bucket h a i, added-top h a i)
        (walk_here h a i h.top (added h a i) h.top (fresh-IsStatus h a i))

  added-Alike : IsStored h → (q : ℕ) → q < h.top → Alike (added h a i) h q
  added-Alike stored q lt m at = (m, added-other h a i q lt ∙ at, refl, refl, refl)

  added-looked-other :
      IsStored h
      → (b j : ℕ) → same_interface a i b j ≡ false
      → looked (added h a i) b j ≡ looked h b j
  unfolding walk add_status
  added-looked-other stored b j differs = elim (Bool-cases (status_key b == status_key a)) [
    | inl here ↦
        let keys : status_key b ≡ status_key a = ==→eq (status_key b) (status_key a) here in
        rw (keys, added-bucket h a i)
          (first_other (added h a i).top (added-top h a i) (fresh-at h a i)
            ∙ older h.top (status_key a) (omega arith))
    | inr there ↦
        let bucket : (added h a i).buckets (status_key b) ≡ h.buckets (status_key b) =
          rw there refl in
        rw bucket (older (added h a i).top (status_key b) (omega (arith, added-top h a i)))
  ]
    where
      first_other :
          (k : ℕ)
          → k ≡ suc h.top
          → (added h a i).nodes h.top ≡ some (fresh h a i)
          → walk k (added h a i) b j (some h.top)
            ≡ walk h.top (added h a i) b j (h.buckets (status_key a))
      first_other k e at =
          let other : is_status b j (fresh h a i) ≡ false =
            is_status-differs a i b j (fresh h a i) (fresh-is_status h a i) differs in
          rw e (rw (at, and_then, other) refl)

      older :
          (k key : ℕ)
          → h.top ≤ k
          → walk k (added h a i) b j (h.buckets key) ≡ walk h.top h b j (h.buckets key)
      older k key le =
          walk_fuel (added h a i) h b j k h.top h.top (h.buckets key) stored (added-Alike stored)
            (omega arith) (stored.bucket key) le (omega arith)

  pub added-Kept :
      looked h a i ≡ ok none → Represents h f → Kept (added h a i) a i (f a i) (some h.top)
  unfolding Represents nothing
  added-Kept missing shows =
      let (o, found, kept) = shows a i in
      (
        fresh h a i,
        omega (arith, added-top h a i),
        fresh-at h a i,
        fresh-is_status h a i,
        fresh-values o found kept,
      )
    where
      fresh-values :
          (o : Option ℕ) → looked h a i ≡ ok o → Kept h a i (f a i) o → values (fresh h a i) ≡ f a i
      fresh-values none found kept = sym kept
      fresh-values (some p) found kept = cc

  pub added-Represents :
      IsStored h → looked h a i ≡ ok none → Represents h f → Represents (added h a i) f
  unfolding Represents
  added-Represents stored missing shows b j = elim (Bool-cases (same_interface a i b j)) [
    | inl e ↦
        let (eb, ej) = same_interface-eq a i b j e in
        (some h.top, added-looked-same stored b j eb ej, rw (eb, ej) (added-Kept missing shows))
    | inr e ↦
        let (o, found, kept) = shows b j in
        (o, added-looked-other stored b j e ∙ found, kept-added b j o kept)
  ]
    where
      kept-added :
          (b j : ℕ) (o : Option ℕ) → Kept h b j (f b j) o → Kept (added h a i) b j (f b j) o
      kept-added b j none kept = kept
      kept-added b j (some p) (n, lt, at, status, shown) =
          (n, omega (arith, added-top h a i), added-other h a i p lt ∙ at, status, shown)
