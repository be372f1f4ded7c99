-- ===== src/StorageCsv/Updated.antt =====
-- New numbers in a node of the table of src/storage_csv.c.
use sflow_toolkit.Base.{
  ℕ, ◌<◌, ◌≡◌, refl, sym, ap, ◌∙◌, inl, inr, Option, none, some, ◌==◌, true, false, Bool-cases,
  ==→eq, eq→==, arith,
}
use sflow_toolkit.Base.Results.{ok}
use sflow_toolkit.Base.Heap.{update}
use sflow_toolkit.Parser.Samples.{CntrSample}
use sflow_toolkit.StorageCsv.{CntrStatus, StatusHash, status_key, is_status}
use sflow_toolkit.StorageCsv.Lookup.{IsStored}
use sflow_toolkit.StorageCsv.Report.{values, sampled, set_values}
use sflow_toolkit.StorageCsv.Remembered.{
  Remembered, Represents, remember, looked, Kept, Alike, walk_fuel, same_interface,
  same_interface-eq, is_status-differs,
}

-- Two nodes at one address.
node_unique :
    (h : StatusHash) (p : ℕ) (n m : CntrStatus) → h.nodes p ≡ some n → h.nodes p ≡ some m → n ≡ m
node_unique h p n m left right = cc

module _ (g : StatusHash) (s : CntrSample) (p : ℕ) (n : CntrStatus) where
  abbrev pub updated : StatusHash
  updated = record g { nodes = update g.nodes p (some (set_values (sampled s) n)) }

  updated-here : updated.nodes p ≡ some (set_values (sampled s) n)
  updated-here = rw (eq→== p p refl) refl

  updated-there : (q : ℕ) → (q == p) ≡ false → updated.nodes q ≡ g.nodes q
  updated-there q other = rw other refl

  updated-Alike : g.nodes p ≡ some n → (q : ℕ) → Alike updated g q
  unfolding set_values
  updated-Alike at q m here = elim (Bool-cases (q == p)) [
    | inl e ↦
        let same : q ≡ p = ==→eq q p e in
        let old : m ≡ n = node_unique g p m n (ap g.nodes (sym same) ∙ here) at in
        (set_values (sampled s) n, rw same updated-here, rw old refl, rw old refl, rw old refl)
    | inr e ↦ (m, updated-there q e ∙ here, refl, refl, refl)
  ]

  pub updated-IsStored : IsStored g → g.nodes p ≡ some n → IsStored updated
  unfolding set_values
  updated-IsStored stored at = record {
    bucket = stored.bucket;
    node = λ q lt.
        let (m, here, older) = stored.node q lt in
        let (k, there, agents, interfaces, nexts) = updated-Alike at q m here in
        (k, there, rw nexts older);
  }

  updated-looked : IsStored g → g.nodes p ≡ some n → (b j : ℕ) → looked updated b j ≡ looked g b j
  updated-looked stored at b j =
      walk_fuel updated g b j g.top g.top g.top (g.buckets (status_key b)) stored
        (λ q lt. updated-Alike at q) (omega arith) (stored.bucket (status_key b)) (omega arith)
        (omega arith)

  pub updated-Represents :
      (f : Remembered)
      → IsStored g
      → looked g s.agent_address s.generic.if_index ≡ ok (some p)
      → p < g.top
      → g.nodes p ≡ some n
      → is_status s.agent_address s.generic.if_index n ≡ true
      → Represents g f
      → Represents updated (remember s f)
  unfolding Represents remember set_values
  updated-Represents f stored found lt at status shows b j =
      elim (Bool-cases (same_interface s.agent_address s.generic.if_index b j)) [
        | inl e ↦
            let (eb, ej) = same_interface-eq s.agent_address s.generic.if_index b j e in
            (
              some p,
              updated-looked stored at b j ∙ rw (eb, ej) found,
              (
                set_values (sampled s) n,
                lt,
                updated-here,
                rw (eb, ej) (set_values-is_status status),
                rw e set_values-values,
              ),
            )
        | inr e ↦
            let (o, there, kept) = shows b j in
            (o, updated-looked stored at b j ∙ there, rw e (kept-updated b j o e kept))
      ]
    where
      set_values-values : values (set_values (sampled s) n) ≡ sampled s
      set_values-values = refl

      set_values-is_status :
          is_status s.agent_address s.generic.if_index n ≡ true
          → is_status s.agent_address s.generic.if_index (set_values (sampled s) n) ≡ true
      set_values-is_status e = e

      kept-updated :
          (b j : ℕ) (o : Option ℕ)
          → same_interface s.agent_address s.generic.if_index b j ≡ false
          → Kept g b j (f b j) o
          → Kept updated b j (f b j) o
      kept-updated b j none e kept = kept
      kept-updated b j (some q) e (m, below, here, other, shown) = elim (Bool-cases (q == p)) [
        | inl same ↦
            let differs : is_status b j n ≡ false =
              is_status-differs s.agent_address s.generic.if_index b j n status e in
            let old : m ≡ n = node_unique g p m n (ap g.nodes (sym (==→eq q p same)) ∙ here) at in
            let impossible : true ≡ false = sym other ∙ ap (is_status b j) old ∙ differs in cc
        | inr apart ↦ (m, below, updated-there q apart ∙ here, other, shown)
      ]
