-- ===== src/Dataparser/Table/Lookup.antt =====
-- The tables as maps: what `conv_list_add` changes, seen through `conv_list_search`.
use mathlib.Core.Path.{subst}
use sflow_toolkit.Base.{
  ℕ, ◌+◌, ◌%◌, ◌^◌, ◌≡◌, ◌≢◌, refl, sym, ap, ◌∙◌, inl, inr, Option, none, some, List, ◌∷◌, ◌==◌,
  length, arith, Bool-cases, eq→==,
}
use sflow_toolkit.Base.Results.{Result, ok}
use sflow_toolkit.Base.Heap.{update}
use sflow_toolkit.Dataparser.Table.{
  ConvList, ConvTable, update_node, list_at, conv_list_search, find_or_insert, conv_list_add,
}
use sflow_toolkit.Dataparser.Table.Assoc.{
  or_else, assoc, assoc_list, find, put_if, Found, assoc-search_none, search-Found,
}

module _ {K V : Type 0} (same : Discrete K) where
  -- A list counts its nodes, and they fit the counter.
  abbrev pub IsConvList : Option (ConvList K V) → Type 0
  IsConvList none = Unit {0}
  IsConvList (some l) = l.num ≡ length l.nodes % 2 ^ 32

  abbrev pub IsTable : ConvTable K V → Type 0
  IsTable t = (h : ℕ) → IsConvList (t h)

  assoc-list_at :
      (k : K) (o : Option (ConvList K V)) → assoc same k (list_at o).nodes ≡ assoc_list same k o
  unfolding list_at assoc
  assoc-list_at k none = refl
  assoc-list_at k (some l) = refl

  module _ (zeroed : V) (k : K) (f : V → Result V) (v' : V) where
    -- The update of the node that a search or an insertion gave, in the list `l`.
    Updated : ConvList K V → ℕ × ConvList K V → Type 0
    Updated l p =
        (nodes : List (K × V)) × (update_node p.0 f p.1.nodes ≡ ok nodes)
        × ((j : K) → assoc same j nodes ≡ put_if same k v' j (assoc same j l.nodes))
        × (p.1.num ≡ length nodes % 2 ^ 32)

    find_or_insert-some :
        (l : ConvList K V) (i : ℕ)
        → conv_list_search same k l.nodes ≡ some i
        → find_or_insert same zeroed k l ≡ (i, l)
    unfolding find_or_insert
    find_or_insert-some l i e = ground arith

    find_or_insert-none :
        (l : ConvList K V)
        → conv_list_search same k l.nodes ≡ none
        → find_or_insert same zeroed k l
          ≡ (0, record { num = (l.num + 1) % 2 ^ 32; nodes = (k, zeroed) ∷ l.nodes })
    unfolding find_or_insert
    find_or_insert-none l e = ground arith

    Updated-old :
        (l : ConvList K V) (i : ℕ)
        → l.num ≡ length l.nodes % 2 ^ 32
        → f (or_else zeroed (assoc same k l.nodes)) ≡ ok v'
        → Found same k l.nodes i
        → Updated l (i, l)
    unfolding Updated Found
    Updated-old l i counted done (v, held, step) =
        let (nodes, went, changed, size) = step f v' (rw held at done) in
        (nodes, went, changed, rw size counted)

    Updated-new :
        (l : ConvList K V)
        → l.num ≡ length l.nodes % 2 ^ 32
        → f (or_else zeroed (assoc same k l.nodes)) ≡ ok v'
        → assoc same k l.nodes ≡ none
        → Updated l (0, record { num = (l.num + 1) % 2 ^ 32; nodes = (k, zeroed) ∷ l.nodes })
    unfolding Updated update_node assoc
    Updated-new l counted done fresh =
        let done' : f zeroed ≡ ok v' = rw fresh at done in
        ((k, v') ∷ l.nodes, rw done' refl, λ j. refl, omega arith)

    find_or_insert-Updated :
        (l : ConvList K V)
        → l.num ≡ length l.nodes % 2 ^ 32
        → f (or_else zeroed (assoc same k l.nodes)) ≡ ok v'
        → Updated l (find_or_insert same zeroed k l)
    find_or_insert-Updated l counted done = split (conv_list_search same k l.nodes) refl
      where
        split :
            (o : Option ℕ)
            → conv_list_search same k l.nodes ≡ o
            → Updated l (find_or_insert same zeroed k l)
        split (some i) e =
            subst (Updated l) (sym (find_or_insert-some l i e))
              (Updated-old l i counted done (search-Found same k l.nodes i e))
        split none e =
            subst (Updated l) (sym (find_or_insert-none l e))
              (Updated-new l counted done (assoc-search_none same k l.nodes e))

    module _ (hash : K → ℕ) (t : ConvTable K V) where
      counted_after :
          IsTable t
          → (l : ConvList K V) → l.num ≡ length l.nodes % 2 ^ 32
          → IsTable (update t (hash k) (some l))
      counted_after is l counted h = elim (Bool-cases (h == hash k)) [
        | inl e ↦ rw e counted
        | inr e ↦ rw e (is h)
      ]

      put_if_other : (j : K) (o : Option V) → j ≢ k → o ≡ put_if same k v' j o
      put_if_other j o ne =
          elim (same j k) as (λ s. o ≡ (elim s as (λ _. Option V) [ yes _ ↦ some v' | no _ ↦ o ])) [
            | yes q ↦ absurd (ne q)
            | no q ↦ refl
          ]

      found_after :
          (l : ConvList K V)
          → ((j : K) → assoc same j l.nodes ≡ put_if same k v' j (assoc_list same j (t (hash k))))
          → (j : K)
          → find same hash (update t (hash k) (some l)) j ≡ put_if same k v' j (find same hash t j)
      unfolding find
      found_after l h j = elim (Bool-cases (hash j == hash k)) [
        | inl e ↦ rw e (h j ∙ ap (λ n. put_if same k v' j (assoc_list same j (t n))) (ground arith))
        | inr e ↦ rw e (
            put_if_other j (assoc_list same j (t (hash j)))
              λ q. cc (e, eq→== (hash j) (hash k) (ap hash q)))
      ]

    -- On a well-formed table, if the update succeeds on the conversation of the key, or on a
    -- zeroed one where the key is new, then `conv_list_add` succeeds, the result of the update is
    -- the conversation of the key, every other key keeps its own, and the table stays well formed.
    pub find-conv_list_add :
        (hash : K → ℕ) (t : ConvTable K V)
        → IsTable t
        → f (or_else zeroed (find same hash t k)) ≡ ok v'
        → (t' : ConvTable K V) × (conv_list_add same hash zeroed f k t ≡ ok t')
          × IsTable t'
          × ((j : K) → find same hash t' j ≡ put_if same k v' j (find same hash t j))
    unfolding conv_list_add find Updated
    find-conv_list_add hash t is done =
        let (nodes, went, changed, counted) =
          find_or_insert-Updated (list_at (t (hash k))) (counted_at (t (hash k)) (is (hash k)))
            (rw (assoc-list_at k (t (hash k))) done) in
        let l' : ConvList K V = record ((find_or_insert same zeroed k (list_at (t (hash k)))).1) {
          nodes = nodes;
        } in
        (
          update t (hash k) (some l'),
          rw went refl,
          counted_after hash t is l' counted,
          found_after hash t l'
              (λ j. changed j ∙ ap (put_if same k v' j) (assoc-list_at j (t (hash k)))),
        )
      where
        counted_at :
            (o : Option (ConvList K V))
            → IsConvList o
            → (list_at o).num ≡ length (list_at o).nodes % 2 ^ 32
        counted_at none h = unfold list_at in refl
        counted_at (some l) h = unfold list_at in h
