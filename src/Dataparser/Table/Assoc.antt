-- ===== src/Dataparser/Table/Assoc.antt =====
-- Lists of nodes as maps: what `conv_list_search` finds, and what an update there changes.
use mathlib.Core.Option
use mathlib.Core.Path.{subst}
use sflow_toolkit.Base.{
  ℕ, suc, ◌≡◌, ◌≢◌, refl, sym, ap, ◌∙◌, Option, none, some, List, [], ◌∷◌, length,
}
use sflow_toolkit.Base.Results.{Result, ok}
use sflow_toolkit.Dataparser.Table.{ConvList, ConvTable, update_node, conv_list_search}

abbrev pub or_else {ℓ} : {A : Type ℓ} → A → Option A → A
or_else d none = d
or_else d (some a) = a

module _ {K V : Type 0} (same : Discrete K) where
  -- The conversation of a key in a list, and in a table.
  unfoldable pub assoc : K → List (K × V) → Option V
  assoc k [] = none
  assoc k ((j, v) ∷ l) = let rest = assoc k l in elim (same k j) [ yes _ ↦ some v | no _ ↦ rest ]

  abbrev pub assoc_list : K → Option (ConvList K V) → Option V
  assoc_list k none = none
  assoc_list k (some l) = assoc k l.nodes

  unfoldable pub find : (K → ℕ) → ConvTable K V → K → Option V
  find hash t k = assoc_list k (t (hash k))

  abbrev pub put_if : K → V → K → Option V → Option V
  put_if k v j o = elim (same j k) [ yes _ ↦ some v | no _ ↦ o ]

  pub assoc-search_none :
      (k : K) (l : List (K × V)) → conv_list_search same k l ≡ none → assoc k l ≡ none
  unfolding assoc conv_list_search
  assoc-search_none k [] e = refl
  assoc-search_none k ((j, v) ∷ l) e =
      elim (same k j)
          as (λ s.
            (elim s as (λ _. Option ℕ) [
              | yes _ ↦ some 0
              | no _ ↦ Option.map suc (conv_list_search same k l)
            ])
              ≡ none
            → (elim s as (λ _. Option V) [ yes _ ↦ some v | no _ ↦ assoc k l ]) ≡ none) [
              | yes p ↦ λ e. cc
              | no p ↦ λ e. assoc-search_none k l (map-none (conv_list_search same k l) e)
            ]
        e
    where
      map-none : (o : Option ℕ) → Option.map suc o ≡ none → o ≡ none
      map-none none e = refl
      map-none (some i) e = cc

  -- The node that a search found holds the key's conversation, and an update there changes the
  -- conversation of that key only.
  unfoldable pub Found : K → List (K × V) → ℕ → Type 0
  Found k l i =
      (v : V) × (assoc k l ≡ some v)
      × ((f : V → Result V) (v' : V)
          → f v ≡ ok v'
          → (l' : List (K × V)) × (update_node i f l ≡ ok l')
            × ((j : K) → assoc j l' ≡ put_if k v' j (assoc j l))
            × (length l' ≡ length l))

  put_if_shadow :
      (k j : K) (v v' : V) (o : Option V) (s : Dec (j ≡ k))
      → (elim s as (λ _. Option V) [ yes _ ↦ some v' | no _ ↦ o ])
        ≡ put_if k v' j (elim s as (λ _. Option V) [ yes _ ↦ some v | no _ ↦ o ])
  put_if_shadow k j v v' o (yes p) =
      elim (same j k)
        as (λ t. some v' ≡ (elim t as (λ _. Option V) [ yes _ ↦ some v' | no _ ↦ some v ])) [
          | yes q ↦ refl
          | no q ↦ absurd (q p)
        ]
  put_if_shadow k j v v' o (no p) =
      elim (same j k) as (λ t. o ≡ (elim t as (λ _. Option V) [ yes _ ↦ some v' | no _ ↦ o ])) [
        | yes q ↦ absurd (p q)
        | no q ↦ refl
      ]

  Found-here : (k j : K) (w : V) (l : List (K × V)) → k ≡ j → Found k ((j, w) ∷ l) 0
  unfolding Found assoc update_node
  Found-here k j w l e =
      (w, same_key, λ f v' done. ((j, v') ∷ l, rw done refl, λ m. changed m v', refl))
    where
      same_key : (elim (same k j) as (λ _. Option V) [ yes _ ↦ some w | no _ ↦ assoc k l ]) ≡ some w
      same_key =
          elim (same k j)
            as (λ s. (elim s as (λ _. Option V) [ yes _ ↦ some w | no _ ↦ assoc k l ]) ≡ some w) [
              | yes _ ↦ refl
              | no q ↦ absurd (q e)
            ]

      changed :
          (m : K) (v' : V)
          → (elim (same m j) as (λ _. Option V) [ yes _ ↦ some v' | no _ ↦ assoc m l ])
            ≡ put_if k v' m
                (elim (same m j) as (λ _. Option V) [ yes _ ↦ some w | no _ ↦ assoc m l ])
      changed m v' = rw e (put_if_shadow j m w v' (assoc m l) (same m j))

  put_if_past :
      (k j m : K) (w v' : V) (o : Option V)
      → k ≢ j
      → (s : Dec (m ≡ j))
      → (elim s as (λ _. Option V) [ yes _ ↦ some w | no _ ↦ put_if k v' m o ])
        ≡ put_if k v' m (elim s as (λ _. Option V) [ yes _ ↦ some w | no _ ↦ o ])
  put_if_past k j m w v' o ne (yes p) =
      elim (same m k)
        as (λ t. some w ≡ (elim t as (λ _. Option V) [ yes _ ↦ some v' | no _ ↦ some w ])) [
          | yes q ↦ absurd (ne (sym q ∙ p))
          | no q ↦ refl
        ]
  put_if_past k j m w v' o ne (no p) = refl

  Found-behind :
      (k j : K) (w : V) (l : List (K × V)) (i : ℕ)
      → k ≢ j
      → Found k l i
      → Found k ((j, w) ∷ l) (suc i)
  unfolding Found assoc update_node
  Found-behind k j w l i ne (v, held, step) = (
    v,
    past,
    λ f v' done.
        let (l', went, changed, size) = step f v' done in
        (
          (j, w) ∷ l',
          rw went refl,
          λ m.
              (λ i. elim (same m j) as (λ _. Option V) [ yes _ ↦ some w | no _ ↦ changed m i ])
              ∙ put_if_past k j m w v' (assoc m l) ne (same m j),
          ap suc size,
        ),
  )
    where
      past : (elim (same k j) as (λ _. Option V) [ yes _ ↦ some w | no _ ↦ assoc k l ]) ≡ some v
      past =
          elim (same k j)
            as (λ s. (elim s as (λ _. Option V) [ yes _ ↦ some w | no _ ↦ assoc k l ]) ≡ some v) [
              | yes q ↦ absurd (ne q)
              | no _ ↦ held
            ]

  pub search-Found :
      (k : K) (l : List (K × V)) (i : ℕ) → conv_list_search same k l ≡ some i → Found k l i
  unfolding conv_list_search
  search-Found k [] i e = cc
  search-Found k ((j, w) ∷ l) i e = split (same k j) (search-Found k l) e
    where
      split :
          (s : Dec (k ≡ j))
          → ((n : ℕ) → conv_list_search same k l ≡ some n → Found k l n)
          → (elim s as (λ _. Option ℕ) [
            | yes _ ↦ some 0
            | no _ ↦ Option.map suc (conv_list_search same k l)
          ])
            ≡ some i
          → Found k ((j, w) ∷ l) i
      split (yes p) ih e = subst (Found k ((j, w) ∷ l)) (ap (or_else 0) e) (Found-here k j w l p)
      split (no p) ih e = deeper (conv_list_search same k l) refl e
        where
          deeper :
              (o : Option ℕ)
              → conv_list_search same k l ≡ o
              → Option.map suc o ≡ some i
              → Found k ((j, w) ∷ l) i
          deeper none q e = cc
          deeper (some n) q e =
              subst (Found k ((j, w) ∷ l)) (ap (or_else 0) e) (Found-behind k j w l n p (ih n q))
