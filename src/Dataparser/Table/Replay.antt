-- ===== src/Dataparser/Table/Replay.antt =====
-- A table against a map from keys to conversations: adding a sample runs its update on the
-- conversation of its key, and on no other.
use sflow_toolkit.Base.{ℕ, ◌≡◌, refl, sym, ap, ◌∙◌, Option, none, some}
use mathlib.Core.Path.{subst}
use sflow_toolkit.Base.Results.{Result, ok, fault, Returns, returns, Returns-value}
use sflow_toolkit.Dataparser.Table.{ConvTable, conv_list_add, empty_table}
use sflow_toolkit.Dataparser.Table.Assoc.{find, or_else, put_if}
use sflow_toolkit.Dataparser.Table.Lookup.{IsTable, find-conv_list_add}

-- The value of a run that is known to end without a fault.
unfoldable pub value_or : {A : Type 0} → A → Result A → A
value_or d (ok a) = a
value_or d (fault e) = d

module _ {K V S : Type 0} (same : Discrete K) (zeroed : V) (upd : S → V → Result V) where
  -- What a sample with the key `k`, or with none, does to the conversation of the key `j`.
  unfoldable pub replay_step : Option K → S → K → Option V → Option V
  unfolding value_or
  replay_step none s j o = o
  replay_step (some k) s j o = elim (same j k) [
    | yes _ ↦ some (value_or zeroed (upd s (or_else zeroed o)))
    | no _ ↦ o
  ]

  module _ (hash : K → ℕ) (Good : S → Type 0) (P : V → Type 0) where
    pub record IsGood (t : ConvTable K V) : Type 0 where
      pub table : IsTable same t
      pub values : (j : K) (v : V) → find same hash t j ≡ some v → P v

    Good-or_else : P zeroed → (o : Option V) → ((v : V) → o ≡ some v → P v) → P (or_else zeroed o)
    Good-or_else z none h = z
    Good-or_else z (some v) h = h v refl

    replay_step-put_if :
        (s : S) (k j : K) (t : ConvTable K V) (v' : V)
        → upd s (or_else zeroed (find same hash t k)) ≡ ok v'
        → put_if same k v' j (find same hash t j) ≡ replay_step (some k) s j (find same hash t j)
    unfolding replay_step
    replay_step-put_if s k j t v' done =
        elim (same j k)
          as (λ d.
            (elim d as (λ _. Option V) [ yes _ ↦ some v' | no _ ↦ find same hash t j ])
            ≡ (elim d as (λ _. Option V) [
              | yes _ ↦ some (value_or zeroed (upd s (or_else zeroed (find same hash t j))))
              | no _ ↦ find same hash t j
            ])) [ yes p ↦ rw (p, done) refl | no p ↦ refl ]

    module _ (zero_is : P zeroed)
        (upd-Returns : (s : S) (v : V) → Good s → P v → Returns P (upd s v)) where
      values_after :
          (k : K) (v' : V) (t t' : ConvTable K V)
          → P v'
          → ((j : K) (v : V) → find same hash t j ≡ some v → P v)
          → ((j : K) → find same hash t' j ≡ put_if same k v' j (find same hash t j))
          → (j : K) (v : V) → find same hash t' j ≡ some v
          → P v
      values_after k v' t t' p old found j v e = split (same j k) (sym (found j) ∙ e)
        where
          split :
              (d : Dec (j ≡ k))
              → (elim d as (λ _. Option V) [ yes _ ↦ some v' | no _ ↦ find same hash t j ]) ≡ some v
              → P v
          split (yes q) e = subst P (ap (or_else zeroed) e) p
          split (no q) e = old j v e

      pub add-Returns :
          (s : S) (k : K) (t : ConvTable K V)
          → Good s
          → IsGood t
          → Returns
              (λ t'.
                IsGood t'
                × ((j : K) → find same hash t' j ≡ replay_step (some k) s j (find same hash t j)))
              (conv_list_add same hash zeroed (upd s) k t)
      add-Returns s k t good is =
          let (v', done, p) =
            Returns-value
              (upd-Returns s _ good (Good-or_else zero_is (find same hash t k) (is.values k))) in
          let (t', went, table, found) =
            find-conv_list_add same zeroed k (upd s) v' hash t is.table done in
          rw went (
            returns (
              record { table = table; values = values_after k v' t t' p is.values found },
              λ j. found j ∙ replay_step-put_if s k j t v' done,
            ))

      pub IsGood-empty : IsGood empty_table
      unfolding find
      IsGood-empty = record { table = λ h. tt; values = λ j v e. cc }
