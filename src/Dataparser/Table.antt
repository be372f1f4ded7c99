-- ===== src/Dataparser/Table.antt =====
-- The hash tables of conversations in src/dataparser.c: `conv_list_search` and `conv_list_add`. The
-- four tables hold other types of keys and conversations and are otherwise handled alike, so the
-- code of the four `switch` cases is one function on a table, its hash and its update. `same`
-- stands for `memcmp(...) == 0`.
pub mod Assoc
pub mod Lookup
pub mod Replay
use mathlib.Core.Option
use sflow_toolkit.Base.{
  ℕ, zero, suc, ◌+◌, ◌%◌, ◌^◌, Option, none, some, List, [], ◌∷◌, ◌==◌, if◌then◌else◌,
}
use sflow_toolkit.Base.Results.{Result, ok, fault, null_pointer, ◌>>=◌}
use sflow_toolkit.Base.Heap.{update}

-- `conv_list_t`, its nodes in the order of their `next` pointers.
pub record ConvList (K V : Type 0) : Type 0 where
  pub num : ℕ
  pub nodes : List (K × V)

-- One of the arrays `hash_ethernet`, `hash_ip`, `hash_tcp`, `hash_udp`.
abbrev pub ConvTable : Type 0 → Type 0 → Type 0
ConvTable K V = ℕ → Option (ConvList K V)

-- `memset(hash_..., 0, ...)`
abbrev pub empty_table : {K V : Type 0} → ConvTable K V
empty_table = λ _. none

-- `c`, a pointer into the node at an index.
unfoldable pub update_node :
    {K V : Type 0} → ℕ → (V → Result V) → List (K × V) → Result (List (K × V))
update_node i f [] = fault null_pointer
update_node zero f ((k, v) ∷ l) = do v' ← f v; ok ((k, v') ∷ l)
update_node (suc i) f (n ∷ l) = do l' ← update_node i f l; ok (n ∷ l')

-- `list = hash_...[h]`, allocated if it is `NULL`.
unfoldable pub list_at : {K V : Type 0} → Option (ConvList K V) → ConvList K V
list_at none = record { num = 0; nodes = [] }
list_at (some l) = l

module _ {K V : Type 0} (same : Discrete K) where
  -- The index of the node that is found, for the pointer to its conversation.
  unfoldable pub conv_list_search : K → List (K × V) → Option ℕ
  conv_list_search k [] = none
  conv_list_search k ((j, v) ∷ l) =
      let rest = Option.map suc (conv_list_search k l) in
      elim (same k j) [ yes _ ↦ some 0 | no _ ↦ rest ]

  -- A key that is not in the list gets a zeroed conversation in a new first node.
  unfoldable pub find_or_insert : V → K → ConvList K V → ℕ × ConvList K V
  unfolding conv_list_search
  find_or_insert zeroed k l = elim (conv_list_search k l.nodes) [
    | some i ↦ (i, l)
    | none ↦ (0, record { num = (l.num + 1) % 2 ^ 32; nodes = (k, zeroed) ∷ l.nodes })
  ]

  unfoldable pub conv_list_add :
      (K → ℕ) → V → (V → Result V) → K → ConvTable K V → Result (ConvTable K V)
  unfolding list_at find_or_insert update_node
  conv_list_add hash zeroed updated k t = do
    let (i, l) = find_or_insert zeroed k (list_at (t (hash k)))
    nodes ← update_node i updated l.nodes
    ok (update t (hash k) (some (record l { nodes = nodes })))
