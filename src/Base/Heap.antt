-- ===== src/Base/Heap.antt =====
-- Objects at addresses: a heap is a function from addresses to the objects that stand there.
use Prim.Native.Nat.{ℕ}
use mathlib.Core.Option.{Option, none, some}
use sflow_toolkit.Base.Tests.{◌==◌, if◌then◌else◌}
use sflow_toolkit.Base.Results.{Result, ok, fault, null_pointer}

abbrev pub update {ℓ} : {A : Type ℓ} → (ℕ → A) → ℕ → A → ℕ → A
update f p v q = if q == p then v else f q

-- `*p`
abbrev pub deref {ℓ} : {A : Type ℓ} → (ℕ → Option A) → ℕ → Result A
deref heap p = elim (heap p) [ none ↦ fault null_pointer | some a ↦ ok a ]

-- `*p` where `p` may be `NULL`.
abbrev pub deref? {ℓ} : {A : Type ℓ} → (ℕ → Option A) → Option ℕ → Result A
deref? heap none = fault null_pointer
deref? heap (some p) = deref heap p
