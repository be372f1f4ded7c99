-- ===== src/Bufferqueue/Init.antt =====
-- What bqueue_init of src/bufferqueue.c builds, whichever of its allocations succeed.
use sflow_toolkit.Base.{ℕ, suc, ◌+◌, ◌^◌, ◌<◌, List, [], ◌∷◌, ◌≡◌, refl, sym, arith, length, All}
use mathlib.Core.Path.{subst}
use sflow_toolkit.Base.Results.{Returns, returns, Returns-bind}
use sflow_toolkit.Bufferqueue.{
  Queue, World, write, Allocation, granted, no_buffer, no_data, Errno, new_buffer, bqueue_push_new,
  push_each_new, bqueue_init,
}
use sflow_toolkit.Bufferqueue.Chain.{Absent, update_self}
use sflow_toolkit.Bufferqueue.Fifo.{Holds, Holds-update, IsLoose, bqueue_push-Holds}

-- The addresses of the buffers that get into the queue, the last one in front.
abbrev pub built : List Allocation → ℕ → List ℕ → List ℕ
built [] top xs = xs
built (granted ∷ outcomes) top xs = built outcomes (top + 1) (top ∷ xs)
built (no_buffer ∷ outcomes) top xs = built outcomes top xs
built (no_data ∷ outcomes) top xs = built outcomes (top + 1) xs

AreBelow : ℕ → List ℕ → Type 0
AreBelow top xs = All (λ x. x < top) xs

Absent-AreBelow : (top : ℕ) (xs : List ℕ) → AreBelow top xs → Absent top xs
unfolding AreBelow
Absent-AreBelow top [] below = tt
Absent-AreBelow top (x ∷ xs) (lt, below) = (λ e. omega arith, Absent-AreBelow top xs below)

AreBelow-suc : (top : ℕ) (xs : List ℕ) → AreBelow top xs → AreBelow (top + 1) xs
unfolding AreBelow
AreBelow-suc top [] below = tt
AreBelow-suc top (x ∷ xs) (lt, below) = (omega arith, AreBelow-suc top xs below)

-- The block that `malloc` hands out is outside the queue.
new_buffer-Holds :
    (w : World) (q r : Queue) (xs : List ℕ)
    → Absent w.top xs
    → Holds w q xs
    → Holds (new_buffer r w) q xs
unfolding new_buffer write
new_buffer-Holds w q r [] out held = held
new_buffer-Holds w q r (x ∷ xs) out held = Holds-update w q w.top _ (x ∷ xs) out held

new_buffer-IsLoose : (w : World) (r : Queue) → IsLoose (new_buffer r w) w.top
unfolding new_buffer write
new_buffer-IsLoose w r = (_, update_self w.buffers w.top _, refl)

abbrev Added : World → Queue → List ℕ → Errno × Queue × World → Type 0
Added w q xs (e, q', w') = Holds w' q' (w.top ∷ xs) × (w'.top ≡ w.top + 1)

bqueue_push_new-Holds :
    (w : World) (q : Queue) (xs : List ℕ)
    → Holds w q xs
    → Absent w.top xs
    → suc (length xs) < 2 ^ 32
    → Returns (Added w q xs) (bqueue_push_new granted q w)
unfolding bqueue_push_new new_buffer write
bqueue_push_new-Holds w q xs held out small =
    Returns-bind
      (bqueue_push-Holds (new_buffer q w) q w.top xs (new_buffer-Holds w q q xs out held)
        (new_buffer-IsLoose w q) out small)
      (λ (q', w') (held', kept, top). returns (held', top))

push_each_new-Holds :
    (outcomes : List Allocation) (w : World) (q : Queue) (xs : List ℕ)
    → Holds w q xs
    → AreBelow w.top xs
    → length xs + length outcomes < 2 ^ 32
    → Returns (λ (q', w'). Holds w' q' (built outcomes w.top xs)) (push_each_new outcomes q w)
unfolding push_each_new bqueue_push_new AreBelow new_buffer write
push_each_new-Holds [] w q xs held below small = returns held
push_each_new-Holds (no_buffer ∷ outcomes) w q xs held below small =
    push_each_new-Holds outcomes w q xs held below (omega arith)
push_each_new-Holds (no_data ∷ outcomes) w q xs held below small =
    push_each_new-Holds outcomes (new_buffer q w) q xs
      (new_buffer-Holds w q q xs (Absent-AreBelow w.top xs below) held)
      (AreBelow-suc w.top xs below) (omega arith)
push_each_new-Holds (granted ∷ outcomes) w q xs held below small =
    let out = Absent-AreBelow w.top xs below in
    Returns-bind {P = Added w q xs} (bqueue_push_new-Holds w q xs held out (omega arith))
      (λ (e, q', w') (held', top).
        let below' : AreBelow w'.top (w.top ∷ xs) =
          subst (λ t. AreBelow t (w.top ∷ xs)) (sym top)
            (omega arith, AreBelow-suc w.top xs below) in
        subst
          (λ t.
            Returns (λ (r, v). Holds v r (built outcomes t (w.top ∷ xs)))
              (push_each_new outcomes q' w'))
          top (push_each_new-Holds outcomes w' q' (w.top ∷ xs) held' below' (omega arith)))

-- A new queue holds exactly the buffers whose two allocations succeeded, the last one in front;
-- where one fails the queue is only shorter. There are less than 2^32 of them.
pub bqueue_init-Holds :
    (outcomes : List Allocation) (buffersize itemsize : ℕ) (w : World)
    → length outcomes < 2 ^ 32
    → Returns
        (λ (q, w'). Holds w' q (built outcomes w.top []))
        (bqueue_init outcomes buffersize itemsize w)
unfolding bqueue_init AreBelow
bqueue_init-Holds outcomes buffersize itemsize w small =
    push_each_new-Holds outcomes w _ [] (refl, refl, refl) tt (omega arith)
