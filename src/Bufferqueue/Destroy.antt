-- ===== src/Bufferqueue/Destroy.antt =====
-- bqueue_destroy of src/bufferqueue.c.
use sflow_toolkit.Base.{
  ℕ, zero, suc, ◌≤◌, Option, none, some, List, [], ◌∷◌, ◌≡◌, ◌≢◌, refl, sym, ◌∙◌, ◌==◌, arith,
  length, All, if◌then◌else◌, false, true,
}
use mathlib.Core.Path.{subst}
use sflow_toolkit.Base.Results.{
  Result, ok, fault, null_pointer, out_of_fuel, ◌>>=◌, Returns, returns, Returns-bind,
  Returns-weaken,
}
use sflow_toolkit.Base.Heap.{update}
use sflow_toolkit.Bufferqueue.{Queue, World, Buffer}
use sflow_toolkit.Bufferqueue.Wait.{bqueue_pop_wait}
use sflow_toolkit.Bufferqueue.Chain.{
  Absent, all_but_last, last, AreDistinct, length-all_but_last, Absent-all_but_last, update_other,
}
use sflow_toolkit.Bufferqueue.Fifo.{Holds, Holds-update, Keeps}
use sflow_toolkit.Bufferqueue.Pop.{Popped, bqueue_pop_wait-Holds}

-- `free(buf->data); free(buf)`
unfoldable pub free_popped : Option (ℕ × Queue × World) → Result (Queue × World)
free_popped none = fault null_pointer
free_popped (some (b, q, w)) = ok (q, record w { buffers = update w.buffers b none })

-- `while(b->num > 0)`: no round waits, since there is a buffer. The fuel bounds the rounds.
unfoldable pub bqueue_destroy : ℕ → Queue → World → Result World
unfolding free_popped
bqueue_destroy zero q w = if q.num == 0 then ok w else fault out_of_fuel
bqueue_destroy (suc fuel) q w = if q.num == 0 then ok w else (do
  popped ← bqueue_pop_wait [] q w
  (q', w') ← free_popped popped
  bqueue_destroy fuel q' w')

abbrev pub Freed : World → List ℕ → World → Type 0
Freed w xs w' = All (λ p. w'.buffers p ≡ none) xs × Keeps xs w w'

module _ (P : ℕ → Type 0) where
  All-last : (p : ℕ) (xs : List ℕ) → All P (all_but_last p xs) → P (last p xs) → All P (p ∷ xs)
  All-last p [] all h = (h, tt)
  All-last p (x ∷ xs) (here, all) h = (here, All-last x xs all h)

pub last-ne : (r p : ℕ) (xs : List ℕ) → Absent r (p ∷ xs) → r ≢ last p xs
last-ne r p [] (ne, out) = ne
last-ne r p (x ∷ xs) (ne, out) = last-ne r x xs out

pub Absent-last :
    (p : ℕ) (xs : List ℕ) → AreDistinct (p ∷ xs) → Absent (last p xs) (all_but_last p xs)
Absent-last p [] distinct = tt
Absent-last p (x ∷ xs) (out, distinct) =
    (λ e. last-ne p x xs out (sym e), Absent-last x xs distinct)

cleared : (h : ℕ → Option Buffer) (p : ℕ) → update h p none p ≡ none
cleared h p = let same : (p == p) ≡ true = ground arith in rw same refl

module _ (fuel : ℕ) (w : World) (p : ℕ) (xs : List ℕ) where
  destroy_rest :
      (popped : Option (ℕ × Queue × World))
      → AreDistinct (p ∷ xs)
      → Popped w p xs popped
      → ((w' : World) (q' : Queue)
          → Holds w' q' (all_but_last p xs)
          → Returns (Freed w' (all_but_last p xs)) (bqueue_destroy fuel q' w'))
      → Returns (Freed w (p ∷ xs)) (do (q', w') ← free_popped popped; bqueue_destroy fuel q' w')
  unfolding free_popped
  destroy_rest none distinct h ih = elim h [ ]
  destroy_rest (some (b, q', w')) distinct (at_end, held, loose, keeps, top) ih =
      let h' : ℕ → Option Buffer = update w'.buffers b none in
      let w'' : World = record w' { buffers = h' } in
      let out : Absent b (all_but_last p xs) =
        subst (λ r. Absent r (all_but_last p xs)) (sym at_end) (Absent-last p xs distinct) in
      Returns-weaken (ih w'' q' (Holds-update w' q' b none (all_but_last p xs) out held))
        (λ v (freed, kept).
          let gone : v.buffers (last p xs) ≡ none =
            subst (λ r. v.buffers r ≡ none) at_end (kept b out ∙ cleared w'.buffers b) in
          (
            All-last (λ r. v.buffers r ≡ none) p xs freed gone,
            λ r o.
                let ne : r ≢ b = λ e. last-ne r p xs o (e ∙ at_end) in
                kept r (Absent-all_but_last p xs o) ∙ update_other w'.buffers none ne ∙ keeps r o,
          ))

-- With as much fuel as there are buffers, `bqueue_destroy` ends: it has freed every buffer of the
-- queue, and no other one.
pub bqueue_destroy-Freed :
    (fuel : ℕ) (w : World) (q : Queue) (xs : List ℕ)
    → Holds w q xs
    → length xs ≤ fuel
    → Returns (Freed w xs) (bqueue_destroy fuel q w)
unfolding bqueue_destroy free_popped
bqueue_destroy-Freed zero w q [] (num, _, _) enough =
    let empty : (q.num == 0) ≡ true = ground arith in rw empty (returns (tt, λ r o. refl))
bqueue_destroy-Freed (suc fuel) w q [] (num, _, _) enough =
    let empty : (q.num == 0) ≡ true = ground arith in rw empty (returns (tt, λ r o. refl))
bqueue_destroy-Freed zero w q (p ∷ xs) held enough =
    let impossible : ⊥ = omega arith in elim impossible [ ]
bqueue_destroy-Freed (suc fuel) w q (p ∷ xs) held enough =
    let (num, _, _, _, distinct, _) = held in
    let full : (q.num == 0) ≡ false = ground arith in
    rw full (
      Returns-bind {P = Popped w p xs} (bqueue_pop_wait-Holds [] q w p xs held) (λ popped h.
        destroy_rest fuel w p xs popped distinct h (λ w' q' held'.
          bqueue_destroy-Freed fuel w' q' (all_but_last p xs) held'
            (omega (arith, length-all_but_last p xs)))))
