-- ===== src/Bufferqueue/Pop.antt =====
-- What bqueue_pop and bqueue_pop_wait of src/bufferqueue.c return.
use sflow_toolkit.Base.{
  ℕ, suc, ◌<◌, ◌≤◌, Option, none, some, List, [], ◌∷◌, ◌≡◌, refl, ◌==◌, ltb, arith, false, true,
  Bool, length, All,
}
use sflow_toolkit.Base.Results.{ok, fault, null_pointer, Returns, returns, Returns-bind, and_then}
use sflow_toolkit.Bufferqueue.{Queue, World, Allocation, bqueue_free, non_null}
use sflow_toolkit.Bufferqueue.Wait.{
  Wake, push_all, await, adjust, take_awaited, bqueue_pop_wait, bqueue_pop,
}
use sflow_toolkit.Bufferqueue.Fifo.{Holds, Taken, take_last-Holds}

await-nothing :
    (wakes : List Wake) (timed : Bool) (q : Queue) (w : World)
    → q.num ≡ 0
    → All (λ wake. wake.pushed ≡ []) wakes
    → await wakes timed q w ≡ ok none
unfolding await push_all
await-nothing [] timed q w num nothing =
    let empty : (q.num == 0) ≡ true = ground arith in rw empty refl
await-nothing (wake ∷ wakes) timed q w num (e, nothing) =
    let empty : (q.num == 0) ≡ true = ground arith in
    rw empty (rw e (await-nothing wakes wake.timed_out q w num nothing))

-- `bqueue_pop` on an empty queue to which no other thread pushes does not return, however many of
-- its waits time out, and although memory could be allocated.
pub bqueue_pop-nothing :
    (n : ℕ) (outcome : Allocation) (wakes : List Wake) (q : Queue) (w : World)
    → Holds w q []
    → All (λ wake. wake.pushed ≡ []) wakes
    → bqueue_pop n outcome wakes q w ≡ ok none
unfolding bqueue_pop adjust take_awaited
bqueue_pop-nothing n outcome wakes q w (num, _, _) nothing =
    rw (await-nothing wakes false q w num nothing, and_then) refl

await-ready :
    (wakes : List Wake) (q : Queue) (w : World)
    → 0 < q.num
    → await wakes false q w ≡ ok (some (wakes, false, q, w))
unfolding await
await-ready [] q w ready = let full : (q.num == 0) ≡ false = ground arith in rw full refl
await-ready (wake ∷ wakes) q w ready =
    let full : (q.num == 0) ≡ false = ground arith in rw full refl

abbrev pub Popped : World → ℕ → List ℕ → Option (ℕ × Queue × World) → Type 0
Popped w p xs none = ⊥
Popped w p xs (some taken) = Taken w p xs taken

-- `bqueue_pop` on a queue with buffers, of which there are not more than the configured number,
-- takes the last one at once, and neither allocates nor frees one.
pub bqueue_pop-Holds :
    (n : ℕ) (outcome : Allocation) (wakes : List Wake) (q : Queue) (w : World) (p : ℕ) (xs : List ℕ)
    → Holds w q (p ∷ xs)
    → suc (length xs) ≤ n
    → Returns (Popped w p xs) (bqueue_pop n outcome wakes q w)
unfolding bqueue_pop adjust take_awaited
bqueue_pop-Holds n outcome wakes q w p xs held few =
    let (num, _, _, _, _, _) = held in
    let calm : ltb n q.num ≡ false = ground arith in
    rw (await-ready wakes q w (omega arith), and_then)
      (rw (calm, and_then) (Returns-bind (take_last-Holds w q p xs held) (λ taken h. returns h)))

-- `bqueue_pop_wait` on a queue with buffers takes the last one at once.
pub bqueue_pop_wait-Holds :
    (wakes : List Wake) (q : Queue) (w : World) (p : ℕ) (xs : List ℕ)
    → Holds w q (p ∷ xs)
    → Returns (Popped w p xs) (bqueue_pop_wait wakes q w)
unfolding bqueue_pop_wait take_awaited
bqueue_pop_wait-Holds wakes q w p xs held =
    let (num, _, _, _, _, _) = held in
    rw (await-ready wakes q w (omega arith), and_then)
      (Returns-bind (take_last-Holds w q p xs held) (λ taken h. returns h))

-- With a configured number of 0, `bqueue_pop` on a queue of one buffer dereferences `NULL`: it
-- frees the buffer as if another one stood behind it.
pub bqueue_pop-single :
    (outcome : Allocation) (wakes : List Wake) (q : Queue) (w : World) (p : ℕ)
    → Holds w q (p ∷ [])
    → bqueue_pop 0 outcome wakes q w ≡ fault null_pointer
unfolding bqueue_pop adjust bqueue_free non_null
bqueue_pop-single outcome wakes q w p (num, lt, start, end, distinct, (before, (b, at, back, on))) =
    rw (await-ready wakes q w (omega arith), and_then)
      (rw num (rw (start, and_then) (rw (at, and_then) (rw (on, and_then) refl))))
