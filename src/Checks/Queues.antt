-- ===== src/Checks/Queues.antt =====
-- Queues of a few buffers.
use sflow_toolkit.Base.{ℕ, zero, suc, Option, none, some, List, [], ◌∷◌, ◌≡◌, refl, true, arith}
use sflow_toolkit.Base.Results.{ok, fault, null_pointer, Returns}
use sflow_toolkit.Bufferqueue.{
  Buffer, Queue, World, bqueue_push, Allocation, granted, no_buffer, no_data, take_last,
}
use sflow_toolkit.Bufferqueue.Wait.{Wake, bqueue_pop}
use sflow_toolkit.Bufferqueue.Fifo.{Holds, Pushed, Taken, bqueue_push-Holds, take_last-Holds}
use sflow_toolkit.Bufferqueue.Pop.{Popped, bqueue_pop-Holds, bqueue_pop-nothing, bqueue_pop-single}
use sflow_toolkit.Bufferqueue.Destroy.{bqueue_destroy, Freed, bqueue_destroy-Freed}

abbrev buffer : Option ℕ → Option ℕ → Buffer
buffer next prev = record { index = 0; next = next; prev = prev; count = 3; size = 640 }

-- Buffer 1 in front of buffer 0, whose successor is cleared, and buffer 2 outside the queue.
abbrev buffers : ℕ → Option Buffer
buffers zero = some (buffer none (some 1))
buffers (suc zero) = some (buffer (some 0) none)
buffers (suc (suc zero)) = some (buffer none (some 0))
buffers (suc (suc (suc n))) = none

abbrev world : World
world = record { buffers = buffers; top = 3 }

abbrev pair : Queue
pair = record { num = 2; buffersize = 10; itemsize = 64; start = some 1; end = some 0 }

abbrev single : Queue
single = record { num = 1; buffersize = 10; itemsize = 64; start = some 2; end = some 2 }

abbrev empty : Queue
empty = record { num = 0; buffersize = 10; itemsize = 64; start = none; end = none }

pair-Holds : Holds world pair (1 ∷ 0 ∷ [])
pair-Holds = (
  refl,
  omega arith,
  refl,
  refl,
  ((omega arith, tt), (tt, tt)),
  (none, ((buffer (some 0) none, refl, refl, refl), (buffer none (some 1), refl, refl, refl))),
)

single-Holds : Holds world single (2 ∷ [])
single-Holds =
    (refl, omega arith, refl, refl, (tt, tt), (some 0, (buffer none (some 0), refl, refl, refl)))

bqueue_push-Holds_example : Returns (Pushed world pair 2 (1 ∷ 0 ∷ [])) (bqueue_push pair 2 world)
bqueue_push-Holds_example =
    bqueue_push-Holds world pair 2 (1 ∷ 0 ∷ []) pair-Holds (buffer none (some 0), refl, refl)
      (omega arith, (omega arith, tt)) (omega arith)

take_last-Holds_example : Returns (Taken world 1 (0 ∷ [])) (take_last pair world)
take_last-Holds_example = take_last-Holds world pair 1 (0 ∷ []) pair-Holds

abbrev outcomes : List Allocation
outcomes = granted ∷ no_buffer ∷ no_data ∷ granted ∷ []

bqueue_destroy-Freed_example : Returns (Freed world (1 ∷ 0 ∷ [])) (bqueue_destroy 2 pair world)
bqueue_destroy-Freed_example =
    bqueue_destroy-Freed 2 world pair (1 ∷ 0 ∷ []) pair-Holds (omega arith)

bqueue_pop-Holds_example : Returns (Popped world 1 (0 ∷ [])) (bqueue_pop 2 granted [] pair world)
bqueue_pop-Holds_example =
    bqueue_pop-Holds 2 granted [] pair world 1 (0 ∷ []) pair-Holds (omega arith)

abbrev timeouts : List Wake
timeouts = record { timed_out = true; pushed = [] } ∷ record { timed_out = true; pushed = [] } ∷ []

bqueue_pop-nothing_example : bqueue_pop 2 granted timeouts empty world ≡ ok none
bqueue_pop-nothing_example =
    bqueue_pop-nothing 2 granted timeouts empty world (refl, refl, refl) (refl, (refl, tt))

bqueue_pop-single_example : bqueue_pop 0 granted [] single world ≡ fault null_pointer
bqueue_pop-single_example = bqueue_pop-single granted [] single world 2 single-Holds
