-- ===== src/Bufferqueue.antt =====
-- The buffer queues of src/bufferqueue.c and src/bufferqueue.h: doubly linked lists of buffers with
-- a lock. Every function holds the lock from its first access to its last, but for the waits, so it
-- is one step on the queue; what other threads push during a wait is an argument.
pub mod Chain
pub mod Fifo
pub mod Init
pub mod Pop
pub mod Destroy
pub mod Wait
use sflow_toolkit.Base.{
  ℕ, zero, suc, ◌+◌, ◌-◌, ◌*◌, ◌%◌, ◌^◌, Option, none, some, List, [], ◌∷◌, ◌==◌, ltb,
  if◌then◌else◌, Bool, true, false,
}
use sflow_toolkit.Base.Results.{Result, ok, fault, null_pointer, out_of_fuel, ◌>>=◌}
use sflow_toolkit.Base.Heap.{update, deref, deref?}

-- `buffer_t`; of `data` only the number of bytes that were allocated.
pub record Buffer : Type 0 where
  pub index : ℕ
  pub next : Option ℕ
  pub prev : Option ℕ
  pub count : ℕ
  pub size : ℕ

pub record Queue : Type 0 where
  pub num : ℕ
  pub buffersize : ℕ
  pub itemsize : ℕ
  pub start : Option ℕ
  pub end : Option ℕ

-- The buffers, and the next address that `malloc` hands out.
pub record World : Type 0 where
  pub buffers : ℕ → Option Buffer
  pub top : ℕ

unfoldable pub write : World → ℕ → Buffer → World
write w p b = record w { buffers = update w.buffers p (some b) }

unfoldable pub set_next : ℕ → Option ℕ → World → Result World
unfolding write
set_next p q w = do b ← deref w.buffers p; ok (write w p (record b { next = q }))

unfoldable pub set_prev : ℕ → Option ℕ → World → Result World
unfolding write
set_prev p q w = do b ← deref w.buffers p; ok (write w p (record b { prev = q }))

-- A pointer that the code dereferences.
unfoldable pub non_null : Option ℕ → Result ℕ
non_null none = fault null_pointer
non_null (some p) = ok p

unfoldable pub inc32 : ℕ → ℕ
inc32 n = (n + 1) % 2 ^ 32

unfoldable pub dec32 : ℕ → ℕ
dec32 n = (n + 2 ^ 32 - 1) % 2 ^ 32

-- `queue->start->prev = b; b->next = queue->start; b->prev = 0`
unfoldable pub link_front : Queue → ℕ → World → Result World
unfolding non_null set_next set_prev
link_front q b w = do
  s ← non_null q.start
  w₁ ← set_prev s (some b) w
  w₂ ← set_next b (some s) w₁
  set_prev b none w₂

unfoldable pub bqueue_push : Queue → ℕ → World → Result (Queue × World)
unfolding link_front inc32
bqueue_push q b w =
    if q.num == 0
    then ok (record q { start = some b; end = some b; num = inc32 q.num }, w)
    else (do w' ← link_front q b w; ok (record q { start = some b; num = inc32 q.num }, w'))

-- What the two `malloc` calls of `bqueue_push_new` do.
pub data Allocation : Type 0 where
  granted no_buffer no_data : Allocation

-- The return value is 0 or `ENOMEM`. Where only the second call fails the first buffer stays
-- allocated.
pub data Errno : Type 0 where
  success enomem : Errno

unfoldable pub new_buffer : Queue → World → World
unfolding write
new_buffer q w =
    write (record w { top = w.top + 1 }) w.top
      (record {
        index = 0;
        next = none;
        prev = none;
        count = 0;
        size = q.itemsize * q.buffersize % 2 ^ 32;
      })

unfoldable pub bqueue_push_new : Allocation → Queue → World → Result (Errno × Queue × World)
unfolding bqueue_push new_buffer
bqueue_push_new no_buffer q w = ok (enomem, q, w)
bqueue_push_new no_data q w = ok (enomem, q, new_buffer q w)
bqueue_push_new granted q w = do
  (q', w') ← bqueue_push q w.top (new_buffer q w)
  ok (success, q', w')

-- `for( i=0; i<num; i++) bqueue_push_new(b)`, with an outcome for each round.
unfoldable pub push_each_new : List Allocation → Queue → World → Result (Queue × World)
unfolding bqueue_push_new
push_each_new [] q w = ok (q, w)
push_each_new (a ∷ outcomes) q w = do
  (_, q', w') ← bqueue_push_new a q w
  push_each_new outcomes q' w'

unfoldable pub bqueue_init : List Allocation → ℕ → ℕ → World → Result (Queue × World)
unfolding push_each_new
bqueue_init outcomes buffersize itemsize w =
    push_each_new outcomes
      (record { num = 0; buffersize = buffersize; itemsize = itemsize; start = none; end = none }) w

-- The last part of `bqueue_pop` and of `bqueue_pop_wait`: the buffer at the end is taken out.
unfoldable pub take_last : Queue → World → Result (ℕ × Queue × World)
unfolding non_null set_next dec32
take_last q w =
    if q.num == 1
    then (do
      b ← non_null q.start
      ok (b, record q { start = none; end = none; num = dec32 q.num }, w))
    else (do
      b ← non_null q.end
      last ← deref w.buffers b
      m ← non_null last.prev
      w' ← set_next m none w
      ok (b, record q { end = last.prev; num = dec32 q.num }, w'))

-- `queue->start = b->next; queue->start->prev = NULL; free(b)`. `queue->end` is left alone.
unfoldable pub bqueue_free : Queue → World → Result (Queue × World)
unfolding non_null set_prev dec32
bqueue_free q w = if q.num == 0 then ok (q, w) else (do
  b ← non_null q.start
  first ← deref w.buffers b
  s ← non_null first.next
  w' ← set_prev s none w
  ok (
    record q { start = first.next; num = dec32 q.num },
    record w' { buffers = update w'.buffers b none },
  ))
