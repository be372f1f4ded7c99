-- ===== src/Stcollectd.antt =====
-- The buffers of src/stcollectd.c: flushLists of the collecting thread, and a round of
-- writeBufferToDisk of the writing thread. No queue ever holds buffers of both kinds, so each kind
-- has a heap of its own.
pub mod Collect
pub mod Memory
pub mod Rotation
pub mod System
pub mod Written
use sflow_toolkit.Base.{ℕ, Option, none, some, List, [], ◌∷◌, ltb, if◌then◌else◌}
use sflow_toolkit.Base.Results.{Result, ok, ◌>>=◌}
use sflow_toolkit.Base.Heap.{deref}
use sflow_toolkit.Bufferqueue.{Queue, World, Allocation, write, bqueue_push}
use sflow_toolkit.Bufferqueue.Wait.{Wake, bqueue_pop, bqueue_pop_wait}

-- The queues of one kind of samples, the buffer that is collected into, and the heap.
pub record Buffers : Type 0 where
  pub free : Queue
  pub flush : Queue
  pub current : ℕ
  pub world : World

pub record Collecting : Type 0 where
  pub flow : Buffers
  pub cntr : Buffers

-- `bqueue_push(buffers_flush_flow, buffer_cc_flow)`
unfoldable pub push_current : Buffers → Result Buffers
push_current r = do
  (q, w) ← bqueue_push r.flush r.current r.world
  ok (record r { flush = q; world = w })

unfoldable pub put_current : Option (ℕ × Queue × World) → Buffers → Option Buffers
put_current none r = none
put_current (some (b, q, w)) r = some (record r { free = q; current = b; world = w })

-- `buffer_cc_flow = bqueue_pop(buffers_free_flow)`
unfoldable pub pop_current : ℕ → Allocation → List Wake → Buffers → Result (Option Buffers)
unfolding put_current
pop_current buffer_num outcome wakes r = do
  popped ← bqueue_pop buffer_num outcome wakes r.free r.world
  ok (put_current popped r)

unfoldable pub both : Option Buffers → Option Buffers → Option Collecting
both (some f) (some c) = some (record { flow = f; cntr = c })
both (some f) none = none
both none c = none

-- `none`: the thread still waits for a free buffer.
unfoldable pub flush_lists :
    ℕ → Allocation × List Wake → Allocation × List Wake → Collecting → Result (Option Collecting)
unfolding push_current pop_current both
flush_lists buffer_num (o₁, wakes₁) (o₂, wakes₂) s = do
  f ← push_current s.flow
  c ← push_current s.cntr
  f' ← pop_current buffer_num o₁ wakes₁ f
  c' ← pop_current buffer_num o₂ wakes₂ c
  ok (both f' c')

unfoldable pub put_written : Option (ℕ × Queue × World) → Buffers → Option (ℕ × Buffers)
put_written none r = none
put_written (some (b, q, w)) r = some (b, record r { flush = q; world = w })

-- `buffer_cw_flow = bqueue_pop_wait(buffers_flush_flow)`
unfoldable pub pop_flush : List Wake → Buffers → Result (Option (ℕ × Buffers))
unfolding put_written
pop_flush wakes r = do popped ← bqueue_pop_wait wakes r.flush r.world; ok (put_written popped r)

-- `if(buffer->count > 0) { ...; buffer->count = 0; }`: the number of samples that go to the files.
unfoldable pub write_samples : ℕ → Buffers → Result (ℕ × Buffers)
unfolding write
write_samples p r = do
  b ← deref r.world.buffers p
  ok (
    b.count,
    if ltb 0 b.count then record r { world = write r.world p (record b { count = 0 }) } else r,
  )

-- `bqueue_push(buffers_free_flow, buffer_cw_flow)`
unfoldable pub push_free : ℕ → Buffers → Result Buffers
push_free b r = do (q, w) ← bqueue_push r.free b r.world; ok (record r { free = q; world = w })

-- What follows the two waits.
unfoldable pub write_popped :
    Option (ℕ × Buffers) → Option (ℕ × Buffers) → Result (Option (ℕ × ℕ × Collecting))
unfolding write_samples push_free
write_popped none c = ok none
write_popped (some f) none = ok none
write_popped (some (p, f)) (some (q, c)) = do
  (n, f₁) ← write_samples p f
  (m, c₁) ← write_samples q c
  f₂ ← push_free p f₁
  c₂ ← push_free q c₁
  ok (some (n, m, record { flow = f₂; cntr = c₂ }))

-- A round of writeBufferToDisk, with the numbers of samples that are written. `none`: the thread
-- still waits for a full buffer.
unfoldable pub write_buffers :
    List Wake → List Wake → Collecting → Result (Option (ℕ × ℕ × Collecting))
unfolding pop_flush write_popped
write_buffers wakes₁ wakes₂ s = do
  f ← pop_flush wakes₁ s.flow
  c ← pop_flush wakes₂ s.cntr
  write_popped f c
