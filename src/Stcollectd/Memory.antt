-- ===== src/Stcollectd/Memory.antt =====
-- allocateMemory of src/stcollectd.c, and the buffers of the two threads from then on, on the heap.
pub mod Conserved
use sflow_toolkit.Base.{ℕ, ◌<◌, ◌≡◌, Option, none, some, List, []}
use sflow_toolkit.Base.Results.{Result, ok, ◌>>=◌}
use sflow_toolkit.Configparser.Settings.{StcollectdConfig}
use sflow_toolkit.Bufferqueue.{Queue, World, Allocation, bqueue_init}
use sflow_toolkit.Bufferqueue.Wait.{Wake}
use sflow_toolkit.Stcollectd.{Buffers, Collecting, pop_current, both, flush_lists, write_buffers}

-- What the allocations for one kind of samples do: those of the free queue, one for each of
-- `buffer_num`, and that of bqueue_pop; and who pushes while it waits.
pub record Granted : Type 0 where
  pub buffers : List Allocation
  pub pop : Allocation
  pub wakes : List Wake

abbrev pub empty_world : World
empty_world = record { buffers = λ p. none; top = 0 }

-- The queues of one kind; the current buffer is set when one was popped.
abbrev pub before_pop : Queue → Queue → World → Buffers
before_pop free flush w = record { free = free; flush = flush; current = 0; world = w }

-- `flow_size` and `cntr_size` are the sizes of the structures.
unfoldable pub allocate_memory :
    StcollectdConfig → ℕ → ℕ → Granted → Granted → Result (Option Collecting)
unfolding bqueue_init pop_current both
allocate_memory cfg flow_size cntr_size f c = do
  (free_flow, w₁) ← bqueue_init f.buffers cfg.buffer_size flow_size empty_world
  (free_cntr, v₁) ← bqueue_init c.buffers cfg.buffer_size cntr_size empty_world
  (flush_flow, w₂) ← bqueue_init [] cfg.buffer_size flow_size w₁
  (flush_cntr, v₂) ← bqueue_init [] cfg.buffer_size cntr_size v₁
  f' ← pop_current cfg.buffer_num f.pop f.wakes (before_pop free_flow flush_flow w₂)
  c' ← pop_current cfg.buffer_num c.pop c.wakes (before_pop free_cntr flush_cntr v₂)
  ok (both f' c')

-- The threads pass buffers on, in any order, while no queue that they take from is empty.
pub data Passes (cfg : StcollectdConfig) : Collecting → Collecting → Type 0 where
  flushes :
      (s s' : Collecting) (f c : Allocation × List Wake)
      → 0 < s.flow.free.num
      → 0 < s.cntr.free.num
      → flush_lists cfg.buffer_num f c s ≡ ok (some s')
      → Passes cfg s s'
  writes :
      (s s' : Collecting) (wakes₁ wakes₂ : List Wake) (n m : ℕ)
      → 0 < s.flow.flush.num
      → 0 < s.cntr.flush.num
      → write_buffers wakes₁ wakes₂ s ≡ ok (some (n, m, s'))
      → Passes cfg s s'

pub data PassesOn (cfg : StcollectdConfig) (s : Collecting) : Collecting → Type 0 where
  here : PassesOn cfg s s
  next : {t u : Collecting} → PassesOn cfg s t → Passes cfg t u → PassesOn cfg s u
