-- ===== src/Stcollectd/System.antt =====
-- The collector of src/stcollectd.c as a whole: the collecting thread, which runs the loop of
-- `collect`, and the writing thread, which runs writeBufferToDisk, with the buffers between them.
-- Each step is what one of them does up to a point where it may have to wait; the steps come in
-- any order.
-- That the queues hand buffers on oldest first is proved in Bufferqueue and Stcollectd.Rotation, so
-- they are lists here.
pub mod Delivered
pub mod Files
pub mod Pipeline
pub mod Reachable
use mathlib.Core.List.{map}
use sflow_toolkit.Base.{
  ℕ, suc, ◌+◌, ◌-◌, ◌<◌, ◌≤◌, Bool, true, false, Option, none, some, List, [], ◌∷◌, ◌++◌, ◌≡◌, ltb,
  if◌then◌else◌, length, take, drop, get_elem?,
}
use sflow_toolkit.Base.Results.{Result, ok, fault, overread, ◌>>=◌}
use sflow_toolkit.Bytes.{Bytes}
use sflow_toolkit.Configparser.Settings.{StcollectdConfig}
use sflow_toolkit.Parser.Samples.{FlowSample, CntrSample}
use sflow_toolkit.Parser.Collect.{Buffer, Collector}
use sflow_toolkit.Samplestore.{FileSystem, Stored, Store, add_samples}
use sflow_toolkit.Stcollectd.Collect.{Received, Fresh, CollectLoop, collect_one}
use sflow_toolkit.Stcollectd.Collect.Accounts.{IsFresh}

-- Where the collecting thread stands: in the loop, or in one of the two bqueue_pop of flushLists,
-- which found its queue empty or not, and which in the end yield the pair `fresh`.
pub data Stage : Type 0 where
  in_loop : Stage
  taking_flow : (found_empty : Bool) → (fresh : Fresh) → Stage
  taking_cntr : (found_empty : Bool) → (fresh : Fresh) → Stage

-- `loop.flushed` are the pairs of buffers that were ever handed over, in their order; the first
-- `written` of them were written, and the others are in the queues to be flushed. The free queues
-- have the oldest buffer first. The agents are shared by the threads. While buffers are taken, those
-- of `loop` are already the ones that will be: nothing reads them before.
pub record System : Type 0 where
  pub loop : CollectLoop
  pub stage : Stage
  pub written : ℕ
  pub free_flow : List (Buffer FlowSample)
  pub free_cntr : List (Buffer CntrSample)
  pub files : FileSystem
  pub queue : List Bytes

abbrev pub store : System → Store
store s = record { agents = s.loop.collector.agents; files = s.files; queue = s.queue }

-- The samples that the loop over `count` finds in a buffer.
unfoldable pub buffer_samples : {A : Type 0} → Buffer A → Result (List A)
buffer_samples b =
    if ltb (length b.items) b.count then fault overread else ok (take b.count b.items)

-- Samples with what `shm_open` returns while they are written.
abbrev pub offered : (ℕ → Option ℕ) → ℕ → List Stored → List (Option ℕ × Stored)
offered granted n [] = []
offered granted n (x ∷ xs) = (granted n, x) ∷ offered granted (suc n) xs

-- The two loops of writeBufferToDisk over the samples.
unfoldable pub write_out : (ℕ → Bytes) → (ℕ → Option ℕ) → Fresh → Store → Result Store
unfolding buffer_samples add_samples
write_out stamp granted b st = do
  fs ← buffer_samples b.flow
  st₁ ← add_samples stamp (offered granted 0 (map Stored.flow fs)) st
  cs ← buffer_samples b.cntr
  add_samples stamp (offered granted (length fs) (map Stored.cntr cs)) st₁

-- `buffer_cw_flow->count = 0`
abbrev pub emptied : {A : Type 0} → Buffer A → Buffer A
emptied b = record b { count = 0 }

abbrev pub is_empty : {A : Type 0} → List A → Bool
is_empty [] = true
is_empty (x ∷ xs) = false

-- A buffer without samples, of the configured size.
pub record IsBlank {A : Type 0} (size : ℕ) (b : Buffer A) : Type 0 where
  pub count : b.count ≡ 0
  pub slots : length b.items ≡ size

-- bqueue_pop on a free queue that has buffers, or has some again: the oldest is taken. Whether the
-- thread waited for it is the first index; with no buffer it goes on waiting.
pub data Taken {A : Type 0} (cfg : StcollectdConfig) (b : Buffer A)
    : Bool → List (Buffer A) → List (Buffer A) → Type 0 where
  popped :
      {waited : Bool} {free : List (Buffer A)}
      → length (b ∷ free) ≤ cfg.buffer_num
      → Taken cfg b waited (b ∷ free) free
  -- There are more than configured: the newest is freed.
  freed :
      {waited : Bool} (free : List (Buffer A)) (newest : Buffer A)
      → cfg.buffer_num < length (b ∷ (free ++ (newest ∷ [])))
      → Taken cfg b waited (b ∷ (free ++ (newest ∷ []))) free
  -- The last wait timed out: a buffer is allocated and pushed, or there is no memory for it.
  allocated :
      {free : List (Buffer A)} (new : Buffer A)
      → IsBlank cfg.buffer_size new
      → Taken cfg b true (b ∷ free) (free ++ (new ∷ []))
  no_memory : {free : List (Buffer A)} → Taken cfg b true (b ∷ free) free

-- `granted` and `stamp` are the system's answers, as for the sample files.
pub data Step (cfg : StcollectdConfig) (stamp : ℕ → Bytes) : System → System → Type 0 where
  -- A turn of the loop of `collect` without a flush, which does not use `fresh`.
  turn :
      (s : System) (r : Received) (fresh : Fresh) (loop : CollectLoop)
      → s.stage ≡ in_loop
      → IsFresh cfg.buffer_size fresh
      → collect_one cfg (r, fresh) s.loop ≡ ok loop
      → length loop.flushed ≡ length s.loop.flushed
      → Step cfg stamp s (record s { loop = loop })
  -- A turn with a flush, up to the first bqueue_pop.
  flushes :
      (s : System) (r : Received) (fresh : Fresh) (loop : CollectLoop)
      → s.stage ≡ in_loop
      → IsFresh cfg.buffer_size fresh
      → collect_one cfg (r, fresh) s.loop ≡ ok loop
      → length loop.flushed ≡ length s.loop.flushed + 1
      → Step cfg stamp s
          (record s { loop = loop; stage = taking_flow (is_empty s.free_flow) fresh })
  take_flow :
      (s : System) (waited : Bool) (fresh : Fresh) (free : List (Buffer FlowSample))
      → s.stage ≡ taking_flow waited fresh
      → Taken cfg fresh.flow waited s.free_flow free
      → Step cfg stamp s
          (record s { stage = taking_cntr (is_empty s.free_cntr) fresh; free_flow = free })
  take_cntr :
      (s : System) (waited : Bool) (fresh : Fresh) (free : List (Buffer CntrSample))
      → s.stage ≡ taking_cntr waited fresh
      → Taken cfg fresh.cntr waited s.free_cntr free
      → Step cfg stamp s (record s { stage = in_loop; free_cntr = free })
  -- A round of writeBufferToDisk.
  round :
      (s : System) (granted : ℕ → Option ℕ) (b : Fresh) (st : Store)
      → get_elem? s.loop.flushed s.written ≡ some b
      → write_out stamp granted b (store s) ≡ ok st
      → Step cfg stamp s (record s {
        loop = record s.loop { collector = record s.loop.collector { agents = st.agents } };
        written = s.written + 1;
        free_flow = s.free_flow ++ (emptied b.flow ∷ []);
        free_cntr = s.free_cntr ++ (emptied b.cntr ∷ []);
        files = st.files;
        queue = st.queue;
      })

pub data Reach (cfg : StcollectdConfig) (stamp : ℕ → Bytes) (s : System) : System → Type 0 where
  here : Reach cfg stamp s s
  next : {t u : System} → Reach cfg stamp s t → Step cfg stamp t u → Reach cfg stamp s u
