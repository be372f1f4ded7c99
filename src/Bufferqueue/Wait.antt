-- ===== src/Bufferqueue/Wait.antt =====
-- The waiting operations of src/bufferqueue.c. While a thread waits it gives the lock up; a `Wake`
-- says what the other threads have pushed until the wait returned, and whether it had timed out.
use sflow_toolkit.Base.{
  ℕ, Option, none, some, List, [], ◌∷◌, ◌==◌, ltb, if◌then◌else◌, Bool, true, false,
}
use sflow_toolkit.Base.Results.{Result, ok, ◌>>=◌}
use sflow_toolkit.Bufferqueue.{
  Queue, World, bqueue_push, Allocation, Errno, success, enomem, bqueue_push_new, take_last,
  bqueue_free,
}

pub record Wake : Type 0 where
  pub timed_out : Bool
  pub pushed : List ℕ

unfoldable pub push_all : List ℕ → Queue → World → Result (Queue × World)
push_all [] q w = ok (q, w)
push_all (b ∷ bs) q w = do (q', w') ← bqueue_push q b w; push_all bs q' w'

-- `while(queue->num == 0) pthread_cond_timedwait(...)`. `timed` is whether the last wait timed out.
-- `none`: the wakes are used up and the thread still waits.
unfoldable pub await :
    List Wake → Bool → Queue → World → Result (Option (List Wake × Bool × Queue × World))
unfolding push_all
await [] timed q w = ok (if q.num == 0 then none else some ([], timed, q, w))
await (wake ∷ wakes) timed q w =
    if q.num == 0
    then (do (q', w') ← push_all wake.pushed q w; await wakes wake.timed_out q' w')
    else ok (some (wake ∷ wakes, timed, q, w))

-- `take_last` behind a wait.
unfoldable pub take_awaited :
    Option (List Wake × Bool × Queue × World) → Result (Option (ℕ × Queue × World))
unfolding take_last
take_awaited none = ok none
take_awaited (some (wakes, timed, q, w)) = do taken ← take_last q w; ok (some taken)

unfoldable pub bqueue_pop_wait : List Wake → Queue → World → Result (Option (ℕ × Queue × World))
unfolding await take_awaited
bqueue_pop_wait wakes q w = do awaited ← await wakes false q w; take_awaited awaited

-- The branch for a wait that timed out: where no buffer can be allocated the thread waits again.
unfoldable pub grow_or_wait :
    Errno → List Wake → Queue → World → Result (Option (List Wake × Bool × Queue × World))
unfolding await
grow_or_wait success wakes q w = ok (some (wakes, true, q, w))
grow_or_wait enomem wakes q w = await wakes true q w

-- `buffer_num` is that of the configuration.
unfoldable pub adjust :
    ℕ
    → Allocation
    → Option (List Wake × Bool × Queue × World)
    → Result (Option (List Wake × Bool × Queue × World))
unfolding bqueue_push_new bqueue_free grow_or_wait
adjust buffer_num outcome none = ok none
adjust buffer_num outcome (some (wakes, timed, q, w)) =
    if timed
    then (do (e, q', w') ← bqueue_push_new outcome q w; grow_or_wait e wakes q' w')
    else if ltb buffer_num q.num
    then (do (q', w') ← bqueue_free q w; ok (some (wakes, timed, q', w')))
    else ok (some (wakes, timed, q, w))

unfoldable pub bqueue_pop :
    ℕ → Allocation → List Wake → Queue → World → Result (Option (ℕ × Queue × World))
unfolding await adjust take_awaited
bqueue_pop buffer_num outcome wakes q w = do
  awaited ← await wakes false q w
  adjusted ← adjust buffer_num outcome awaited
  take_awaited adjusted
