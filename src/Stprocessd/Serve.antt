-- ===== src/Stprocessd/Serve.antt =====
-- The loop of main in src/stprocessd.c, from what the system says at each turn. The calls before it
-- make the statistics and the list of modules.
pub mod Sent
use sflow_toolkit.Base.{
  ℕ, ◌+◌, ◌-◌, ◌%◌, ◌^◌, ◌==◌, leb, Bool, if◌then◌else◌, none, some, List, [], ◌∷◌, ◌++◌, length,
}
use sflow_toolkit.Base.Results.{Result, ok, fault, division_by_zero, ◌>>=◌}
use sflow_toolkit.Bytes.{Bytes}
use sflow_toolkit.Messaging.{recv_msg}
use sflow_toolkit.Statistics.{Statistics, Update, stats_update_stprocessd}
use sflow_toolkit.Storage.{ModuleList}
use sflow_toolkit.Stprocessd.{Processing, process_file}

-- `time(NULL)` in main and in the update, and the text of /proc/self/stat.
pub record Turn : Type 0 where
  pub now : ℕ
  pub reported : ℕ
  pub stat : Bytes

pub record Daemon (W : Type 0) : Type 0 where
  pub processing : Processing W
  pub queue : List Bytes
  pub statistics : Statistics
  pub updates : List Update

-- `(now-start)%stats_interval == 0`, whatever the sign of the difference.
unfoldable pub due : ℕ → ℕ → ℕ → Result Bool
due interval start now =
    let distance = if leb start now then now - start else start - now in
    if interval == 0 then fault division_by_zero else ok (distance % interval == 0)

-- `now-start` as the update takes it.
unfoldable pub seconds : ℕ → ℕ → ℕ
seconds start now = (now + 2 ^ 64 - start) % 2 ^ 32

module _ {W : Type 0} (modules : ModuleList W) (interval start : ℕ) where
  unfoldable pub update_statistics : Turn → Daemon W → Result (Daemon W)
  unfolding due seconds stats_update_stprocessd
  update_statistics t d = do
    is_due ← due interval start t.now
    (if is_due
        then (do
          (us, g) ←
              stats_update_stprocessd (seconds start t.now) t.reported (length d.queue % 2 ^ 32)
                t.stat d.statistics
          ok (record d { statistics = g; updates = d.updates ++ us }))
        else ok d)

  -- Turns of the loop, up to the one that waits for a message.
  unfoldable pub serve : List Turn → Daemon W → Result (Daemon W)
  unfolding update_statistics recv_msg process_file
  serve [] d = ok d
  serve (t ∷ ts) d = do
    d' ← update_statistics t d
    elim (recv_msg d'.queue) [
      | none ↦ ok d'
      | some received ↦ (do
        (m, q) ← received
        p ← process_file modules m d'.processing
        serve ts (record d' { processing = p; queue = q }))
    ]
