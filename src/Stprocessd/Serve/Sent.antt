-- ===== src/Stprocessd/Serve/Sent.antt =====
-- Messages from the collector of src/stcollectd.c, received and processed by the loop of main in
-- src/stprocessd.c.
use sflow_toolkit.Base.{
  ℕ, ◌+◌, ◌-◌, ◌*◌, ◌%◌, ◌^◌, ◌≤◌, ◌<◌, ◌==◌, leb, ltb, ◌⊎◌, inl, inr, ◌/◌, ◌≡◌, refl, Bool, true,
  false, if◌then◌else◌, none, List, [], ◌∷◌, ◌++◌, length, All, arith,
}
use sflow_toolkit.Base.Results.{Result, ok, fault, and_then, ◌>>=◌}
use sflow_toolkit.Bytes.{Bytes}
use sflow_toolkit.Messaging.{Msg, recv_msg}
use sflow_toolkit.Messaging.Delivery.{Receives, waits, gets, IsSent, send_each, send_each-Receives}
use sflow_toolkit.Util.{print_u}
use sflow_toolkit.Statistics.{
  Statistics, Usage, Update, stat_text, tokens, read_words, read_stat, cpu, stats_update_stprocessd,
}
use sflow_toolkit.Statistics.Databases.{read_stat-field}
use sflow_toolkit.Storage.{ModuleList}
use sflow_toolkit.Stprocessd.{Processing, process_file}
use sflow_toolkit.Stprocessd.Serve.{Turn, Daemon, due, seconds, update_statistics, serve}

and_then-same :
    {A B B' C : Type 0} (r : Result A) (f : A → Result B) (g : A → Result B') (k : B → Result C)
    (h : B' → Result C)
    → ((a : A) → and_then (f a) k ≡ and_then (g a) h)
    → and_then (and_then r f) k ≡ and_then (and_then r g) h
and_then-same (fault e) f g k h same = refl
and_then-same (ok a) f g k h same = same a

-- The files, what the modules work on, and the queue, at the end.
abbrev pub loop_end : {W : Type 0} → Daemon W → Result (Processing W × List Bytes)
loop_end d = ok (d.processing, d.queue)

abbrev pub drained : {W : Type 0} → Processing W → Result (Processing W × List Bytes)
drained p = ok (p, [])

recv_msg-none : (q : List Bytes) → recv_msg q ≡ none → q ≡ []
unfolding recv_msg
recv_msg-none [] nothing = refl
recv_msg-none (text ∷ q) nothing = cc

module _ {W : Type 0} (modules : ModuleList W) where
  -- `process_file` on one message after the other.
  unfoldable pub process_each : List Msg → Processing W → Result (Processing W)
  process_each [] p = ok p
  process_each (m ∷ ms) p = do p' ← process_file modules m p; process_each ms p'

module _ {W : Type 0} (modules : ModuleList W) (interval start : ℕ) where
  -- The update of the statistics at this turn has no fault.
  pub record IsReadable (hz : ℕ) (t : Turn) : Type 0 where
    pub short : length t.stat < 1024
    pub ticks :
        ((seconds start t.now == 0) ≡ true) ⊎ ((hz * seconds start t.now % 2 ^ 32 == 0) ≡ false)

  abbrev Updated : ℕ → Daemon W → Result (Daemon W) → Type 0
  Updated hz d r =
      (us : List Update) × (g : Statistics) × (r ≡ ok (record d { statistics = g; updates = us }))
      × (g.hz ≡ hz)

  read_stat-ok :
      (file : Bytes) (g : Statistics)
      → length file < 1024
      → (u : Usage) × (g' : Statistics) × (read_stat file g ≡ ok (u, g')) × (g'.hz ≡ g.hz)
  unfolding read_stat stat_text
  read_stat-ok file g short =
      let fits : ltb (length file) 1024 ≡ true = ground arith in
      let r = read_words 1 (tokens [] file) (record { utime = 0; stime = 0; vmem = 0 }, g) in
      let u : Usage = record r.0 { vmem = r.0.vmem / 2 ^ 10 } in
      let read : read_stat file g ≡ ok (u, r.1) = rw fits refl in
      (u, r.1, read, read_stat-field (λ s. s.hz) (λ s x. refl) (λ s x. refl) file g r.1 u read)

  stats_update-ok :
      (t : Turn) (pending : ℕ) (g : Statistics)
      → IsReadable g.hz t
      → (us : List Update) × (g' : Statistics) × (stats_update_stprocessd
            (seconds start t.now)
            t.reported
            pending
            t.stat
            g
          ≡ ok (us, g'))
        × (g'.hz ≡ g.hz)
  unfolding stats_update_stprocessd cpu
  stats_update-ok t pending g is =
      let (u, g', read, hz) = read_stat-ok t.stat g is.short in
      go u g' read hz (seconds start t.now == 0) refl is.ticks
    where
      go :
          (u : Usage) (g' : Statistics)
          → read_stat t.stat g ≡ ok (u, g')
          → g'.hz ≡ g.hz
          → (b : Bool) → (seconds start t.now == 0) ≡ b
          → ((seconds start t.now == 0) ≡ true)
            ⊎ ((g.hz * seconds start t.now % 2 ^ 32 == 0) ≡ false)
          → (us : List Update) × (g' : Statistics) × (stats_update_stprocessd
                (seconds start t.now)
                t.reported
                pending
                t.stat
                g
              ≡ ok (us, g'))
            × (g'.hz ≡ g.hz)
      go u g' read hz true none_past ticks = ([], g', rw (read, and_then) (rw none_past refl), hz)
      go u g' read hz false past (inl first) = absurd cc
      go u g' read hz false past (inr ticks) =
          let load : ℕ =
            (u.stime + u.utime) % 2 ^ 32 * 100 % 2 ^ 32 / (g.hz * seconds start t.now % 2 ^ 32) in
          let update : Update = record {
            file = g'.stcollectd_file;
            values =
                print_u (t.reported % 2 ^ 32)
                  (b':' ∷ print_u load (b':' ∷ print_u u.vmem (b':' ∷ print_u pending [])));
          } in
          (update ∷ [], g', rw (read, and_then) (rw past (rw ticks refl)), hz)

  update_statistics-Updated :
      (t : Turn) (d : Daemon W)
      → 0 < interval
      → IsReadable d.statistics.hz t
      → Updated d.statistics.hz d (update_statistics modules interval start t d)
  unfolding update_statistics due
  update_statistics-Updated t d positive is =
      let known : (interval == 0) ≡ false = ground arith in
      go ((if leb start t.now then t.now - start else start - t.now) % interval == 0) known refl
    where
      go :
          (b : Bool)
          → (interval == 0) ≡ false
          → ((if leb start t.now then t.now - start else start - t.now) % interval == 0) ≡ b
          → Updated d.statistics.hz d (update_statistics modules interval start t d)
      go false known later = (d.updates, d.statistics, rw known (rw later refl), refl)
      go true known now =
          let (us, g, run, hz) = stats_update-ok t (length d.queue % 2 ^ 32) d.statistics is in
          (d.updates ++ us, g, rw known (rw now (rw (run, and_then) refl)), hz)

  serve-Receives :
      (ts : List Turn) (d : Daemon W) (ms : List Msg)
      → 0 < interval
      → All (IsReadable d.statistics.hz) ts
      → Receives d.queue ms
      → length ms < length ts
      → and_then (serve modules interval start ts d) loop_end
        ≡ and_then (process_each modules ms d.processing) drained
  unfolding serve process_each
  serve-Receives [] d ms positive all receives enough = absurd (omega arith)
  serve-Receives (t ∷ ts) d [] positive (is, all) (waits nothing) enough =
      let (us, g, run, hz) = update_statistics-Updated t d positive is in
      let empty : d.queue ≡ [] = recv_msg-none d.queue nothing in
      rw (run, and_then) (rw nothing (rw empty refl))
  serve-Receives (t ∷ ts) d (m ∷ ms) positive (is, all) (gets {q' = q'} received later) enough =
      let (us, g, run, hz) = update_statistics-Updated t d positive is in
      let d' : Daemon W = record d { statistics = g; updates = us } in
      rw (run, and_then)
        (rw received (
          and_then-same (process_file modules m d.processing)
            (λ p. serve modules interval start ts (record d' { processing = p; queue = q' }))
            (process_each modules ms) loop_end drained
            λ p.
              serve-Receives ts (record d' { processing = p; queue = q' }) ms positive (rw hz all)
                later (omega arith)))

  -- The messages that the collector sends to an empty queue, at most 8192, are received and processed
  -- in the order in which they were sent, each with its own file, agent and minute: the outcome for
  -- the files and the storage, faults included, is that of process_file on one message after the
  -- other, and the queue is empty again at the end. The updates of the statistics in between do not
  -- change this. The loop makes more turns than there are messages, the interval of the updates is
  -- not 0, and no text of /proc/self/stat has 1024 bytes or makes the update divide by 0.
  pub serve-Sent :
      (ts : List Turn) (ms : List Msg) (p : Processing W) (g : Statistics)
      → 0 < interval
      → All (IsReadable g.hz) ts
      → All IsSent ms
      → length ms ≤ 8192
      → length ms < length ts
      → (q : List Bytes) × (send_each ms [] ≡ ok q)
        × (and_then
              (serve modules interval start ts
                (record { processing = p; queue = q; statistics = g; updates = [] }))
              loop_end
            ≡ and_then (process_each modules ms p) drained)
  serve-Sent ts ms p g positive readable sent room enough =
      let (q, run, receives) = send_each-Receives ms sent room in
      (q, run, serve-Receives ts _ ms positive readable receives enough)
