-- ===== src/Statistics.antt =====
-- The statistics of src/statistics.c: the times and the memory of the process, read from the text of
-- /proc/self/stat, and the updates of the round robin databases. `rrd_update` is a call with the name
-- of a file and a text.
pub mod Databases
pub mod Fields
pub mod Init
use sflow_toolkit.Base.{
  ℕ, zero, suc, ◌+◌, ◌-◌, ◌*◌, ◌/◌, ◌%◌, ◌^◌, List, [], ◌∷◌, ◌++◌, ◌==◌, ltb, Bool, true, false,
  if◌then◌else◌, length,
}
use sflow_toolkit.Base.Results.{Result, ok, fault, overread, division_by_zero, ◌>>=◌}
use sflow_toolkit.Bytes.{Bytes}
use sflow_toolkit.Util.{atoi, c_string, print_u, print_llu}

-- `utime_prev`, `stime_prev`, `hz`, and the names of the databases.
pub record Statistics : Type 0 where
  pub utime_prev : ℕ
  pub stime_prev : ℕ
  pub hz : ℕ
  pub stcollectd_file : Bytes
  pub stprocessd_file : Bytes
  pub stcollectd_realtime_file : Bytes

-- `utime`, `stime` and `vmem`.
pub record Usage : Type 0 where
  pub utime : ℕ
  pub stime : ℕ
  pub vmem : ℕ

-- A word that ends, if anything was read of it.
unfoldable pub end_word : Bytes → List Bytes → List Bytes
end_word [] words = words
end_word (c ∷ word) words = (c ∷ word) ∷ words

-- The words that `strtok` finds between spaces, behind the part of a word that was read.
unfoldable pub tokens : Bytes → Bytes → List Bytes
unfolding end_word
tokens word [] = end_word word []
tokens word (c ∷ s) = elim (c == b' ') [
  | true ↦ end_word word (tokens [] s)
  | false ↦ tokens (word ++ (c ∷ [])) s
]

-- `switch(i)`, on the word `i`.
unfoldable pub read_word : ℕ → Bytes → Usage × Statistics → Usage × Statistics
unfolding atoi
read_word i word (u, g) =
    if i == 14
    then (
      record u { utime = (atoi word + 2 ^ 32 - g.utime_prev) % 2 ^ 32 },
      record g { utime_prev = atoi word },
    )
    else if i == 15
    then (
      record u { stime = (atoi word + 2 ^ 32 - g.stime_prev) % 2 ^ 32 },
      record g { stime_prev = atoi word },
    )
    else if i == 23
    then (record u { vmem = atoi word }, g)
    else (u, g)

-- `while( result != NULL )`
unfoldable pub read_words : ℕ → List Bytes → Usage × Statistics → Usage × Statistics
unfolding read_word
read_words i [] r = r
read_words i (word ∷ words) r = read_words (i + 1) words (read_word i word r)

-- The file in a zeroed array of 1024 bytes, as a text.
unfoldable pub stat_text : Bytes → Result Bytes
stat_text file = if ltb (length file) 1024 then ok file else fault overread

-- `vmem >>= 10` at the end.
unfoldable pub read_stat : Bytes → Statistics → Result (Usage × Statistics)
unfolding tokens read_words stat_text
read_stat file g = do
  text ← stat_text file
  (let r = read_words 1 (tokens [] text) (record { utime = 0; stime = 0; vmem = 0 }, g) in
      ok (record r.0 { vmem = r.0.vmem / 2 ^ 10 }, r.1))

-- `((stime+utime)*100)/(hz*seconds)`
unfoldable pub cpu : Usage → ℕ → ℕ → Result ℕ
cpu u hz seconds =
    let total = hz * seconds % 2 ^ 32 in
    if total == 0
    then fault division_by_zero
    else ok ((u.stime + u.utime) % 2 ^ 32 * 100 % 2 ^ 32 / total)

-- The call of `rrd_update`.
pub record Update : Type 0 where
  pub file : Bytes
  pub values : Bytes

-- `now` is `time(NULL)`, `pending` the number of messages in the queue.
unfoldable pub stats_update_stprocessd :
    ℕ → ℕ → ℕ → Bytes → Statistics → Result (List Update × Statistics)
unfolding read_stat cpu print_u
stats_update_stprocessd seconds now pending file g = do
  (u, g') ← read_stat file g
  (if seconds == 0 then ok ([], g') else (do
    load ← cpu u g.hz seconds
    ok (
      record {
        file = g'.stcollectd_file;
        values =
            print_u (now % 2 ^ 32)
              (b':' ∷ print_u load (b':' ∷ print_u u.vmem (b':' ∷ print_u pending [])));
      }
          ∷ [],
      g',
    )))

pub record Totals : Type 0 where
  pub datagrams : ℕ
  pub samples_flow : ℕ
  pub samples_cntr : ℕ
  pub bytes_written : ℕ

unfoldable pub stats_update_stcollectd :
    ℕ → ℕ → ℕ → Totals → Bytes → Statistics → Result (List Update × Statistics)
unfolding read_stat cpu print_u print_llu
stats_update_stcollectd seconds now num_agents t file g = do
  (u, g') ← read_stat file g
  (if seconds == 0 then ok ([], g') else (do
    load ← cpu u g.hz seconds
    ok (
      record {
        file = g'.stcollectd_file;
        values = print_u (now % 2 ^ 32) (
            b':'
            ∷ print_llu t.datagrams (
                b':'
                ∷ print_llu ((t.samples_flow + t.samples_cntr) % 2 ^ 64) (
                    b':'
                    ∷ print_llu t.samples_flow (
                        b':'
                        ∷ print_llu t.samples_cntr (
                            b':'
                            ∷ print_u num_agents (
                                b':'
                                ∷ print_u load (
                                    b':'
                                    ∷ print_u u.vmem (b':' ∷ print_llu t.bytes_written []))))))));
      }
          ∷ [],
      g',
    )))
