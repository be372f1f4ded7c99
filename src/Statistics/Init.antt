-- ===== src/Statistics/Init.antt =====
-- The databases of src/statistics.c: get_HZ, stats_init_stprocessd and stats_init_stcollectd, which
-- make them, and the realtime file of stats_update_stcollectd_realtime. `rrd_create` is a call with
-- a list of texts.
use sflow_toolkit.Base.{
  ℕ, ◌-◌, ◌%◌, ◌^◌, Option, none, some, List, [], ◌∷◌, ◌++◌, Bool, true, false, if◌then◌else◌,
}
use sflow_toolkit.Base.Results.{Result, ok, ◌>>=◌}
use sflow_toolkit.Bytes.{Bytes}
use sflow_toolkit.Util.{codes, c_string, sprintf, print_u, print_llu}
use sflow_toolkit.Statistics.{Statistics, Totals}

-- `sysconf(_SC_CLK_TCK)`, none where it returns -1.
unfoldable pub get_hz : Option ℕ → Statistics → Statistics
get_hz none g = record g { hz = 2 ^ 32 - 1 }
get_hz (some ticks) g = record g { hz = ticks % 2 ^ 32 }

abbrev pub averages : List Bytes
averages =
    codes "RRA:AVERAGE:0.5:1:720"
    ∷ codes "RRA:AVERAGE:0.5:6:720"
    ∷ codes "RRA:AVERAGE:0.5:120:720"
    ∷ codes "RRA:AVERAGE:0.5:840:720"
    ∷ codes "RRA:AVERAGE:0.5:3270:720"
    ∷ []

-- The arguments of `rrd_create`.
unfoldable pub createparams : Bytes → List Bytes → List Bytes
createparams file sources =
    codes "rrdcreate" ∷ file ∷ codes "-s" ∷ codes "5" ∷ (sources ++ averages)

abbrev pub stprocessd_sources : List Bytes
stprocessd_sources =
    codes "DS:cpu:GAUGE:600:0:100"
    ∷ codes "DS:mem:GAUGE:600:0:U"
    ∷ codes "DS:messages:GAUGE:600:0:U"
    ∷ []

abbrev pub stcollectd_sources : List Bytes
stcollectd_sources =
    codes "DS:datagrams:COUNTER:600:0:U"
    ∷ codes "DS:samples:COUNTER:600:0:U"
    ∷ codes "DS:samples_flow:COUNTER:600:0:U"
    ∷ codes "DS:samples_cntr:COUNTER:600:0:U"
    ∷ codes "DS:agents:GAUGE:600:0:U"
    ∷ codes "DS:cpu:GAUGE:600:0:100"
    ∷ codes "DS:mem:GAUGE:600:0:U"
    ∷ codes "DS:write:COUNTER:600:0:U"
    ∷ []

-- The calls of `rrd_create`: one, if the file cannot be opened.
abbrev pub create_database : (Bytes → Bool) → Bytes → List Bytes → List (List Bytes)
create_database exists file sources = if exists file then [] else createparams file sources ∷ []

-- `ticks` is what `sysconf` returns, `exists` says which files can be opened.
module _ (exists : Bytes → Bool) (ticks : Option ℕ) (datadir : Bytes) where
  unfoldable pub stats_init_stprocessd : Statistics → Result (List (List Bytes) × Statistics)
  unfolding get_hz createparams c_string sprintf
  stats_init_stprocessd g = do
    dir ← c_string datadir
    file ← sprintf 256 (dir ++ codes "/statistics_stprocessd.rrd")
    ok (
      create_database exists file stprocessd_sources,
      record (get_hz ticks g) { stprocessd_file = file },
    )

  unfoldable pub stats_init_stcollectd : Statistics → Result (List (List Bytes) × Statistics)
  unfolding get_hz createparams c_string sprintf
  stats_init_stcollectd g = do
    dir ← c_string datadir
    file ← sprintf 256 (dir ++ codes "/statistics_stcollectd.rrd")
    realtime ← sprintf 256 (dir ++ codes "/statistics_stcollectd_realtime")
    ok (
      create_database exists file stcollectd_sources,
      record (get_hz ticks g) { stcollectd_file = file; stcollectd_realtime_file = realtime },
    )

-- The file that is written and its text, if it can be opened.
unfoldable pub stats_update_stcollectd_realtime :
    Bool → ℕ → ℕ → Totals → Statistics → Option (Bytes × Bytes)
unfolding print_u print_llu
stats_update_stcollectd_realtime false time_start num_agents t g = none
stats_update_stcollectd_realtime true time_start num_agents t g = some (
  g.stcollectd_realtime_file,
  print_llu t.datagrams (
      b','
      ∷ print_llu t.samples_flow (
          b','
          ∷ print_llu t.samples_cntr (
              b','
              ∷ print_u time_start
                  (b',' ∷ print_llu t.bytes_written (b',' ∷ print_u num_agents []))))),
)
