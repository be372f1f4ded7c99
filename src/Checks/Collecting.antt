-- ===== src/Checks/Collecting.antt =====
-- A collecting thread with buffers of twelve slots, which receives a datagram with three samples.
use mathlib.Core.Path.{subst}
use sflow_toolkit.Base.{sym, ◌∙◌, ◌≤◌, refl, [], ◌∷◌, replicate, arith}
use sflow_toolkit.Base.Results.{Result, ok, fault}
use sflow_toolkit.Configparser.Settings.{StcollectdConfig}
use sflow_toolkit.Parser.Readers.{Datagram}
use sflow_toolkit.Parser.Collect.{DatagramHeader, start_datagram}
use sflow_toolkit.Parser.Encode.Samples.{v4}
use sflow_toolkit.Parser.RoundTrip.Received.{parse_datagram_header-put, read_header}
use sflow_toolkit.Stcollectd.Collect.{Received, Fresh, CollectLoop, collect}
use sflow_toolkit.Stcollectd.Collect.Accounts.{IsFresh, IsSmall, Accounted, Safe, collect-Safe}
use sflow_toolkit.Checks.Datagrams.{blank_flow_sample, cntr_sample, received, sent, table}

abbrev pub cfg : StcollectdConfig
cfg = record {
  port = 6343;
  loglevel = 0;
  hashbits = 24;
  print_interval = 1000;
  flush_interval = 10;
  stats_interval = 60;
  buffer_size = 12;
  buffer_num = 5;
  interface = [];
  datadir = [];
  tmpdir = [];
  msgqueue = [];
}

abbrev pub fresh : Fresh
fresh = record {
  flow = record { count = 0; items = replicate 12 blank_flow_sample };
  cntr = record { count = 0; items = replicate 12 cntr_sample };
}

pub fresh-IsFresh : IsFresh 12 fresh
fresh-IsFresh = record { flow_count = refl; flow_size = refl; cntr_count = refl; cntr_size = refl }

abbrev pub start : CollectLoop
start = record {
  collector = record {
    flow = fresh.flow;
    cntr = fresh.cntr;
    total_samples_flow = 0;
    total_samples_cntr = 0;
    agents = table;
  };
  total_datagrams = 0;
  t = 0;
  flushed = [];
}

start-Accounted : Accounted 12 start
start-Accounted = record {
  flow_size = refl;
  cntr_size = refl;
  flow_room = omega arith;
  cntr_room = omega arith;
  flow_total = refl;
  cntr_total = refl;
}

abbrev pub arrived : Received
arrived = record { bytes = received; bytes_received = 400; s_addr = 0; time_current = 1; now = 1 }

abbrev FewRecords : Result (DatagramHeader × Datagram) → Type 0
FewRecords (ok (hdr, d)) = hdr.num_records ≤ 10
FewRecords (fault e) = Unit {0}

arrived-IsSmall : IsSmall arrived
unfolding start_datagram read_header
arrived-IsSmall hdr d e =
    subst FewRecords
      (sym (
          parse_datagram_header-put (start_datagram received 400 1) 5 (v4 167772161) 0 7 1000 sent
            (1 ∷ []) (omega arith, omega arith, omega arith, omega arith, omega arith, omega arith))
        ∙ e)
      (omega arith)

collect-Safe_example :
    Safe (Accounted 12) (collect cfg ((arrived, fresh) ∷ (arrived, fresh) ∷ []) start)
collect-Safe_example =
    collect-Safe cfg (omega arith) (omega arith) ((arrived, fresh) ∷ (arrived, fresh) ∷ []) start
      ((arrived-IsSmall, fresh-IsFresh), ((arrived-IsSmall, fresh-IsFresh), tt)) start-Accounted
