-- ===== src/Checks/Databases.antt =====
-- A server without tables, conversations for it, and a file of flow samples.
use sflow_toolkit.Base.{
  ℕ, zero, suc, ◌≡◌, refl, Bool, false, Option, none, some, List, [], ◌∷◌, ◌++◌, arith, inl, inr,
}
use sflow_toolkit.Base.Results.{ok, and_then}
use sflow_toolkit.Bytes.{Bytes}
use sflow_toolkit.Util.{codes}
use sflow_toolkit.Agentlist.{strncpy}
use sflow_toolkit.Configparser.Settings.{MysqlConfig}
use sflow_toolkit.Parser.Samples.{CntrSample}
use sflow_toolkit.Dataparser.Conversations.{conv_ethernet_zero, conv_ip_zero, conv_tcp_zero}
use sflow_toolkit.Dataparser.Process.{Tables, CounterList}
use sflow_toolkit.Messaging.{Msg}
use sflow_toolkit.Messaging.Delivery.{IsSent, send_each}
use sflow_toolkit.Statistics.{Statistics}
use sflow_toolkit.Stprocessd.Serve.{Turn, seconds, serve}
use sflow_toolkit.Stprocessd.Serve.Sent.{process_each, loop_end, drained, serve-Sent}
use sflow_toolkit.StorageMysql.{TableKind, Query, Table, Mysql, table_of, ensure_table}
use sflow_toolkit.StorageMysql.Schema.{IsMysql, IsDay}
use sflow_toolkit.StorageMysql.Counters.{store_cntr}
use sflow_toolkit.StorageMysql.Counters.Batches.{IsBatched, insert_queries, store_cntr-Batched}
use sflow_toolkit.Storage.{ModuleList}
use sflow_toolkit.StorageCsv.Report.{Csv}
use sflow_toolkit.Checks.Reports.{whole, csv}
use sflow_toolkit.Stprocessd.{Processing}
use sflow_toolkit.Stprocessd.Stored.{load_modules}
use sflow_toolkit.Checks.Datagrams.{cntr_sample}
use sflow_toolkit.Checks.Files.{file}

abbrev day : ℕ → Bytes
day time = codes "261109"

day-IsDay : IsDay day
unfolding IsDay
day-IsDay time = refl

abbrev exists : List Query → Bytes → Bool
exists sent name = false

abbrev cfg : MysqlConfig
cfg = record {
  enabled = false;
  interval = 1440;
  num_intervals = 7;
  username = codes "sflow";
  password = codes "sflow";
  database = codes "sflow";
  hostname = codes "localhost";
  tmpdir = strncpy 256 (codes "/dev/shm");
}

abbrev no_table : Table
no_table = record { number = 0; name = [] }

abbrev server : Mysql
server = record {
  conv_ethernet = no_table;
  conv_ip = no_table;
  conv_tcp = no_table;
  conv_udp = no_table;
  counters = no_table;
  sent = [];
}

server-IsMysql : IsMysql server
unfolding IsMysql
server-IsMysql TableKind.conv_ethernet = omega arith
server-IsMysql TableKind.conv_ip = omega arith
server-IsMysql TableKind.conv_tcp = omega arith
server-IsMysql TableKind.conv_udp = omega arith
server-IsMysql TableKind.counters = omega arith

-- One conversation in the second bucket of each table.
abbrev bucket : {A : Type 0} → A → ℕ → Option A
bucket a zero = none
bucket a (suc zero) = some a
bucket a (suc (suc i)) = none

abbrev tables : Tables
tables = record {
  ethernet = bucket (record {
    num = 1;
    nodes =
        (
          record { input_if = 1; output_if = 2; src = 1 ∷ 16 ∷ []; dst = 255 ∷ 0 ∷ [] },
          conv_ethernet_zero,
        )
        ∷ [];
  });
  ip = bucket (record {
    num = 1;
    nodes =
        (
          record { key = record { input_if = 1; output_if = 2; src = 10; dst = 11 }; behind = 0 },
          conv_ip_zero,
        )
        ∷ [];
  });
  tcp = bucket (record {
    num = 1;
    nodes =
        (
          record {
            input_if = 1;
            output_if = 2;
            src = 10;
            dst = 11;
            src_port = 1234;
            dst_port = 80;
          },
          conv_tcp_zero,
        )
        ∷ [];
  });
  udp = λ i. none;
}

abbrev dir : Bytes
dir = codes "/dev/shm"

abbrev counter_list : CounterList
counter_list = record { num = 2; nodes = cntr_sample ∷ cntr_sample ∷ [] }

store_cntr-Batched_example :
    (before : Mysql) × (s' : Mysql) × (bs : List (List CntrSample)) × (ensure_table day exists cfg
        TableKind.counters 20987000 server
      ≡ ok before)
    × IsBatched bs counter_list.nodes
    × (store_cntr day exists cfg counter_list 20987000 server ≡ ok s')
    × (s'.sent ≡ before.sent ++ insert_queries (table_of TableKind.counters before).name bs)
store_cntr-Batched_example =
    store_cntr-Batched day exists cfg day-IsDay (omega arith) counter_list 20987000 server
      server-IsMysql (omega arith)

abbrev name : Bytes
name = codes "20091126_1700_1_flow"

abbrev message : Msg
message = record { agent = 1; timestamp = 20987000; type = 0; filename = strncpy 256 name }

abbrev modules : ModuleList (Mysql × Csv)
modules = load_modules day exists cfg 0 whole day 0 3

abbrev processing : Processing (Mysql × Csv)
processing = record {
  files = record { flow = λ n. some file; cntr = λ n. none };
  world = (server, csv);
}

message-IsSent : IsSent message
message-IsSent = (
  name,
  record {
    agent = omega arith;
    timestamp = omega arith;
    type = omega arith;
    filename = refl;
    bytes = omega arith;
    nonempty = omega arith;
    short = omega arith;
  },
)

abbrev statistics : Statistics
statistics = record {
  utime_prev = 0;
  stime_prev = 0;
  hz = 100;
  stcollectd_file = [];
  stprocessd_file = [];
  stcollectd_realtime_file = [];
}

abbrev turn : ℕ → Turn
turn now = record { now = now; reported = now; stat = codes "1 (stprocessd) S 0" }

serve-Sent_example :
    (q : List Bytes) × (send_each (message ∷ message ∷ []) [] ≡ ok q)
    × (and_then
          (serve modules 30 1000
            (turn 1000 ∷ turn 1030 ∷ turn 1031 ∷ [])
            (record { processing = processing; queue = q; statistics = statistics; updates = [] }))
          loop_end
        ≡ and_then (process_each modules (message ∷ message ∷ []) processing) drained)
unfolding seconds
serve-Sent_example =
    serve-Sent modules 30 1000 (turn 1000 ∷ turn 1030 ∷ turn 1031 ∷ []) (message ∷ message ∷ [])
      processing statistics (omega arith)
      (
        record { short = omega arith; ticks = inl refl },
        (
          record { short = omega arith; ticks = inr refl },
          (record { short = omega arith; ticks = inr refl }, tt),
        ),
      )
      (message-IsSent, (message-IsSent, tt)) (omega arith) (omega arith)
