-- ===== src/Checks/Reports.antt =====
-- Two counter samples of one interface and one of another, reported to a new file.
use sflow_toolkit.Base.{ℕ, ◌*◌, ◌/◌, ◌≡◌, refl, List, [], ◌∷◌}
use sflow_toolkit.Base.Results.{Returns}
use sflow_toolkit.Bytes.{Bytes}
use sflow_toolkit.Util.{codes, print_u}
use sflow_toolkit.Parser.Samples.{CntrSample}
use sflow_toolkit.Dataparser.Process.{CounterList}
use sflow_toolkit.StorageCsv.{hash_init}
use sflow_toolkit.StorageCsv.Report.{Doubles, Csv, rates, sampled, storage_csv_store_cntr}
use sflow_toolkit.StorageCsv.Remembered.{nothing}
use sflow_toolkit.StorageCsv.Sequence.{Call, samples_of, store_each, Writes, store_each-Writes}
use sflow_toolkit.Checks.Datagrams.{cntr_sample}
use sflow_toolkit.StorageCsv.Rows.{hash_init-IsTable, Stores, storage_csv_store_cntr-Stores}

-- Whole numbers in place of doubles.
abbrev pub whole : Doubles ℕ
whole = record {
  from = λ n. n;
  times = λ a b. a * b;
  divide = λ a b. a / b;
  print = λ n. print_u n [];
}

abbrev stamp : ℕ → Bytes
stamp time = codes "SFlow20091126_17_00.log"

abbrev pub csv : Csv
csv = record { fd = 0; time = 0; hash = hash_init; calls = [] }

abbrev sample : ℕ → ℕ → ℕ → CntrSample
sample if_index timestamp octets = record cntr_sample {
  timestamp = timestamp;
  agent_address = 167772161;
  generic = record cntr_sample.generic {
    if_index = if_index;
    if_speed = 8000000000;
    in_octets = octets;
    out_octets = 0;
  };
}

abbrev list : CounterList
list = record { num = 3; nodes = sample 1 60 0 ∷ sample 2 90 5 ∷ sample 1 120 6000000000 ∷ [] }

storage_csv_store_cntr-Stores_example :
    Returns
      (Stores whole stamp 1259251200 3 list.nodes nothing csv)
      (storage_csv_store_cntr stamp 1259251200 3 whole list csv)
storage_csv_store_cntr-Stores_example =
    storage_csv_store_cntr-Stores whole stamp 1259251200 3 list nothing csv hash_init-IsTable

-- 6 GB in 60 seconds.
rates_test :
    rates whole (sampled (sample 1 60 0)) (sample 1 120 6000000000)
    ≡ record { loadin = 0; loadout = 0; mbytesin = 100; mbytesout = 0 }
unfolding rates sampled
rates_test = refl

-- Calls that are six minutes apart.
abbrev calls : List Call
calls =
    record { now = 1259251200; granted = 3; counters = list }
    ∷ record {
      now = 1259251560;
      granted = 4;
      counters = record { num = 1; nodes = sample 1 420 9000000000 ∷ [] };
    }
    ∷ []

store_each-Writes_example :
    Returns (Writes whole stamp (samples_of calls) nothing csv) (store_each whole stamp calls csv)
store_each-Writes_example = store_each-Writes whole stamp calls nothing csv hash_init-IsTable
