-- ===== src/StorageCsv/Report.antt =====
-- storage_csv_store_cntr and storage_csv_load of src/storage_csv.c: a line for each counter sample,
-- with rates against the last counters of its interface. Doubles and the texts that `%f` and
-- `strftime` write are parameters; the outputs are a list of calls. The text of a line is taken to
-- fit into its 1024 bytes.
use sflow_toolkit.Base.{
  ℕ, ◌+◌, ◌-◌, ◌/◌, ◌*◌, ◌%◌, ◌^◌, List, [], ◌∷◌, ◌++◌, none, some, ◌==◌, ltb, leb, if◌then◌else◌,
}
use sflow_toolkit.Base.Results.{Result, ok, ◌>>=◌}
use sflow_toolkit.Base.Heap.{update, deref}
use sflow_toolkit.Bytes.{Bytes}
use sflow_toolkit.Util.{codes, num_to_ip, print_u}
use sflow_toolkit.Parser.Samples.{CntrSample}
use sflow_toolkit.Dataparser.Process.{CounterList}
use sflow_toolkit.Storage.{StorageModule, ModuleList, storage_modules_register}
use sflow_toolkit.StorageCsv.{CntrStatus, StatusHash, hash_init, hash_lookup}

-- What the code does with doubles: `from` makes one of an integer, `print` is `%f`.
pub record Doubles (D : Type 0) : Type 0 where
  pub from : ℕ → D
  pub times : D → D → D
  pub divide : D → D → D
  pub print : D → Bytes

-- The numbers that a node of the table keeps of a sample.
pub record Values : Type 0 where
  pub timestamp : ℕ
  pub octets_in : ℕ
  pub octets_out : ℕ
  pub linespeed : ℕ

abbrev pub values : CntrStatus → Values
values n = record {
  timestamp = n.timestamp;
  octets_in = n.octets_in;
  octets_out = n.octets_out;
  linespeed = n.linespeed;
}

unfoldable pub sampled : CntrSample → Values
sampled s = record {
  timestamp = s.timestamp % 2 ^ 32;
  octets_in = s.generic.in_octets;
  octets_out = s.generic.out_octets;
  linespeed = s.generic.if_speed;
}

unfoldable pub set_values : Values → CntrStatus → CntrStatus
set_values v n = record n {
  timestamp = v.timestamp;
  octets_in = v.octets_in;
  octets_out = v.octets_out;
  linespeed = v.linespeed;
}

-- `abs(s - c)`, of a difference that is converted to an `int`.
unfoldable pub d_time : ℕ → ℕ → ℕ
d_time s c = let d = (s + 2 ^ 64 - c) % 2 ^ 32 in if ltb d (2 ^ 31) then d else 2 ^ 32 - d

-- A difference of two counters of 64 bits.
abbrev pub d_octets : ℕ → ℕ → ℕ
d_octets new old = (new + 2 ^ 64 - old) % 2 ^ 64

-- `loadin`, `loadout`, `mbytesin`, `mbytesout`.
pub record Rates (D : Type 0) : Type 0 where
  pub loadin : D
  pub loadout : D
  pub mbytesin : D
  pub mbytesout : D

unfoldable pub comma_line : List Bytes → Bytes
comma_line [] = 10 ∷ []
comma_line (field ∷ []) = field ++ (10 ∷ [])
comma_line (field ∷ next ∷ fields) = field ++ (b',' ∷ comma_line (next ∷ fields))

module _ {D : Type 0} (o : Doubles D) where
  unfoldable pub mbytes : ℕ → ℕ → D
  mbytes octets time = o.divide (o.from octets) (o.times (o.from time) (o.from 1000000))

  unfoldable pub load : ℕ → ℕ → ℕ → D
  load octets time linespeed =
      o.times (o.divide (o.times (o.from octets) (o.from 1)) (o.from (time * linespeed % 2 ^ 64)))
        (o.from 100)

  -- `if(d_linespeed != 0)`
  unfoldable pub load_or_zero : ℕ → ℕ → ℕ → D
  unfolding load
  load_or_zero octets time linespeed =
      if linespeed == 0 then o.from 0 else load octets time linespeed

  unfoldable pub rates : Values → CntrSample → Rates D
  unfolding mbytes load_or_zero d_time
  rates c s =
      let time = d_time s.timestamp c.timestamp in
      let d_in = d_octets s.generic.in_octets c.octets_in in
      let d_out = d_octets s.generic.out_octets c.octets_out in
      if c.timestamp == 0
      then record {
        loadin = o.from 0;
        loadout = o.from 0;
        mbytesin = o.from 0;
        mbytesout = o.from 0;
      }
      else record {
        loadin = load_or_zero d_in time (c.linespeed / 8);
        loadout = load_or_zero d_out time (c.linespeed / 8);
        mbytesin = mbytes d_in time;
        mbytesout = mbytes d_out time;
      }

  -- The fields of a line.
  unfoldable pub line_fields : CntrSample → Rates D → List Bytes
  unfolding num_to_ip print_u
  line_fields s r =
      let g = s.generic in
      num_to_ip s.agent_address
      ∷ print_u g.if_index []
      ∷ print_u (s.timestamp % 2 ^ 32) []
      ∷ o.print r.loadin
      ∷ o.print r.loadout
      ∷ o.print r.mbytesin
      ∷ o.print r.mbytesout
      ∷ print_u g.in_errors []
      ∷ print_u g.out_errors []
      ∷ print_u g.in_discards []
      ∷ print_u g.out_discards []
      ∷ print_u ((g.in_ucast_pkts + g.in_mcast_pkts + g.in_bcast_pkts) % 2 ^ 32) []
      ∷ print_u ((g.out_ucast_pkts + g.out_mcast_pkts + g.out_bcast_pkts) % 2 ^ 32) []
      ∷ print_u g.in_ucast_pkts []
      ∷ print_u g.out_ucast_pkts []
      ∷ print_u g.in_mcast_pkts []
      ∷ print_u g.out_mcast_pkts []
      ∷ print_u g.in_bcast_pkts []
      ∷ print_u g.out_bcast_pkts []
      ∷ print_u (g.if_speed % 2 ^ 32 / 1000000) []
      ∷ print_u g.if_status []
      ∷ []

  -- The text of a sample, given the numbers that the table has of its interface.
  unfoldable pub csv_line : Values → CntrSample → Bytes
  unfolding rates line_fields comma_line
  csv_line c s = comma_line (line_fields s (rates c s))

  unfoldable pub report : CntrSample → StatusHash → Result (Bytes × StatusHash)
  unfolding hash_lookup csv_line set_values sampled
  report s h = do
    (p, h') ← hash_lookup s.agent_address s.generic.if_index h
    n ← deref h'.nodes p
    ok (
      csv_line (values n) s,
      record h' { nodes = update h'.nodes p (some (set_values (sampled s) n)) },
    )

  -- `while(node != NULL)`, with the lines that are written.
  unfoldable pub report_all : List CntrSample → StatusHash → Result (List Bytes × StatusHash)
  unfolding report
  report_all [] h = ok ([], h)
  report_all (s ∷ ss) h = do
    (line, h') ← report s h
    (lines, h'') ← report_all ss h'
    ok (line ∷ lines, h'')

-- A call of the system.
pub data CsvCall : Type 0 where
  shm_open : Bytes → CsvCall
  close : ℕ → CsvCall
  write : ℕ → Bytes → CsvCall

-- `storage_csv_fd`, `storage_csv_time`, `cntr_status_hash`, and the calls made.
pub record Csv : Type 0 where
  pub fd : ℕ
  pub time : ℕ
  pub hash : StatusHash
  pub calls : List CsvCall

abbrev pub writes : ℕ → List Bytes → List CsvCall
writes fd [] = []
writes fd (line ∷ lines) = write fd line ∷ writes fd lines

-- `stamp` is the text of `"SFlow%Y%m%d_%H_%M.log"`, `now` what `time(NULL)` returns in this call,
-- and `granted` what `shm_open` returns.
module _ (stamp : ℕ → Bytes) (now granted : ℕ) where
  unfoldable pub open_file : Csv → Csv
  open_file c = record c {
    fd = granted;
    time = now;
    calls = c.calls ++ (shm_open (stamp now) ∷ []);
  }

  -- `if (storage_csv_fd == 0)`
  unfoldable pub ensure_file : Csv → Csv
  unfolding open_file
  ensure_file c = if c.fd == 0 then open_file c else c

  -- `if( (time(NULL) - storage_csv_time) >= (60*5))`
  unfoldable pub renew_file : Csv → Csv
  unfolding open_file
  renew_file c =
      if leb 300 (now - c.time)
      then open_file (record c { calls = c.calls ++ (close c.fd ∷ []) })
      else c

  unfoldable pub storage_csv_store_cntr : {D : Type 0} → Doubles D → CounterList → Csv → Result Csv
  unfolding ensure_file renew_file report_all
  storage_csv_store_cntr o l c =
      let c' = renew_file (ensure_file c) in
      (do
        (lines, h) ← report_all o l.nodes c'.hash
        ok (record c' { hash = h; calls = c'.calls ++ writes c'.fd lines }))

  unfoldable pub storage_mod_csv : {D : Type 0} → Doubles D → StorageModule Csv
  unfolding storage_csv_store_cntr
  storage_mod_csv o = record {
    name = codes "csv";
    init = none;
    destroy = none;
    store_cntr = some (λ l timestamp. storage_csv_store_cntr o l);
    store_conv_ethernet = none;
    store_conv_ip = none;
    store_conv_tcp = none;
    store_conv_udp = none;
  }

  unfoldable pub storage_csv_load :
      {D : Type 0} → Doubles D → Csv × ModuleList Csv → Csv × ModuleList Csv
  unfolding hash_init storage_mod_csv storage_modules_register
  storage_csv_load o (c, l) =
      (record c { hash = hash_init }, storage_modules_register (storage_mod_csv o) l)
