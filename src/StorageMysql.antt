-- ===== src/StorageMysql.antt =====
-- The tables of src/storage_mysql.c: one per day and kind of record, created when they are first
-- needed, and the table of the day that expires dropped. The database server is what it was sent, in
-- order, and a parameter that says from this which tables it has.
pub mod Conversations
pub mod Counters
pub mod Module
pub mod Schema
use Prim.Native.String.{String}
use sflow_toolkit.Base.{
  ℕ, zero, suc, ◌+◌, ◌-◌, ◌*◌, ◌/◌, ◌%◌, ◌^◌, Option, none, some, List, [], ◌∷◌, ◌++◌, ◌==◌, ltb,
  Bool, if◌then◌else◌, length,
}
use sflow_toolkit.Base.Results.{Result, ok, fault, overrun, division_by_zero, ◌>>=◌}
use sflow_toolkit.Bytes.{Bytes}
use sflow_toolkit.Util.{sprintf, codes}
use sflow_toolkit.Configparser.Settings.{MysqlConfig}

pub data TableKind : Type 0 where
  conv_ethernet conv_ip conv_tcp conv_udp counters : TableKind

-- A statement, and what stands in the temporary file of its kind of records when it is sent.
pub record Query : Type 0 where
  pub text : Bytes
  pub file : Bytes

-- `table_conv_ethernet` and `table_conv_ethernet_name`, or those of another kind.
pub record Table : Type 0 where
  pub number : ℕ
  pub name : Bytes

pub record Mysql : Type 0 where
  pub conv_ethernet : Table
  pub conv_ip : Table
  pub conv_tcp : Table
  pub conv_udp : Table
  pub counters : Table
  pub sent : List Query

abbrev pub table_of : TableKind → Mysql → Table
table_of TableKind.conv_ethernet s = s.conv_ethernet
table_of TableKind.conv_ip s = s.conv_ip
table_of TableKind.conv_tcp s = s.conv_tcp
table_of TableKind.conv_udp s = s.conv_udp
table_of TableKind.counters s = s.counters

abbrev pub set_table : TableKind → Table → Mysql → Mysql
set_table TableKind.conv_ethernet t s = record s { conv_ethernet = t }
set_table TableKind.conv_ip t s = record s { conv_ip = t }
set_table TableKind.conv_tcp t s = record s { conv_tcp = t }
set_table TableKind.conv_udp t s = record s { conv_udp = t }
set_table TableKind.counters t s = record s { counters = t }

abbrev pub prefix : TableKind → Bytes
prefix TableKind.conv_ethernet = codes "conv_ethernet_"
prefix TableKind.conv_ip = codes "conv_ip_"
prefix TableKind.conv_tcp = codes "conv_tcp_"
prefix TableKind.conv_udp = codes "conv_udp_"
prefix TableKind.counters = codes "counters_"

-- `char query[512]`, or the 1024 bytes that are allocated for it.
abbrev pub query_size : TableKind → ℕ
query_size TableKind.conv_ethernet = 512
query_size TableKind.conv_ip = 512
query_size TableKind.conv_tcp = 512
query_size TableKind.conv_udp = 512
query_size TableKind.counters = 1024

-- `" (…, CONSTRAINT "` and `" (…) ) ENGINE=myisam"` of the texts that create a table.
abbrev pub columns : TableKind → Bytes
columns TableKind.conv_ethernet =
    codes
      " (id INTEGER NOT NULL AUTO_INCREMENT, timestamp INTEGER UNSIGNED, agent VARCHAR(16), input_if INTEGER UNSIGNED, output_if INTEGER UNSIGNED, src VARCHAR(18), dst VARCHAR(18), bytes INTEGER UNSIGNED, frames INTEGER UNSIGNED, CONSTRAINT "
columns TableKind.conv_ip =
    codes
      " (id INTEGER NOT NULL AUTO_INCREMENT, timestamp INTEGER UNSIGNED, agent INTEGER UNSIGNED, input_if INTEGER UNSIGNED, output_if INTEGER UNSIGNED, src INTEGER UNSIGNED, dst INTEGER UNSIGNED, bytes INTEGER UNSIGNED, frames INTEGER UNSIGNED, CONSTRAINT "
columns TableKind.conv_tcp =
    codes
      " (id INTEGER NOT NULL AUTO_INCREMENT, timestamp INTEGER UNSIGNED, agent INTEGER UNSIGNED, input_if INTEGER UNSIGNED, output_if INTEGER UNSIGNED, src INTEGER UNSIGNED, sport INTEGER UNSIGNED, dst INTEGER UNSIGNED, dport INTEGER UNSIGNED, bytes INTEGER UNSIGNED, frames INTEGER UNSIGNED, CONSTRAINT "
columns TableKind.conv_udp =
    codes
      " (id INTEGER NOT NULL AUTO_INCREMENT, timestamp INTEGER UNSIGNED, agent INTEGER UNSIGNED, input_if INTEGER UNSIGNED, output_if INTEGER UNSIGNED, src INTEGER UNSIGNED, sport INTEGER UNSIGNED, dst INTEGER UNSIGNED, dport INTEGER UNSIGNED, bytes INTEGER UNSIGNED, frames INTEGER UNSIGNED, CONSTRAINT "
columns TableKind.counters =
    codes
      " (id INTEGER NOT NULL AUTO_INCREMENT, timestamp INTEGER UNSIGNED,agent INTEGER UNSIGNED,if_index INTEGER UNSIGNED, if_type INTEGER UNSIGNED,if_speed BIGINT UNSIGNED,if_direction INTEGER UNSIGNED,if_if_status INTEGER UNSIGNED,if_in_octets BIGINT UNSIGNED,if_in_ucast_pkts INTEGER UNSIGNED,if_in_mcast_pkts INTEGER UNSIGNED,if_in_bcast_pkts INTEGER UNSIGNED,if_in_discards INTEGER UNSIGNED,if_in_errors INTEGER UNSIGNED,if_in_unknown_proto INTEGER UNSIGNED,if_out_octets BIGINT UNSIGNED,if_out_ucast_pkts INTEGER UNSIGNED,if_out_mcast_pkts INTEGER UNSIGNED,if_out_bcast_pkts INTEGER UNSIGNED,if_out_discards INTEGER UNSIGNED,if_out_errors INTEGER UNSIGNED,if_promisc INTEGER UNSIGNED,CONSTRAINT "

abbrev pub index : TableKind → Bytes
index TableKind.conv_ethernet =
    codes " (timestamp, agent, input_if, output_if, src, dst, bytes) ) ENGINE=myisam"
index TableKind.conv_ip =
    codes " (timestamp, agent, input_if, output_if, src, dst, bytes) ) ENGINE=myisam"
index TableKind.conv_tcp =
    codes " (timestamp, agent, input_if, output_if, src, dst, bytes) ) ENGINE=myisam"
index TableKind.conv_udp =
    codes " (timestamp, agent, input_if, output_if, src, dst, bytes) ) ENGINE=myisam"
index TableKind.counters = codes " (timestamp, agent, if_index) ) ENGINE=myisam"

unfoldable pub create_text : TableKind → Bytes → Bytes
create_text kind title =
    codes "CREATE TABLE "
    ++ (title
        ++ (columns kind
            ++ (title ++ (codes "_pk PRIMARY KEY (id), INDEX idx_" ++ (title ++ index kind)))))

unfoldable pub drop_text : Bytes → Bytes
drop_text title = codes "DROP TABLE " ++ title

-- `mysql_query`, whose answer the code ignores or logs.
unfoldable pub mysql_query : Bytes → Bytes → Mysql → Mysql
mysql_query text file s = record s { sent = s.sent ++ (record { text = text; file = file } ∷ []) }

-- A division of numbers of 32 bits.
unfoldable pub divide : ℕ → ℕ → Result ℕ
divide n d = if d == 0 then fault division_by_zero else ok (n / d)

-- The bits of the `time_t` of a minute, and of the minute that is as old as the tables are kept.
unfoldable pub minute_time : ℕ → ℕ
minute_time timestamp = timestamp * 60 % 2 ^ 64

unfoldable pub expired_time : MysqlConfig → ℕ → ℕ
expired_time cfg timestamp =
    (timestamp + 2 ^ 64 - cfg.interval * cfg.num_intervals % 2 ^ 32) * 60 % 2 ^ 64

-- `day`: the text that `strftime` writes for `"%d%m%y"` and `gmtime` of a `time_t`.
-- `exists`: whether `mysql_list_tables` finds a table.
module _ (day : ℕ → Bytes) (exists : List Query → Bytes → Bool) (cfg : MysqlConfig) where
  unfoldable pub title : TableKind → ℕ → Bytes
  title kind time = prefix kind ++ day time

  -- `if ( mysql_num_rows(res) > 0 )`
  unfoldable pub create_missing : TableKind → Bytes → Mysql → Result Mysql
  unfolding create_text sprintf mysql_query
  create_missing kind name s =
      let created = (do
        text ← sprintf (query_size kind) (create_text kind name)
        ok (mysql_query text [] s)) in
      if exists s.sent name then ok s else created

  unfoldable pub drop_expired : TableKind → ℕ → Mysql → Result Mysql
  unfolding title expired_time drop_text sprintf mysql_query
  drop_expired kind timestamp s = do
    text ← sprintf (query_size kind) (drop_text (title kind (expired_time cfg timestamp)))
    ok (mysql_query text [] s)

  -- One of the five functions `storage_mysql_create_…`.
  unfoldable pub create_table : TableKind → ℕ → Mysql → Result Mysql
  unfolding title create_missing divide minute_time drop_expired
  create_table kind timestamp s = do
    s₁ ← create_missing kind (title kind (minute_time timestamp)) s
    number ← divide timestamp cfg.interval
    drop_expired kind timestamp
        (set_table kind (record { number = number; name = title kind (minute_time timestamp) }) s₁)

  -- The first lines of the five functions `storage_mysql_store_…`.
  unfoldable pub ensure_table : TableKind → ℕ → Mysql → Result Mysql
  unfolding create_table divide
  ensure_table kind timestamp s = do
    number ← divide timestamp cfg.interval
    (let created = create_table kind timestamp s in
        if ltb (table_of kind s).number number then created else ok s)

  unfoldable pub create_conv_ethernet : ℕ → Mysql → Result Mysql
  unfolding create_table
  create_conv_ethernet = create_table TableKind.conv_ethernet

  unfoldable pub create_conv_ip : ℕ → Mysql → Result Mysql
  unfolding create_table
  create_conv_ip = create_table TableKind.conv_ip

  unfoldable pub create_conv_tcp : ℕ → Mysql → Result Mysql
  unfolding create_table
  create_conv_tcp = create_table TableKind.conv_tcp

  unfoldable pub create_conv_udp : ℕ → Mysql → Result Mysql
  unfolding create_table
  create_conv_udp = create_table TableKind.conv_udp

  unfoldable pub create_counters : ℕ → Mysql → Result Mysql
  unfolding create_table
  create_counters = create_table TableKind.counters

  -- `storage_mysql_init` of a connected client, `now` being `time(NULL)` at each call.
  unfoldable pub init : ℕ → ℕ → ℕ → ℕ → Mysql → Result Mysql
  unfolding create_conv_ethernet create_conv_ip create_conv_tcp create_conv_udp
  init now₁ now₂ now₃ now₄ s = do
    s₁ ← create_conv_ethernet (now₁ / 60 % 2 ^ 32) s
    s₂ ← create_conv_ip (now₂ / 60 % 2 ^ 32) s₁
    s₃ ← create_conv_tcp (now₃ / 60 % 2 ^ 32) s₂
    create_conv_udp (now₄ / 60 % 2 ^ 32) s₃
