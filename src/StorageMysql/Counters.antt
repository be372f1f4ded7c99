-- ===== src/StorageMysql/Counters.antt =====
-- storage_mysql_store_cntr of src/storage_mysql.c: counter samples are inserted 500 at a time, by a
-- text that is put together in an array.
pub mod Batches
pub mod Rows
use Prim.Native.String.{String}
use sflow_toolkit.Base.{
  ℕ, zero, suc, ◌+◌, ◌*◌, ◌%◌, ◌^◌, List, [], ◌∷◌, ◌++◌, ◌==◌, Bool, if◌then◌else◌, length,
  replicate,
}
use sflow_toolkit.Base.Results.{Result, ok, fault, overrun, ◌>>=◌}
use sflow_toolkit.Bytes.{Bytes}
use sflow_toolkit.Util.{codes, print_decimal, print_u, print_llu}
use sflow_toolkit.Configparser.Settings.{MysqlConfig}
use sflow_toolkit.Parser.Samples.{CntrSample, GenericCounters}
use sflow_toolkit.Dataparser.Process.{CounterList}
use sflow_toolkit.StorageMysql.{TableKind, Query, Table, Mysql, table_of, mysql_query, ensure_table}
use sflow_toolkit.Util.{sprintf}

abbrev pub bulk_insert_num : ℕ
bulk_insert_num = 500

-- `BULK_INSERT_NUM * BULK_INSERT_SIZE_CNTR`
abbrev pub bulk_size : ℕ
bulk_size = 500 * 600

-- A line of the text behind the four tabs that are part of it.
abbrev pub tabbed : String → Bytes → Bytes
tabbed text rest = replicate 4 9 ++ (codes text ++ rest)

unfoldable pub insert_columns : Bytes
insert_columns = tabbed "timestamp,agent,if_index,if_type,if_speed,if_direction,if_if_status," (
    tabbed "if_in_octets,if_in_ucast_pkts,if_in_mcast_pkts,if_in_bcast_pkts," (
      tabbed "if_in_discards,if_in_errors,if_in_unknown_proto,if_out_octets," (
        tabbed "if_out_ucast_pkts,if_out_mcast_pkts,if_out_bcast_pkts,if_out_discards,"
          (tabbed "if_out_errors,if_promisc) VALUES" []))))

-- `stmt` with the name of the table, which ends with a space.
unfoldable pub insert_head : Bytes → Bytes
unfolding insert_columns
insert_head name = codes "INSERT INTO " ++ (name ++ (codes " (" ++ (insert_columns ++ (b' ' ∷ []))))

-- The numbers of a row.
unfoldable pub row_fields : CntrSample → List Bytes
unfolding print_u print_llu
row_fields s =
    let g = s.generic in
    print_u (s.timestamp % 2 ^ 32) []
    ∷ (39 ∷ print_u s.agent_address (39 ∷ []))
    ∷ print_u g.if_index []
    ∷ print_u g.if_type []
    ∷ print_llu g.if_speed []
    ∷ print_u g.if_direction []
    ∷ print_u g.if_status []
    ∷ print_llu g.in_octets []
    ∷ print_u g.in_ucast_pkts []
    ∷ print_u g.in_mcast_pkts []
    ∷ print_u g.in_bcast_pkts []
    ∷ print_u g.in_discards []
    ∷ print_u g.in_errors []
    ∷ print_u g.in_unknown_proto []
    ∷ print_llu g.out_octets []
    ∷ print_u g.out_ucast_pkts []
    ∷ print_u g.out_mcast_pkts []
    ∷ print_u g.out_bcast_pkts []
    ∷ print_u g.out_discards []
    ∷ print_u g.out_errors []
    ∷ print_u g.promisc []
    ∷ []

unfoldable pub with_commas : List Bytes → Bytes
with_commas [] = []
with_commas (field ∷ []) = field
with_commas (field ∷ next ∷ fields) = field ++ (b',' ∷ b' ' ∷ with_commas (next ∷ fields))

-- `"(%u, '%u', …, %u)"`, without the comma behind it.
unfoldable pub row_text : CntrSample → Bytes
unfolding row_fields with_commas
row_text s = b'(' ∷ (with_commas (row_fields s) ++ (b')' ∷ []))

-- `*(--ptr) = ' '`
unfoldable pub blank_last : Bytes → Result Bytes
blank_last [] = fault overrun
blank_last (c ∷ []) = ok (b' ' ∷ [])
blank_last (c ∷ d ∷ s) = do t ← blank_last (d ∷ s); ok (c ∷ t)

-- `query`, `cnt`, and the server.
pub record Insert : Type 0 where
  pub query : Bytes
  pub cnt : ℕ
  pub server : Mysql

unfoldable pub send_query : Bytes → Mysql → Result Mysql
unfolding blank_last mysql_query
send_query query s = do text ← blank_last query; ok (mysql_query text [] s)

unfoldable pub send_full : Bytes → ℕ → Bytes → Mysql → Result Insert
unfolding send_query insert_head sprintf
send_full name cnt query s = do
  s' ← send_query query s
  head ← sprintf bulk_size (insert_head name)
  ok (record { query = head; cnt = cnt; server = s' })

unfoldable pub insert_row : Bytes → CntrSample → Insert → Result Insert
unfolding sprintf row_text send_full
insert_row name sample i = do
  query ← sprintf bulk_size (i.query ++ (row_text sample ++ (b',' ∷ [])))
  (let cnt = (i.cnt + 1) % 2 ^ 32 in
      let full = send_full name cnt query i.server in
      if cnt % bulk_insert_num == 0
      then full
      else ok (record { query = query; cnt = cnt; server = i.server }))

-- `while(node != NULL)`
unfoldable pub insert_rows : Bytes → List CntrSample → Insert → Result Insert
unfolding insert_row
insert_rows name [] i = ok i
insert_rows name (sample ∷ samples) i = do
  i' ← insert_row name sample i
  insert_rows name samples i'

unfoldable pub insert_all : Bytes → List CntrSample → Mysql → Result Mysql
unfolding sprintf insert_head insert_rows send_query
insert_all name samples s = do
  head ← sprintf bulk_size (insert_head name)
  i ← insert_rows name samples (record { query = head; cnt = 0; server = s })
  send_query i.query i.server

module _ (day : ℕ → Bytes) (exists : List Query → Bytes → Bool) (cfg : MysqlConfig) where
  unfoldable pub store_cntr : CounterList → ℕ → Mysql → Result Mysql
  unfolding ensure_table insert_all
  store_cntr l timestamp s = do
    s' ← ensure_table day exists cfg TableKind.counters timestamp s
    insert_all (table_of TableKind.counters s').name l.nodes s'
