-- ===== src/Stprocessd/Stored.antt =====
-- A file of flow samples on its way through process_file of src/stprocessd.c, the tables of
-- src/dataparser.c and the MySQL module of src/storage_mysql.c.
use sflow_toolkit.Base.{ℕ, List, Bool}
use sflow_toolkit.Bytes.{Bytes}
use sflow_toolkit.Configparser.Settings.{MysqlConfig}
use sflow_toolkit.Dataparser.Keys.{hash_range}
use sflow_toolkit.Dataparser.Process.{Tables}
use sflow_toolkit.Storage.{
  ModuleList, first, second, working_on, storage_system_init, storage_modules_register,
}
use sflow_toolkit.StorageMysql.{TableKind, Query, Mysql}
use sflow_toolkit.StorageMysql.Module.{storage_mod_mysql}
use sflow_toolkit.StorageCsv.Report.{Doubles, Csv, storage_mod_csv}
use sflow_toolkit.StorageMysql.Conversations.{fields_ethernet, fields_ip, fields_tcp, fields_udp}
use sflow_toolkit.StorageMysql.Conversations.Loaded.{conversations, rows}
use sflow_toolkit.StorageMysql.Conversations.Fields.{
  fields_ethernet-AreFields, fields_ip-AreFields, fields_tcp-AreFields, fields_udp-AreFields,
}
use sflow_toolkit.StorageMysql.Conversations.Stored.{Loads}

-- What main of src/stprocessd.c registers: storage_mysql_load, and then storage_csv_load. The MySQL
-- module works on the first part, the CSV module, with `stamp`, `csv_now` and `granted` as what the
-- system answers it, on the second, whose table storage_csv_load has emptied before.
unfoldable pub load_modules :
    (ℕ → Bytes)
    → (List Query → Bytes → Bool)
    → MysqlConfig
    → ℕ
    → {D : Type 0} → Doubles D
    → (ℕ → Bytes)
    → ℕ
    → ℕ
    → ModuleList (Mysql × Csv)
unfolding storage_modules_register storage_system_init storage_mod_mysql storage_mod_csv
load_modules day exists cfg now o stamp csv_now granted =
    storage_modules_register (working_on second (storage_mod_csv stamp csv_now granted o)) (
      storage_modules_register (working_on first (storage_mod_mysql day exists cfg now))
        storage_system_init)

module _ (day : ℕ → Bytes) (exists : List Query → Bytes → Bool) (cfg : MysqlConfig) where
  -- The rows of the four tables that are loaded one after the other.
  pub record LoadsTables (t : Tables) (dir : Bytes) (agent timestamp : ℕ) (s s' : Mysql)
      : Type 0 where
    after_ethernet : Mysql
    after_ip : Mysql
    after_tcp : Mysql
    ethernet :
        Loads day exists cfg TableKind.conv_ethernet timestamp dir
          (rows
            (fields_ethernet timestamp agent)
            (fields_ethernet-AreFields timestamp agent)
            (conversations hash_range 0 t.ethernet))
          s
          after_ethernet
    ip :
        Loads day exists cfg TableKind.conv_ip timestamp dir
          (rows
            (fields_ip timestamp agent)
            (fields_ip-AreFields timestamp agent)
            (conversations hash_range 0 t.ip))
          after_ethernet
          after_ip
    tcp :
        Loads day exists cfg TableKind.conv_tcp timestamp dir
          (rows
            (fields_tcp timestamp agent)
            (fields_tcp-AreFields timestamp agent)
            (conversations hash_range 0 t.tcp))
          after_ip
          after_tcp
    udp :
        Loads day exists cfg TableKind.conv_udp timestamp dir
          (rows
            (fields_udp timestamp agent)
            (fields_udp-AreFields timestamp agent)
            (conversations hash_range 0 t.udp))
          after_tcp
          s'

  module _ (now : ℕ) {D : Type 0} (o : Doubles D) (stamp : ℕ → Bytes) (csv_now granted : ℕ) where
    abbrev loaded : ModuleList (Mysql × Csv)
    loaded = load_modules day exists cfg now o stamp csv_now granted
