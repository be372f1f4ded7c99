-- ===== src/StorageMysql/Module.antt =====
-- storage_mod_mysql of src/storage_mysql.c, the functions that it hands to the storage system.
use sflow_toolkit.Base.{ℕ, some, Bool, List}
use sflow_toolkit.Base.Results.{ok}
use sflow_toolkit.Bytes.{Bytes}
use sflow_toolkit.Util.{codes}
use sflow_toolkit.Configparser.Settings.{MysqlConfig}
use sflow_toolkit.Storage.{StorageModule, ModuleList, storage_modules_register}
use sflow_toolkit.StorageMysql.{Query, Mysql, init}
use sflow_toolkit.StorageMysql.Conversations.{
  store_conv_ethernet, store_conv_ip, store_conv_tcp, store_conv_udp,
}
use sflow_toolkit.StorageMysql.Counters.{store_cntr}

module _ (day : ℕ → Bytes) (exists : List Query → Bytes → Bool) (cfg : MysqlConfig) where
  -- `storage_mysql_destroy` closes the connection. `now` is the time when the module starts.
  unfoldable pub storage_mod_mysql : ℕ → StorageModule Mysql
  storage_mod_mysql now = record {
    name = codes "mysql";
    init = some (init day exists cfg now now now now);
    destroy = some ok;
    store_cntr = some (store_cntr day exists cfg);
    store_conv_ethernet = some (store_conv_ethernet day exists cfg);
    store_conv_ip = some (store_conv_ip day exists cfg);
    store_conv_tcp = some (store_conv_tcp day exists cfg);
    store_conv_udp = some (store_conv_udp day exists cfg);
  }

  unfoldable pub storage_mysql_load : ℕ → ModuleList Mysql → ModuleList Mysql
  unfolding storage_mod_mysql storage_modules_register
  storage_mysql_load now l = storage_modules_register (storage_mod_mysql now) l
