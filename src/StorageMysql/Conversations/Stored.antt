-- ===== src/StorageMysql/Conversations/Stored.antt =====
-- A call of storage_mysql_store_conv_… of src/storage_mysql.c as a whole: the statements that are
-- sent, and what the server loads.
use sflow_toolkit.Base.{ℕ, ◌≡◌, Bool, List, [], ◌∷◌, ◌++◌}
use sflow_toolkit.Base.Results.{ok}
use sflow_toolkit.Bytes.{Bytes}
use sflow_toolkit.Configparser.Settings.{MysqlConfig}
use sflow_toolkit.StorageMysql.{TableKind, Query, Mysql, table_of, ensure_table}
use sflow_toolkit.StorageMysql.Schema.{IsMysql}
use sflow_toolkit.StorageMysql.Conversations.{load_text}
use sflow_toolkit.StorageMysql.Conversations.Loaded.{read_lines}

module _ (day : ℕ → Bytes) (exists : List Query → Bytes → Bool) (cfg : MysqlConfig) where
  -- What a call leaves: the table of the record's interval was made if it was not there, and
  -- expired ones were dropped; then one file was loaded into the current table.
  pub record Loads (kind : TableKind) (timestamp : ℕ) (dir : Bytes) (loaded : List (List Bytes))
      (s s' : Mysql) : Type 0 where
    pub before : Mysql
    pub file : Bytes
    pub ensured : ensure_table day exists cfg kind timestamp s ≡ ok before
    pub sent :
        s'.sent
        ≡ before.sent
          ++ (record { text = load_text kind dir (table_of kind before).name; file = file } ∷ [])
    pub rows_read : read_lines [] [] file ≡ loaded
    pub names : IsMysql s'
