-- ===== src/StorageMysql/Conversations.antt =====
-- The four functions storage_mysql_store_conv_… of src/storage_mysql.c: each writes a line for every
-- conversation to a temporary file, and sends a statement that loads the file into the day's table.
-- The file is empty when it is opened, since every call unlinks it.
pub mod Fields
pub mod Loaded
pub mod Stored
use sflow_toolkit.Base.{
  ℕ, zero, suc, ◌+◌, ◌/◌, ◌%◌, Option, none, some, List, [], ◌∷◌, ◌++◌, ltb, Bool, if◌then◌else◌,
}
use sflow_toolkit.Base.Results.{Result, ok, ◌>>=◌}
use sflow_toolkit.Bytes.{Bytes}
use sflow_toolkit.Util.{codes, c_string, print_u}
use sflow_toolkit.Configparser.Settings.{MysqlConfig}
use sflow_toolkit.Dataparser.Keys.{KeyEthernet, KeyIp, KeyPorts}
use sflow_toolkit.Dataparser.Conversations.{ConvEthernet, ConvIp, ConvTcp, ConvUdp}
use sflow_toolkit.Dataparser.Table.{ConvList, ConvTable}
use sflow_toolkit.Dataparser.Process.{IpSlot}
use sflow_toolkit.StorageMysql.{TableKind, Query, Table, Mysql, table_of, mysql_query, ensure_table}
use sflow_toolkit.Util.{sprintf}

-- `%x` of a byte.
unfoldable pub hex_digit : ℕ → ℕ
hex_digit d = if ltb d 10 then b'0' + d else 87 + d

unfoldable pub print_hex : ℕ → Bytes → Bytes
unfolding hex_digit
print_hex b rest =
    if ltb b 16 then hex_digit b ∷ rest else hex_digit (b / 16 % 16) ∷ hex_digit (b % 16) ∷ rest

-- `ether_ntoa`: the bytes with colons between them.
unfoldable pub ether_ntoa : Bytes → Bytes
unfolding print_hex
ether_ntoa [] = []
ether_ntoa (b ∷ []) = print_hex b []
ether_ntoa (b ∷ b' ∷ bs) = print_hex b (b':' ∷ ether_ntoa (b' ∷ bs))

-- The numbers and texts of a line.
unfoldable pub fields_ethernet : ℕ → ℕ → KeyEthernet → ConvEthernet → List Bytes
unfolding print_u ether_ntoa
fields_ethernet timestamp agent k c =
    print_u timestamp []
    ∷ print_u agent []
    ∷ print_u k.input_if []
    ∷ print_u k.output_if []
    ∷ ether_ntoa k.src
    ∷ ether_ntoa k.dst
    ∷ print_u c.bytes []
    ∷ print_u c.frames []
    ∷ []

unfoldable pub fields_ip : ℕ → ℕ → IpSlot → ConvIp → List Bytes
unfolding print_u
fields_ip timestamp agent slot c =
    let k = slot.key in
    print_u timestamp []
    ∷ print_u agent []
    ∷ print_u k.input_if []
    ∷ print_u k.output_if []
    ∷ print_u k.src []
    ∷ print_u k.dst []
    ∷ print_u c.bytes []
    ∷ print_u c.frames []
    ∷ []

unfoldable pub fields_tcp : ℕ → ℕ → KeyPorts → ConvTcp → List Bytes
unfolding print_u
fields_tcp timestamp agent k c =
    print_u timestamp []
    ∷ print_u agent []
    ∷ print_u k.input_if []
    ∷ print_u k.output_if []
    ∷ print_u k.src []
    ∷ print_u k.src_port []
    ∷ print_u k.dst []
    ∷ print_u k.dst_port []
    ∷ print_u c.bytes []
    ∷ print_u c.frames []
    ∷ []

unfoldable pub fields_udp : ℕ → ℕ → KeyPorts → ConvUdp → List Bytes
unfolding print_u
fields_udp timestamp agent k c =
    print_u timestamp []
    ∷ print_u agent []
    ∷ print_u k.input_if []
    ∷ print_u k.output_if []
    ∷ print_u k.src []
    ∷ print_u k.src_port []
    ∷ print_u k.dst []
    ∷ print_u k.dst_port []
    ∷ print_u c.bytes []
    ∷ print_u c.frames []
    ∷ []

-- `"%…|%…|…\n"`
unfoldable pub line : List Bytes → Bytes
line [] = 10 ∷ []
line (field ∷ []) = field ++ (10 ∷ [])
line (field ∷ next ∷ fields) = field ++ (b'|' ∷ line (next ∷ fields))

module _ {K V : Type 0} (fields : K → V → List Bytes) where
  -- `while(n)`, on what the file holds.
  unfoldable pub write_nodes : List (K × V) → Bytes → Bytes
  unfolding line
  write_nodes [] file = file
  write_nodes ((k, c) ∷ ns) file = write_nodes ns (file ++ line (fields k c))

  unfoldable pub write_bucket : Option (ConvList K V) → Bytes → Bytes
  unfolding write_nodes
  write_bucket none file = file
  write_bucket (some l) file = write_nodes l.nodes file

  -- `for(i=0; i<num; i++)`, with the number of turns left, and `i`.
  unfoldable pub write_buckets : ℕ → ℕ → ConvTable K V → Bytes → Bytes
  unfolding write_bucket
  write_buckets zero i t file = file
  write_buckets (suc n) i t file = write_buckets n (suc i) t (write_bucket (t i) file)

abbrev pub file_name : TableKind → Bytes
file_name TableKind.conv_ethernet = codes "mysql_tmp_ethernet"
file_name TableKind.conv_ip = codes "mysql_tmp_ip"
file_name TableKind.conv_tcp = codes "mysql_tmp_tcp"
file_name TableKind.conv_udp = codes "mysql_tmp_udp"
file_name TableKind.counters = []

abbrev pub loaded_columns : TableKind → Bytes
loaded_columns TableKind.conv_ethernet =
    codes "n' (timestamp,agent,input_if,output_if,src,dst,bytes,frames)"
loaded_columns TableKind.conv_ip =
    codes "n' (timestamp,agent,input_if,output_if,src,dst,bytes,frames)"
loaded_columns TableKind.conv_tcp =
    codes "n' (timestamp,agent,input_if,output_if,src,sport,dst,dport,bytes,frames)"
loaded_columns TableKind.conv_udp =
    codes "n' (timestamp,agent,input_if,output_if,src,sport,dst,dport,bytes,frames)"
loaded_columns TableKind.counters = []

-- The line ends at `\n`, a backslash (92) and an n in the text.
unfoldable pub load_text : TableKind → Bytes → Bytes → Bytes
load_text kind tmpdir name =
    codes "LOAD DATA INFILE '"
    ++ (tmpdir
        ++ (b'/'
            ∷ (file_name kind
                ++ (codes "' INTO TABLE "
                    ++ (name
                        ++ (codes " FIELDS TERMINATED BY '|' LINES TERMINATED BY '"
                            ++ (92 ∷ loaded_columns kind)))))))

module _ (day : ℕ → Bytes) (exists : List Query → Bytes → Bool) (cfg : MysqlConfig) where
  -- The file is loaded, after the texts on keys were made that are no longer sent.
  unfoldable pub load_file : TableKind → Bytes → Mysql → Result Mysql
  unfolding c_string sprintf load_text mysql_query
  load_file kind file s = do
    tmpdir ← c_string cfg.tmpdir
    stmt ← sprintf 256 (load_text kind tmpdir (table_of kind s).name)
    _ ← sprintf 64 (codes "ALTER TABLE " ++ ((table_of kind s).name ++ codes " ENABLE KEYS"))
    _ ← sprintf 64 (codes "ALTER TABLE " ++ ((table_of kind s).name ++ codes " DISABLE KEYS"))
    ok (mysql_query stmt file s)

  unfoldable pub store_conv :
      {K V : Type 0}
      → TableKind
      → (K → V → List Bytes)
      → ConvTable K V
      → ℕ
      → ℕ
      → Mysql
      → Result Mysql
  unfolding ensure_table write_buckets load_file
  store_conv kind fields t num timestamp s = do
    s' ← ensure_table day exists cfg kind timestamp s
    load_file kind (write_buckets fields num 0 t []) s'

  unfoldable pub store_conv_ethernet :
      ConvTable KeyEthernet ConvEthernet → ℕ → ℕ → ℕ → Mysql → Result Mysql
  unfolding store_conv fields_ethernet
  store_conv_ethernet t num agent timestamp =
      store_conv TableKind.conv_ethernet (fields_ethernet timestamp agent) t num timestamp

  unfoldable pub store_conv_ip : ConvTable IpSlot ConvIp → ℕ → ℕ → ℕ → Mysql → Result Mysql
  unfolding store_conv fields_ip
  store_conv_ip t num agent timestamp =
      store_conv TableKind.conv_ip (fields_ip timestamp agent) t num timestamp

  unfoldable pub store_conv_tcp : ConvTable KeyPorts ConvTcp → ℕ → ℕ → ℕ → Mysql → Result Mysql
  unfolding store_conv fields_tcp
  store_conv_tcp t num agent timestamp =
      store_conv TableKind.conv_tcp (fields_tcp timestamp agent) t num timestamp

  unfoldable pub store_conv_udp : ConvTable KeyPorts ConvUdp → ℕ → ℕ → ℕ → Mysql → Result Mysql
  unfolding store_conv fields_udp
  store_conv_udp t num agent timestamp =
      store_conv TableKind.conv_udp (fields_udp timestamp agent) t num timestamp
