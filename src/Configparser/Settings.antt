-- ===== src/Configparser/Settings.antt =====
-- The structures of src/configparser.h with their default values, and what one setting of each
-- section of the file does. Text fields are arrays of 16 or 256 bytes.
use sflow_toolkit.Base.{ℕ, ◌==◌, if◌then◌else◌, Bool, false}
use sflow_toolkit.Bytes.{Bytes}
use sflow_toolkit.Agentlist.{strncpy}
use sflow_toolkit.Util.{codes, same, atoi}

pub record StcollectdConfig : Type 0 where
  pub port : ℕ
  pub loglevel : ℕ
  pub hashbits : ℕ
  pub print_interval : ℕ
  pub flush_interval : ℕ
  pub stats_interval : ℕ
  pub buffer_size : ℕ
  pub buffer_num : ℕ
  pub interface : Bytes
  pub datadir : Bytes
  pub tmpdir : Bytes
  pub msgqueue : Bytes

pub record StprocessdConfig : Type 0 where
  pub loglevel : ℕ
  pub hashsize : ℕ
  pub stats_interval : ℕ
  pub datadir : Bytes

pub record MysqlConfig : Type 0 where
  pub enabled : Bool
  pub interval : ℕ
  pub num_intervals : ℕ
  pub username : Bytes
  pub password : Bytes
  pub database : Bytes
  pub hostname : Bytes
  pub tmpdir : Bytes

pub record SpectrumConfig : Type 0 where
  pub enabled : Bool
  pub interval : ℕ
  pub hashbits : ℕ
  pub datadir : Bytes

unfoldable pub stcollectd_config : StcollectdConfig
stcollectd_config = record {
  port = 6343;
  loglevel = 0;
  hashbits = 24;
  print_interval = 10000;
  flush_interval = 10;
  stats_interval = 30;
  buffer_size = 10000;
  buffer_num = 2;
  interface = strncpy 16 (codes "127.0.0.1");
  datadir = strncpy 256 (codes "data/");
  tmpdir = strncpy 256 (codes "tmp/");
  msgqueue = strncpy 256 (codes "/sflow");
}

unfoldable pub stprocessd_config : StprocessdConfig
stprocessd_config = record {
  loglevel = 0;
  hashsize = 10000;
  stats_interval = 30;
  datadir = strncpy 256 (codes "data/");
}

unfoldable pub storage_mysql_config : MysqlConfig
storage_mysql_config = record {
  enabled = false;
  interval = 1440;
  num_intervals = 7;
  username = strncpy 256 (codes "sflow");
  password = strncpy 256 (codes "sflow");
  database = strncpy 256 (codes "sflow");
  hostname = strncpy 256 (codes "localhost");
  tmpdir = strncpy 256 (codes "tmp/");
}

unfoldable pub storage_spectrum_config : SpectrumConfig
storage_spectrum_config = record {
  enabled = false;
  interval = 300;
  hashbits = 24;
  datadir = strncpy 256 (codes "data/");
}

unfoldable pub set_stcollectd : Bytes → Bytes → StcollectdConfig → StcollectdConfig
set_stcollectd key val c =
    if same key (codes "loglevel")
    then record c { loglevel = atoi val }
    else if same key (codes "port")
    then record c { port = atoi val }
    else if same key (codes "hash bits")
    then record c { hashbits = atoi val }
    else if same key (codes "print interval")
    then record c { print_interval = atoi val }
    else if same key (codes "flush interval")
    then record c { flush_interval = atoi val }
    else if same key (codes "buffer size")
    then record c { buffer_size = atoi val }
    else if same key (codes "buffer num")
    then record c { buffer_num = atoi val }
    else if same key (codes "stats interval")
    then record c { stats_interval = atoi val }
    else if same key (codes "interface")
    then record c { interface = strncpy 16 val }
    else if same key (codes "datadir")
    then record c { datadir = strncpy 256 val }
    else if same key (codes "tmpdir")
    then record c { tmpdir = strncpy 256 val }
    else if same key (codes "msgqueue")
    then record c { msgqueue = strncpy 256 val }
    else c

unfoldable pub set_spectrum : Bytes → Bytes → SpectrumConfig → SpectrumConfig
set_spectrum key val c =
    if same key (codes "enabled")
    then record c { enabled = atoi val == 1 }
    else if same key (codes "interval")
    then record c { interval = atoi val }
    else if same key (codes "hash bits")
    then record c { hashbits = atoi val }
    else if same key (codes "datadir")
    then record c { datadir = strncpy 256 val }
    else c

unfoldable pub set_mysql : Bytes → Bytes → MysqlConfig → MysqlConfig
set_mysql key val c =
    if same key (codes "enabled")
    then record c { enabled = atoi val == 1 }
    else if same key (codes "interval")
    then record c { interval = atoi val }
    else if same key (codes "number of intervals")
    then record c { num_intervals = atoi val }
    else if same key (codes "username")
    then record c { username = strncpy 256 val }
    else if same key (codes "password")
    then record c { password = strncpy 256 val }
    else if same key (codes "database")
    then record c { database = strncpy 256 val }
    else if same key (codes "hostname")
    then record c { hostname = strncpy 256 val }
    else if same key (codes "tmpdir")
    then record c { tmpdir = strncpy 256 val }
    else c

unfoldable pub set_stprocessd : Bytes → Bytes → StprocessdConfig → StprocessdConfig
set_stprocessd key val c =
    if same key (codes "loglevel")
    then record c { loglevel = atoi val }
    else if same key (codes "hash size")
    then record c { hashsize = atoi val }
    else if same key (codes "stats interval")
    then record c { stats_interval = atoi val }
    else if same key (codes "datadir")
    then record c { datadir = strncpy 256 val }
    else c
