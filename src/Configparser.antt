-- ===== src/Configparser.antt =====
-- The configuration file's reader, src/configparser.c: parse_event is called for each event of the
-- YAML parser, a library, whose events are the input here. A scalar is its text, in which the code
-- relies on there being no NUL byte. The reader's globals are a record.
pub mod Settings
pub mod Values
pub mod Sections
pub mod Lists
use sflow_toolkit.Base.{
  ℕ, ◌-◌, Option, none, some, List, [], ◌∷◌, ltb, ◌&&◌, if◌then◌else◌, Bool, true, false, length,
  drop,
}
use sflow_toolkit.Base.Results.{Result, ok, fault, overread, overrun, ◌>>=◌}
use sflow_toolkit.Bytes.{Bytes}
use sflow_toolkit.Util.{codes, same, ip_to_num}
use sflow_toolkit.Agentlist.{AgentList, agentlist_add_agent, agentlist_add_address}
use sflow_toolkit.Configparser.Settings.{
  StcollectdConfig, StprocessdConfig, MysqlConfig, SpectrumConfig, stcollectd_config,
  stprocessd_config, storage_mysql_config, storage_spectrum_config, set_stcollectd, set_stprocessd,
  set_mysql, set_spectrum,
}

pub data Event : Type 0 where
  scalar : Bytes → Event
  sequence_start sequence_end stream_end other : Event

pub record Reader : Type 0 where
  pub key : Bytes
  pub in_stcollectd : Bool
  pub in_stprocessd : Bool
  pub in_storage_spectrum : Bool
  pub in_storage_mysql : Bool
  pub in_agent_list : Bool
  pub in_agent : Bool
  pub is_value : Bool
  pub is_list : Bool
  pub agent : Option ℕ
  pub stcollectd : StcollectdConfig
  pub stprocessd : StprocessdConfig
  pub mysql : MysqlConfig
  pub spectrum : SpectrumConfig
  pub agents : AgentList

-- `strcmp(pname+(strlen(pname)-strlen("stprocessd")),"stprocessd") != 0`: a shorter name is read in
-- front of its first byte.
unfoldable pub is_other_program : Bytes → Result Bool
is_other_program pname =
    if ltb (length pname) 10
    then fault overread
    else ok (if same (drop (length pname - 10) pname) (codes "stprocessd") then false else true)

-- `is_list && ...`: the name is looked at inside of lists only.
unfoldable pub reads_agents : Bytes → Reader → Result Bool
unfolding is_other_program
reads_agents pname s = if s.is_list then is_other_program pname else ok false

-- `strncpy(key, value, length); key[length] = '\0'` into 256 bytes.
unfoldable pub copy_key : Bytes → Result Bytes
copy_key val = if ltb (length val) 256 then ok val else fault overrun

-- `if(agent == NULL) agent = agentlist_add_agent(key, ip_to_num(val))`
unfoldable pub primary_agent : Bytes → Reader → Result (ℕ × Reader)
primary_agent val s = elim s.agent [
  | some a ↦ ok (a, s)
  | none ↦ do
    ip ← ip_to_num val
    (let (a, l) = agentlist_add_agent s.key ip s.agents in
        ok (a, record s { agent = some a; agents = l }))
]

unfoldable pub agent_address : Bytes → Reader → Result Reader
unfolding primary_agent
agent_address val s = do
  (a, s') ← primary_agent val s
  ip ← ip_to_num val
  l ← agentlist_add_address ip a s'.agents
  ok (record s' { agents = l })

-- A scalar inside of a list: the name of an agent, or one of its addresses.
unfoldable pub agent_scalar : Bytes → Reader → Result Reader
unfolding copy_key agent_address
agent_scalar val s =
    let listed : Reader = record s {
      in_agent_list = if same s.key (codes "agents") then true else s.in_agent_list;
    } in
    if s.in_agent
    then agent_address val listed
    else (do k ← copy_key val; ok (record listed { in_agent = true; key = k }))

-- The value of a setting goes to the section that the reader is in.
unfoldable pub set_value : Bytes → Reader → Reader
set_value val s =
    if s.in_stcollectd
    then record s { stcollectd = set_stcollectd s.key val s.stcollectd }
    else if s.in_stprocessd
    then (if s.in_storage_spectrum
        then record s { spectrum = set_spectrum s.key val s.spectrum }
        else if s.in_storage_mysql
        then record s { mysql = set_mysql s.key val s.mysql }
        else record s { stprocessd = set_stprocessd s.key val s.stprocessd })
    else s

unfoldable pub setting_scalar : Bytes → Reader → Result Reader
unfolding copy_key set_value
setting_scalar val s =
    if s.is_value
    then ok (record (set_value val s) { is_value = false })
    else (do k ← copy_key val; ok (record s { key = k; is_value = true }))

unfoldable pub scalar_event : Bytes → Bytes → Reader → Result Reader
unfolding reads_agents agent_scalar setting_scalar
scalar_event pname val s =
    if same val (codes "stcollectd")
    then ok (record s { in_stcollectd = true; in_stprocessd = false })
    else if same val (codes "stprocessd")
    then ok (record s { in_stcollectd = false; in_stprocessd = true })
    else if s.in_stprocessd && same val (codes "storage_mysql")
    then ok (record s { in_storage_spectrum = false; in_storage_mysql = true })
    else if s.in_stprocessd && same val (codes "storage_spectrum")
    then ok (record s { in_storage_spectrum = true; in_storage_mysql = false })
    else (do
      listing ← reads_agents pname s
      if listing then agent_scalar val s else setting_scalar val s)

unfoldable pub parse_event : Bytes → Event → Reader → Result Reader
unfolding scalar_event
parse_event pname (scalar val) s = scalar_event pname val s
parse_event pname sequence_start s = ok (record s { is_list = true })
parse_event pname sequence_end s = ok (
    if s.in_agent
    then record s { agent = none; in_agent = false; is_value = false }
    else if s.in_agent_list
    then record s { in_agent_list = false; is_list = false }
    else record s { is_value = false })
parse_event pname stream_end s = ok s
parse_event pname other s = ok s

-- The loop of parse_config_file, up to the end of the stream. The events end without it where the
-- YAML parser fails.
unfoldable pub parse_events : Bytes → List Event → Reader → Result Reader
unfolding parse_event
parse_events pname [] s = ok s
parse_events pname (stream_end ∷ es) s = parse_event pname stream_end s
parse_events pname (e ∷ es) s = do s' ← parse_event pname e s; parse_events pname es s'

-- `none`: the file cannot be opened.
unfoldable pub parse_config_file : Bytes → Option (List Event) → Reader → Result Reader
unfolding parse_events
parse_config_file pname file s =
    let ready : Reader = record s { agent = none; is_list = false; is_value = false } in
    elim file [ none ↦ ok ready | some es ↦ parse_events pname es ready ]
