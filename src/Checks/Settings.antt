-- ===== src/Checks/Settings.antt =====
-- A configuration file, addresses as texts, and tables of agents and interfaces.
use sflow_toolkit.Base.{
  ℕ, none, some, List, [], ◌∷◌, ◌≡◌, refl, ◌==◌, if◌then◌else◌, true, false, arith,
}
use sflow_toolkit.StorageCsv.{hash_init}
use sflow_toolkit.StorageCsv.Lookup.{IsStored}
use sflow_toolkit.Base.Results.{ok, and_then}
use sflow_toolkit.Bytes.{Bytes}
use sflow_toolkit.Util.{codes, ip_to_num, num_to_ip}
use sflow_toolkit.Util.Addresses.{ip_to_num-num_to_ip}
use sflow_toolkit.Agentlist.{
  AgentList, agentlist_init, agentlist_search, agentlist_add_address, hash_key,
}
use sflow_toolkit.Agentlist.Lookup.{IsAgentList, search-add_address}
use sflow_toolkit.Configparser.{
  scalar, sequence_start, sequence_end, stream_end, Reader, is_other_program, parse_events,
}
use sflow_toolkit.Configparser.Settings.{
  stcollectd_config, stprocessd_config, storage_mysql_config, storage_spectrum_config,
}
use sflow_toolkit.Configparser.Lists.{
  put_agent, register, between, outside, parse_events-put_agent, parse_events-empty_list,
}

abbrev start : Reader
start = record {
  key = [];
  in_stcollectd = false;
  in_stprocessd = false;
  in_storage_spectrum = false;
  in_storage_mysql = false;
  in_agent_list = false;
  in_agent = false;
  is_value = false;
  is_list = false;
  agent = none;
  stcollectd = stcollectd_config;
  stprocessd = stprocessd_config;
  mysql = storage_mysql_config;
  spectrum = storage_spectrum_config;
  agents = agentlist_init;
}

abbrev settings : List (Bytes × Bytes)
settings = (codes "port", codes "6344") ∷ (codes "tmpdir", codes "/dev/shm") ∷ []

abbrev listing : Reader
listing = record start { key = codes "agents"; in_stcollectd = true; is_value = true }

collector : is_other_program (codes "stcollectd") ≡ ok true
unfolding is_other_program
collector = refl

parse_events-put_agent_example :
    parse_events
      (codes "stcollectd")
      (put_agent (codes "sw-test") (3232235521 ∷ 3232235778 ∷ []) (sequence_end ∷ stream_end ∷ []))
      (between listing)
    ≡ and_then (register (codes "sw-test") 3232235521 (3232235778 ∷ []) listing.agents) (λ l.
      parse_events (codes "stcollectd") (sequence_end ∷ stream_end ∷ []) (
        between (record listing {
          key = codes "sw-test";
          in_agent_list = true;
          is_value = false;
          agents = l;
        })))
parse_events-put_agent_example =
    parse_events-put_agent (codes "stcollectd") collector (codes "sw-test") 3232235521
      (3232235778 ∷ []) (sequence_end ∷ stream_end ∷ []) listing (refl, refl, refl, refl)
      (omega arith) (omega arith, (omega arith, tt)) refl

parse_events-empty_list_example :
    parse_events
      (codes "stcollectd")
      (sequence_start ∷ sequence_end ∷ scalar (codes "port") ∷ stream_end ∷ [])
      (outside listing)
    ≡ parse_events (codes "stcollectd") (stream_end ∷ []) (record listing {
      in_agent_list = true;
      in_agent = true;
      key = codes "port";
      is_value = false;
      is_list = true;
    })
parse_events-empty_list_example =
    parse_events-empty_list (codes "stcollectd") collector (codes "port") (stream_end ∷ []) listing
      (refl, refl, refl, refl) (omega arith)

ip_to_num-num_to_ip_example : ip_to_num (num_to_ip 3232235521) ≡ ok 3232235521
ip_to_num-num_to_ip_example = ip_to_num-num_to_ip 3232235521 (omega arith)

search-add_address_example :
    (l' : AgentList) × (agentlist_add_address 167772161 0 agentlist_init ≡ ok l')
    × IsAgentList l'
    × ((b : ℕ)
        → agentlist_search l' b ≡ (
            if b == 167772161
            then ok (some 0)
            else if hash_key b == hash_key 167772161
            then ok none
            else agentlist_search agentlist_init b))
unfolding agentlist_init
search-add_address_example = search-add_address agentlist_init 167772161 0 (λ k. tt)

hash_init-IsStored : IsStored hash_init
unfolding hash_init
hash_init-IsStored = record { bucket = λ k. tt; node = λ p lt. absurd (omega arith) }
