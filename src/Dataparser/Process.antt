-- ===== src/Dataparser/Process.antt =====
-- `process_sample_flow`, `process_sample_cntr`, `process_file_flow` and `process_file_cntr` of
-- src/dataparser.c, on the four tables and the list of counter samples.
pub mod Counters
pub mod Counts
pub mod File
pub mod Plan
pub mod Replay
pub mod Sample
use sflow_toolkit.Base.{ℕ, ◌+◌, ◌%◌, ◌^◌, Option, none, some, List, [], ◌∷◌, ◌++◌, if◌then◌else◌}
use sflow_toolkit.Base.Results.{Result, ok, ◌>>=◌}
use sflow_toolkit.Bytes.{Bytes}
use sflow_toolkit.Parser.Samples.{FlowSample, CntrSample}
use sflow_toolkit.Dataparser.Packet.{is_ip, is_tcp, is_udp}
use sflow_toolkit.Dataparser.Keys.{
  KeyEthernet, KeyIp, KeyPorts, get_key_ethernet, get_key_ip, get_key_tcp, get_key_udp,
  hash_key_ethernet, hash_key_ip, hash_key_tcp, hash_key_udp,
}
use sflow_toolkit.Dataparser.Conversations.{
  ConvEthernet, ConvIp, ConvTcp, ConvUdp, conv_ethernet_zero, conv_ip_zero, conv_tcp_zero,
  conv_udp_zero, conv_update_ethernet, conv_update_ip, conv_update_tcp, conv_update_udp,
}
use sflow_toolkit.Dataparser.Table.{ConvTable, empty_table, conv_list_add}
use native.Mathlib.Decide.{ℕ_discrete}

-- A `conv_key_ip_t` has 16 bytes and is copied and compared as a `conv_key_t` of 20: `behind` is
-- what stands in the four bytes behind the local variable `key_ip`.
pub record IpSlot : Type 0 where
  pub key : KeyIp
  pub behind : ℕ

unfoldable pub KeyEthernet-discrete : Discrete KeyEthernet
KeyEthernet-discrete = hlevel ℕ_discrete

unfoldable pub IpSlot-discrete : Discrete IpSlot
IpSlot-discrete = hlevel ℕ_discrete

unfoldable pub KeyPorts-discrete : Discrete KeyPorts
KeyPorts-discrete = hlevel ℕ_discrete

pub record Tables : Type 0 where
  pub ethernet : ConvTable KeyEthernet ConvEthernet
  pub ip : ConvTable IpSlot ConvIp
  pub tcp : ConvTable KeyPorts ConvTcp
  pub udp : ConvTable KeyPorts ConvUdp

-- `conv_list_add` at the four types of conversations.
unfoldable pub add_ethernet : FlowSample → KeyEthernet → Tables → Result Tables
add_ethernet s key t = do
  ethernet ←
      conv_list_add KeyEthernet-discrete hash_key_ethernet conv_ethernet_zero
        (λ c. conv_update_ethernet c s.raw_header s) key t.ethernet
  ok (record t { ethernet = ethernet })

unfoldable pub add_ip : FlowSample → IpSlot → Tables → Result Tables
add_ip s slot t = do
  ip ←
      conv_list_add IpSlot-discrete (λ k. hash_key_ip k.key) conv_ip_zero
        (λ c. conv_update_ip c s.raw_header s) slot t.ip
  ok (record t { ip = ip })

unfoldable pub add_tcp : FlowSample → KeyPorts → Tables → Result Tables
add_tcp s key t = do
  tcp ←
      conv_list_add KeyPorts-discrete hash_key_tcp conv_tcp_zero
        (λ c. conv_update_tcp c s.raw_header s) key t.tcp
  ok (record t { tcp = tcp })

unfoldable pub add_udp : FlowSample → KeyPorts → Tables → Result Tables
add_udp s key t = do
  udp ←
      conv_list_add KeyPorts-discrete hash_key_udp conv_udp_zero
        (λ c. conv_update_udp c s.raw_header s) key t.udp
  ok (record t { udp = udp })

unfoldable pub process_tcp : FlowSample → Tables → Result Tables
unfolding add_tcp
process_tcp s t = do key ← get_key_tcp s; add_tcp s key t

unfoldable pub process_udp : FlowSample → Tables → Result Tables
unfolding add_udp
process_udp s t = do key ← get_key_udp s; add_udp s key t

-- `if(is_tcp(pkt)) … else if(is_udp(pkt)) …`
unfoldable pub process_ports : FlowSample → Tables → Result Tables
unfolding process_tcp process_udp
process_ports s t = do
  tcp ← is_tcp s.raw_header
  if tcp
      then process_tcp s t
      else (do udp ← is_udp s.raw_header; if udp then process_udp s t else ok t)

unfoldable pub process_ip : ℕ → FlowSample → Tables → Result Tables
unfolding add_ip process_ports
process_ip behind s t = do
  key ← get_key_ip s
  t' ← add_ip s (record { key = key; behind = behind }) t
  process_ports s t'

unfoldable pub process_sample_flow : ℕ → FlowSample → Tables → Result Tables
unfolding add_ethernet process_ip
process_sample_flow behind s t = do
  key ← get_key_ethernet s
  t' ← add_ethernet s key t
  ip ← is_ip s.raw_header
  if ip then process_ip behind s t' else ok t'

-- `while(read(fd, &s, sizeof(SFFlowSample)))`, over the samples of the file. Each comes with the
-- bytes that stand behind `key_ip` while it is processed.
unfoldable pub process_samples : List (ℕ × FlowSample) → Tables → Result Tables
unfolding process_sample_flow
process_samples [] t = ok t
process_samples ((behind, s) ∷ ss) t = do t' ← process_sample_flow behind s t; process_samples ss t'

abbrev pub empty_tables : Tables
empty_tables = record {
  ethernet = empty_table;
  ip = empty_table;
  tcp = empty_table;
  udp = empty_table;
}

-- What a file of flow samples hands to the storage modules; the file is `none` if it cannot be
-- opened. The tables are freed afterwards, and zeroed before the next file.
unfoldable pub process_file_flow : Option (List (ℕ × FlowSample)) → Result Tables
unfolding process_samples
process_file_flow none = ok empty_tables
process_file_flow (some ss) = process_samples ss empty_tables

-- `counter_list_t`, its nodes in the order of their `next` pointers; `cntr_list_end` points to the
-- last of them.
pub record CounterList : Type 0 where
  pub num : ℕ
  pub nodes : List CntrSample

unfoldable pub process_sample_cntr : CntrSample → CounterList → CounterList
process_sample_cntr s l = record { num = (l.num + 1) % 2 ^ 32; nodes = l.nodes ++ (s ∷ []) }

unfoldable pub process_samples_cntr : List CntrSample → CounterList → CounterList
unfolding process_sample_cntr
process_samples_cntr [] l = l
process_samples_cntr (s ∷ ss) l = process_samples_cntr ss (process_sample_cntr s l)

-- What a file of counter samples hands to the storage modules.
unfoldable pub process_file_cntr : Option (List CntrSample) → CounterList
unfolding process_samples_cntr
process_file_cntr none = record { num = 0; nodes = [] }
process_file_cntr (some ss) = process_samples_cntr ss (record { num = 0; nodes = [] })
