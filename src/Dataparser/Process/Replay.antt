-- ===== src/Dataparser/Process/Replay.antt =====
-- The four tables after a file of flow samples, key by key.
use sflow_toolkit.Base.{ℕ, ◌≡◌, Option}
use sflow_toolkit.Base.Results.{Result}
use sflow_toolkit.Parser.Samples.{FlowSample}
use sflow_toolkit.Dataparser.Packet.Bounds.{IsAny}
use sflow_toolkit.Dataparser.Keys.{
  KeyEthernet, KeyPorts, hash_key_ethernet, hash_key_ip, hash_key_tcp, hash_key_udp,
}
use sflow_toolkit.Dataparser.Conversations.{
  ConvEthernet, ConvIp, ConvTcp, ConvUdp, conv_ethernet_zero, conv_ip_zero, conv_tcp_zero,
  conv_udp_zero, conv_update_ethernet, conv_update_ip, conv_update_tcp, conv_update_udp,
}
use sflow_toolkit.Dataparser.Conversations.Bounds.{IsSampled, IsConvIp, IsConvTcp}
use sflow_toolkit.Dataparser.Table.Assoc.{find}
use sflow_toolkit.Dataparser.Table.Replay.{replay_step, IsGood}
use sflow_toolkit.Dataparser.Process.{
  IpSlot, KeyEthernet-discrete, IpSlot-discrete, KeyPorts-discrete, Tables,
}

abbrev pub slot_hash : IpSlot → ℕ
slot_hash k = hash_key_ip k.key

abbrev pub upd_ethernet : FlowSample → ConvEthernet → Result ConvEthernet
upd_ethernet s c = conv_update_ethernet c s.raw_header s

abbrev pub upd_ip : FlowSample → ConvIp → Result ConvIp
upd_ip s c = conv_update_ip c s.raw_header s

abbrev pub upd_tcp : FlowSample → ConvTcp → Result ConvTcp
upd_tcp s c = conv_update_tcp c s.raw_header s

abbrev pub upd_udp : FlowSample → ConvUdp → Result ConvUdp
upd_udp s c = conv_update_udp c s.raw_header s

-- The conversation of a key in each table.
abbrev pub find_ethernet : Tables → KeyEthernet → Option ConvEthernet
find_ethernet t = find KeyEthernet-discrete hash_key_ethernet t.ethernet

abbrev pub find_ip : Tables → IpSlot → Option ConvIp
find_ip t = find IpSlot-discrete slot_hash t.ip

abbrev pub find_tcp : Tables → KeyPorts → Option ConvTcp
find_tcp t = find KeyPorts-discrete hash_key_tcp t.tcp

abbrev pub find_udp : Tables → KeyPorts → Option ConvUdp
find_udp t = find KeyPorts-discrete hash_key_udp t.udp

abbrev pub step_ethernet :
    Option KeyEthernet → FlowSample → KeyEthernet → Option ConvEthernet → Option ConvEthernet
step_ethernet = replay_step KeyEthernet-discrete conv_ethernet_zero upd_ethernet

abbrev pub step_ip : Option IpSlot → FlowSample → IpSlot → Option ConvIp → Option ConvIp
step_ip = replay_step IpSlot-discrete conv_ip_zero upd_ip

abbrev pub step_tcp : Option KeyPorts → FlowSample → KeyPorts → Option ConvTcp → Option ConvTcp
step_tcp = replay_step KeyPorts-discrete conv_tcp_zero upd_tcp

abbrev pub step_udp : Option KeyPorts → FlowSample → KeyPorts → Option ConvUdp → Option ConvUdp
step_udp = replay_step KeyPorts-discrete conv_udp_zero upd_udp

-- Lists that count their nodes, and conversations whose arrays have their sizes.
pub record IsTables (t : Tables) : Type 0 where
  pub ethernet :
      IsGood KeyEthernet-discrete conv_ethernet_zero upd_ethernet hash_key_ethernet IsSampled IsAny
        t.ethernet
  pub ip : IsGood IpSlot-discrete conv_ip_zero upd_ip slot_hash IsSampled IsConvIp t.ip
  pub tcp : IsGood KeyPorts-discrete conv_tcp_zero upd_tcp hash_key_tcp IsSampled IsConvTcp t.tcp
  pub udp : IsGood KeyPorts-discrete conv_udp_zero upd_udp hash_key_udp IsSampled IsAny t.udp

-- The tables after a sample that has the four keys, or some of them.
pub record Step (e : Option KeyEthernet) (i : Option IpSlot) (c u : Option KeyPorts)
    (s : FlowSample) (t t' : Tables) : Type 0 where
  pub ethernet : (k : KeyEthernet) → find_ethernet t' k ≡ step_ethernet e s k (find_ethernet t k)
  pub ip : (k : IpSlot) → find_ip t' k ≡ step_ip i s k (find_ip t k)
  pub tcp : (k : KeyPorts) → find_tcp t' k ≡ step_tcp c s k (find_tcp t k)
  pub udp : (k : KeyPorts) → find_udp t' k ≡ step_udp u s k (find_udp t k)
