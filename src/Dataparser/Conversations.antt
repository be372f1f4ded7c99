-- ===== src/Dataparser/Conversations.antt =====
-- The counters of a conversation, in src/dataparser.h, and the `conv_update_` functions of
-- src/dataparser.c that a packet runs. All counters have 32 bits.
pub mod Bounds
use sflow_toolkit.Base.{
  ℕ, ◌+◌, ◌/◌, ◌%◌, ◌^◌, none, some, List, ◌==◌, if◌then◌else◌, get_elem?, set, replicate,
}
use sflow_toolkit.Base.Results.{Result, ok, fault, overrun, ◌>>=◌}
use sflow_toolkit.Bytes.{Bytes}
use sflow_toolkit.Parser.Samples.{FlowSample}
use sflow_toolkit.Dataparser.Packet.{
  field8, ether_type, version, protocol, strip_vlan, strip_ethernet, strip_ip, ethertype_ip,
  ethertype_arp, ethertype_revarp, ethertype_vlan, ethertype_ipv6,
}

pub record EthernetProtocols : Type 0 where
  pub ip : ℕ
  pub arp : ℕ
  pub rarp : ℕ
  pub vlan : ℕ
  pub ipv6 : ℕ

pub record ConvEthernet : Type 0 where
  pub bytes : ℕ
  pub frames : ℕ
  pub protocols : EthernetProtocols

pub record ConvIp : Type 0 where
  pub frames : ℕ
  pub bytes : ℕ
  pub versions : List ℕ
  pub protocols : List ℕ

pub record ConvTcp : Type 0 where
  pub frames : ℕ
  pub bytes : ℕ
  pub flags : List ℕ

pub record ConvUdp : Type 0 where
  pub frames : ℕ
  pub bytes : ℕ

-- `memset(c, 0, sizeof(conv_t))`
abbrev pub conv_ethernet_zero : ConvEthernet
conv_ethernet_zero = record {
  bytes = 0;
  frames = 0;
  protocols = record { ip = 0; arp = 0; rarp = 0; vlan = 0; ipv6 = 0 };
}

abbrev pub conv_ip_zero : ConvIp
conv_ip_zero = record {
  frames = 0;
  bytes = 0;
  versions = replicate 16 0;
  protocols = replicate 256 0;
}

abbrev pub conv_tcp_zero : ConvTcp
conv_tcp_zero = record { frames = 0; bytes = 0; flags = replicate 6 0 }

abbrev pub conv_udp_zero : ConvUdp
conv_udp_zero = record { frames = 0; bytes = 0 }

abbrev pub add32 : ℕ → ℕ → ℕ
add32 a b = (a + b) % 2 ^ 32

-- `a[i] += n`
unfoldable pub bump : List ℕ → ℕ → ℕ → Result (List ℕ)
bump a i n = elim (get_elem? a i) [ none ↦ fault overrun | some v ↦ ok (set a i (add32 v n)) ]

-- The `switch(ethertype)`.
unfoldable pub count_ethertype : ℕ → EthernetProtocols → EthernetProtocols
count_ethertype type p =
    if type == ethertype_ip
    then record p { ip = add32 p.ip 1 }
    else if type == ethertype_arp
    then record p { arp = add32 p.arp 1 }
    else if type == ethertype_revarp
    then record p { rarp = add32 p.rarp 1 }
    else if type == ethertype_ipv6
    then record p { ipv6 = add32 p.ipv6 1 }
    else p

-- Behind a VLAN tag stands the type of the tagged frame.
unfoldable pub count_protocols : Bytes → EthernetProtocols → Result EthernetProtocols
unfolding ether_type strip_vlan count_ethertype
count_protocols pkt p = do
  type ← ether_type pkt
  if type == ethertype_vlan
      then (do
        inner ← ether_type (strip_vlan pkt)
        ok (count_ethertype inner (record p { vlan = add32 p.vlan 1 })))
      else ok (count_ethertype type p)

unfoldable pub conv_update_ethernet : ConvEthernet → Bytes → FlowSample → Result ConvEthernet
unfolding count_protocols
conv_update_ethernet c pkt s = do
  protocols ← count_protocols pkt c.protocols
  ok (record {
    bytes = add32 c.bytes s.raw_header_frame_length;
    frames = add32 c.frames 1;
    protocols = protocols;
  })

unfoldable pub conv_update_ip : ConvIp → Bytes → FlowSample → Result ConvIp
unfolding strip_ethernet version protocol bump
conv_update_ip c pkt s = do
  hdr ← strip_ethernet pkt
  n ← protocol hdr
  protocols ← bump c.protocols n 1
  v ← version hdr
  versions ← bump c.versions v 1
  ok (record {
    frames = add32 c.frames 1;
    bytes = add32 c.bytes s.raw_header_frame_length;
    versions = versions;
    protocols = protocols;
  })

-- The six flags stand in the low bits of byte 13, `fin` lowest, and count in the order `TCP_URG` to
-- `TCP_FIN`.
unfoldable pub count_flags : ℕ → List ℕ → Result (List ℕ)
unfolding bump
count_flags b f = do
  f₀ ← bump f 0 (b / 2 ^ 5 % 2)
  f₁ ← bump f₀ 1 (b / 2 ^ 4 % 2)
  f₂ ← bump f₁ 2 (b / 2 ^ 3 % 2)
  f₃ ← bump f₂ 3 (b / 2 ^ 2 % 2)
  f₄ ← bump f₃ 4 (b / 2 % 2)
  bump f₄ 5 (b % 2)

unfoldable pub conv_update_tcp : ConvTcp → Bytes → FlowSample → Result ConvTcp
unfolding strip_ethernet strip_ip field8 count_flags
conv_update_tcp c pkt s = do
  p ← strip_ethernet pkt
  hdr ← strip_ip p
  b ← field8 hdr 13
  flags ← count_flags b c.flags
  ok (record {
    frames = add32 c.frames 1;
    bytes = add32 c.bytes s.raw_header_frame_length;
    flags = flags;
  })

unfoldable pub conv_update_udp : ConvUdp → Bytes → FlowSample → Result ConvUdp
conv_update_udp c pkt s =
    ok (record { frames = add32 c.frames 1; bytes = add32 c.bytes s.raw_header_frame_length })
