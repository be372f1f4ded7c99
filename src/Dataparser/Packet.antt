-- ===== src/Dataparser/Packet.antt =====
-- Packet heads in src/dataparser.c: the fields of `struct ether_header`, `iphdr`, `tcphdr` and
-- `udphdr` as a little-endian host lays them out, `strip_vlan`, `strip_ethernet`, `strip_ip`,
-- `is_ip`, `is_tcp` and `is_udp`. A pointer into a packet is the list of the bytes from there on.
pub mod Bounds
use sflow_toolkit.Base.{
  ℕ, ◌+◌, ◌*◌, ◌/◌, ◌%◌, ◌^◌, none, some, ◌==◌, if◌then◌else◌, Bool, true, false, get_elem?, drop,
}
use sflow_toolkit.Base.Results.{Result, ok, fault, overread, ◌>>=◌}
use sflow_toolkit.Bytes.{Bytes, le32, ntohl, ntohs}

unfoldable pub field8 : Bytes → ℕ → Result ℕ
field8 p k = elim (get_elem? p k) [ none ↦ fault overread | some b ↦ ok b ]

-- `ntohs` of the 16-bit field at `k`.
unfoldable pub field16 : Bytes → ℕ → Result ℕ
unfolding field8
field16 p k = do a ← field8 p k; b ← field8 p (k + 1); ok (ntohs (a + b * 2 ^ 8))

-- `ntohl` of the 32-bit field at `k`.
unfoldable pub field32 : Bytes → ℕ → Result ℕ
unfolding field8
field32 p k = do
  a ← field8 p k
  b ← field8 p (k + 1)
  c ← field8 p (k + 2)
  d ← field8 p (k + 3)
  ok (ntohl (le32 a b c d))

abbrev pub ethertype_ip : ℕ
ethertype_ip = 0x0800

abbrev pub ethertype_arp : ℕ
ethertype_arp = 0x0806

abbrev pub ethertype_revarp : ℕ
ethertype_revarp = 0x8035

abbrev pub ethertype_vlan : ℕ
ethertype_vlan = 0x8100

abbrev pub ethertype_ipv6 : ℕ
ethertype_ipv6 = 0x86dd

-- `ntohs(hdr->ether_type)`
unfoldable pub ether_type : Bytes → Result ℕ
unfolding field16
ether_type p = field16 p 12

-- `hdr->ihl`, `hdr->version`, `hdr->protocol`, `ntohl(hdr->saddr)` and `ntohl(hdr->daddr)`.
unfoldable pub ihl : Bytes → Result ℕ
unfolding field8
ihl p = do b ← field8 p 0; ok (b % 2 ^ 4)

unfoldable pub version : Bytes → Result ℕ
unfolding field8
version p = do b ← field8 p 0; ok (b / 2 ^ 4)

unfoldable pub protocol : Bytes → Result ℕ
unfolding field8
protocol p = field8 p 9

unfoldable pub saddr : Bytes → Result ℕ
unfolding field32
saddr p = field32 p 12

unfoldable pub daddr : Bytes → Result ℕ
unfolding field32
daddr p = field32 p 16

-- The ports of a TCP or UDP header.
unfoldable pub source_port : Bytes → Result ℕ
unfolding field16
source_port p = field16 p 0

unfoldable pub dest_port : Bytes → Result ℕ
unfolding field16
dest_port p = field16 p 2

unfoldable pub strip_vlan : Bytes → Bytes
strip_vlan p = drop 4 p

unfoldable pub strip_ethernet : Bytes → Result Bytes
unfolding ether_type strip_vlan
strip_ethernet p = do
  type ← ether_type p
  ok (if type == ethertype_vlan then strip_vlan (drop 14 p) else drop 14 p)

unfoldable pub strip_ip : Bytes → Result Bytes
unfolding ihl
strip_ip p = do n ← ihl p; ok (drop (n * 4) p)

unfoldable pub is_ip_behind_vlan : Bytes → Result Bool
unfolding ether_type strip_vlan
is_ip_behind_vlan p = do type ← ether_type (strip_vlan p); ok (type == ethertype_ip)

unfoldable pub is_ip : Bytes → Result Bool
unfolding ether_type is_ip_behind_vlan
is_ip p = do
  type ← ether_type p
  if type == ethertype_ip
      then ok true
      else if type == ethertype_vlan
      then is_ip_behind_vlan p
      else ok false

-- The protocol number is read only if the packet is an IP packet.
unfoldable pub is_protocol : ℕ → Bytes → Result Bool
unfolding strip_ethernet is_ip protocol
is_protocol number p = do
  hdr ← strip_ethernet p
  ip ← is_ip p
  if ip then (do n ← protocol hdr; ok (n == number)) else ok false

unfoldable pub is_udp : Bytes → Result Bool
unfolding is_protocol
is_udp p = is_protocol 0x11 p

unfoldable pub is_tcp : Bytes → Result Bool
unfolding is_protocol
is_tcp p = is_protocol 0x06 p
