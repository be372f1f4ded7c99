-- ===== src/Dataparser/Keys.antt =====
-- The keys of src/dataparser.h, how src/dataparser.c takes them from a sample, and their hashes.
use sflow_toolkit.Base.{ℕ, ◌+◌, ◌%◌, [], ◌∷◌, take}
use sflow_toolkit.Base.Results.{Result, ok, ◌>>=◌}
use sflow_toolkit.Bytes.{Bytes}
use sflow_toolkit.Parser.Samples.{FlowSample}
use sflow_toolkit.Dataparser.Packet.{
  field8, saddr, daddr, source_port, dest_port, strip_ethernet, strip_ip,
}

pub record KeyEthernet : Type 0 where
  pub input_if : ℕ
  pub output_if : ℕ
  pub src : Bytes
  pub dst : Bytes

pub record KeyIp : Type 0 where
  pub input_if : ℕ
  pub output_if : ℕ
  pub src : ℕ
  pub dst : ℕ

-- `conv_key_udp_t` and `conv_key_tcp_t` have the same fields.
pub record KeyPorts : Type 0 where
  pub input_if : ℕ
  pub output_if : ℕ
  pub src : ℕ
  pub dst : ℕ
  pub src_port : ℕ
  pub dst_port : ℕ

abbrev pub hash_range : ℕ
hash_range = 50000

-- `memcpy` of six bytes.
unfoldable pub mac : Bytes → ℕ → Result Bytes
unfolding field8
mac p k = do
  a ← field8 p k
  b ← field8 p (k + 1)
  c ← field8 p (k + 2)
  d ← field8 p (k + 3)
  e ← field8 p (k + 4)
  f ← field8 p (k + 5)
  ok (a ∷ b ∷ c ∷ d ∷ e ∷ f ∷ [])

unfoldable pub get_key_ethernet : FlowSample → Result KeyEthernet
unfolding mac
get_key_ethernet s = do
  src ← mac s.raw_header 6
  dst ← mac s.raw_header 0
  ok (record { input_if = s.input_if_value; output_if = s.output_if_value; src = src; dst = dst })

unfoldable pub get_key_ip : FlowSample → Result KeyIp
unfolding strip_ethernet saddr daddr
get_key_ip s = do
  p ← strip_ethernet s.raw_header
  src ← saddr p
  dst ← daddr p
  ok (record { input_if = s.input_if_value; output_if = s.output_if_value; src = src; dst = dst })

-- `get_key_udp` and `get_key_tcp` are the same code: both headers begin with the two ports.
unfoldable pub get_key_ports : FlowSample → Result KeyPorts
unfolding strip_ethernet saddr daddr strip_ip source_port dest_port
get_key_ports s = do
  p ← strip_ethernet s.raw_header
  src ← saddr p
  dst ← daddr p
  q ← strip_ip p
  src_port ← source_port q
  dst_port ← dest_port q
  ok (record {
    input_if = s.input_if_value;
    output_if = s.output_if_value;
    src = src;
    dst = dst;
    src_port = src_port;
    dst_port = dst_port;
  })

abbrev pub get_key_udp : FlowSample → Result KeyPorts
get_key_udp = get_key_ports

abbrev pub get_key_tcp : FlowSample → Result KeyPorts
get_key_tcp = get_key_ports

-- `for(i=0; i<6; i++)`, over the bytes of an address.
unfoldable pub hash_bytes : Bytes → ℕ
hash_bytes [] = 0
hash_bytes (b ∷ bs) = b % hash_range + hash_bytes bs

-- The sums stay below 2^31, so the `int` neither overflows nor turns negative.
unfoldable pub hash_key_ethernet : KeyEthernet → ℕ
unfolding hash_bytes
hash_key_ethernet k =
    (k.input_if % hash_range
      + k.output_if % hash_range
      + hash_bytes (take 6 k.src)
      + hash_bytes (take 6 k.dst))
    % hash_range

unfoldable pub hash_key_ip : KeyIp → ℕ
hash_key_ip k =
    (k.input_if % hash_range + k.output_if % hash_range + k.src % hash_range + k.dst % hash_range)
    % hash_range

unfoldable pub hash_key_ports : KeyPorts → ℕ
hash_key_ports k =
    (k.input_if % hash_range
      + k.output_if % hash_range
      + k.src % hash_range
      + k.dst % hash_range
      + k.src_port % hash_range
      + k.dst_port % hash_range)
    % hash_range

abbrev pub hash_key_tcp : KeyPorts → ℕ
hash_key_tcp = hash_key_ports

abbrev pub hash_key_udp : KeyPorts → ℕ
hash_key_udp = hash_key_ports
