-- ===== src/StorageMysql/Conversations/Fields.antt =====
-- The fields of the lines that src/storage_mysql.c writes hold neither a bar nor the end of a line.
use sflow_toolkit.Base.{
  ℕ, zero, suc, ◌+◌, ◌/◌, ◌%◌, ◌<◌, ◌≤◌, [], ◌∷◌, ltb, arith, Bool-cases, inl, inr,
}
use sflow_toolkit.Bytes.{Bytes}
use sflow_toolkit.Util.{print_decimal, print_u}
use sflow_toolkit.Dataparser.Keys.{KeyEthernet, KeyPorts}
use sflow_toolkit.Dataparser.Conversations.{ConvEthernet, ConvIp, ConvTcp, ConvUdp}
use sflow_toolkit.Dataparser.Process.{IpSlot}
use sflow_toolkit.StorageMysql.Conversations.{
  hex_digit, print_hex, ether_ntoa, fields_ethernet, fields_ip, fields_tcp, fields_udp,
}
use sflow_toolkit.StorageMysql.Conversations.Loaded.{IsField, IsFieldByte, AreFields}

IsFieldByte-between : (c : ℕ) → 11 ≤ c → c < 124 → IsFieldByte c
IsFieldByte-between c low high = (λ e. omega arith, λ e. omega arith)

print_decimal-IsField : (k v : ℕ) (rest : Bytes) → IsField rest → IsField (print_decimal k v rest)
unfolding print_decimal
print_decimal-IsField zero v rest is = is
print_decimal-IsField (suc k) v rest is = elim (Bool-cases (ltb v 10)) [
  | inl short ↦ rw short (IsFieldByte-between (48 + v) (omega arith) (ground arith), is)
  | inr long ↦ rw long (
      print_decimal-IsField k (v / 10) _
        (IsFieldByte-between (48 + v % 10) (omega arith) (omega arith), is))
]

hex_digit-IsFieldByte : (d : ℕ) → d < 16 → IsFieldByte (hex_digit d)
unfolding hex_digit
hex_digit-IsFieldByte d small = elim (Bool-cases (ltb d 10)) [
  | inl low ↦ rw low (IsFieldByte-between (48 + d) (omega arith) (omega arith))
  | inr high ↦ rw high (IsFieldByte-between (87 + d) (omega arith) (omega arith))
]

print_hex-IsField : (b : ℕ) (rest : Bytes) → IsField rest → IsField (print_hex b rest)
unfolding print_hex
print_hex-IsField b rest is = elim (Bool-cases (ltb b 16)) [
  | inl small ↦ rw small (hex_digit-IsFieldByte b (ground arith), is)
  | inr large ↦ rw large (
    hex_digit-IsFieldByte (b / 16 % 16) (omega arith),
    (hex_digit-IsFieldByte (b % 16) (omega arith), is),
  )
]

ether_ntoa-IsField : (bs : Bytes) → IsField (ether_ntoa bs)
unfolding ether_ntoa
ether_ntoa-IsField [] = tt
ether_ntoa-IsField (b ∷ []) = print_hex-IsField b [] tt
ether_ntoa-IsField (b ∷ b' ∷ bs) =
    print_hex-IsField b _
      (IsFieldByte-between b':' (omega arith) (omega arith), ether_ntoa-IsField (b' ∷ bs))

print_u-IsField : (v : ℕ) → IsField (print_u v [])
unfolding print_u
print_u-IsField v = print_decimal-IsField 10 v [] tt

module _ (timestamp agent : ℕ) where
  pub fields_ethernet-AreFields :
      (k : KeyEthernet) (c : ConvEthernet) → AreFields (fields_ethernet timestamp agent k c)
  unfolding fields_ethernet
  fields_ethernet-AreFields k c = record {
    clean = (
      print_u-IsField timestamp,
      (
        print_u-IsField agent,
        (
          print_u-IsField k.input_if,
          (
            print_u-IsField k.output_if,
            (
              ether_ntoa-IsField k.src,
              (ether_ntoa-IsField k.dst, (print_u-IsField c.bytes, (print_u-IsField c.frames, tt))),
            ),
          ),
        ),
      ),
    );
    some_field = omega arith;
  }

  pub fields_ip-AreFields : (k : IpSlot) (c : ConvIp) → AreFields (fields_ip timestamp agent k c)
  unfolding fields_ip
  fields_ip-AreFields k c = record {
    clean = (
      print_u-IsField timestamp,
      (
        print_u-IsField agent,
        (
          print_u-IsField k.key.input_if,
          (
            print_u-IsField k.key.output_if,
            (
              print_u-IsField k.key.src,
              (
                print_u-IsField k.key.dst,
                (print_u-IsField c.bytes, (print_u-IsField c.frames, tt)),
              ),
            ),
          ),
        ),
      ),
    );
    some_field = omega arith;
  }

  pub fields_tcp-AreFields :
      (k : KeyPorts) (c : ConvTcp) → AreFields (fields_tcp timestamp agent k c)
  unfolding fields_tcp
  fields_tcp-AreFields k c = record {
    clean = (
      print_u-IsField timestamp,
      (
        print_u-IsField agent,
        (
          print_u-IsField k.input_if,
          (
            print_u-IsField k.output_if,
            (
              print_u-IsField k.src,
              (
                print_u-IsField k.src_port,
                (
                  print_u-IsField k.dst,
                  (
                    print_u-IsField k.dst_port,
                    (print_u-IsField c.bytes, (print_u-IsField c.frames, tt)),
                  ),
                ),
              ),
            ),
          ),
        ),
      ),
    );
    some_field = omega arith;
  }

  pub fields_udp-AreFields :
      (k : KeyPorts) (c : ConvUdp) → AreFields (fields_udp timestamp agent k c)
  unfolding fields_udp
  fields_udp-AreFields k c = record {
    clean = (
      print_u-IsField timestamp,
      (
        print_u-IsField agent,
        (
          print_u-IsField k.input_if,
          (
            print_u-IsField k.output_if,
            (
              print_u-IsField k.src,
              (
                print_u-IsField k.src_port,
                (
                  print_u-IsField k.dst,
                  (
                    print_u-IsField k.dst_port,
                    (print_u-IsField c.bytes, (print_u-IsField c.frames, tt)),
                  ),
                ),
              ),
            ),
          ),
        ),
      ),
    );
    some_field = omega arith;
  }
