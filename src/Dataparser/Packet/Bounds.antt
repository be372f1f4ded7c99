-- ===== src/Dataparser/Packet/Bounds.antt =====
-- The reads of src/dataparser.c stay inside the 128 bytes of the sampled header: a read of a field
-- that lies inside the bytes ends without a fault.
use sflow_toolkit.Base.{
  ℕ, zero, suc, ◌+◌, ◌*◌, ◌≤◌, ◌<◌, ◌≡◌, refl, some, [], ◌∷◌, ◌==◌, if◌then◌else◌, length,
  length-drop, drop, get_elem?, All, Bool, true, false, arith,
}
use sflow_toolkit.Base.Results.{ok, Returns, returns, Returns-bind, Returns-if}
use sflow_toolkit.Bytes.{Bytes, IsByte}
use sflow_toolkit.Dataparser.Packet.{
  field8, field16, field32, ether_type, ihl, version, protocol, saddr, daddr, source_port,
  dest_port, strip_vlan, strip_ethernet, strip_ip, is_ip_behind_vlan, is_ip, is_protocol, is_udp,
  is_tcp,
}

-- At least `n` bytes can be read, and they are bytes.
pub record Head (n : ℕ) (p : Bytes) : Type 0 where
  pub size : n ≤ length p
  pub bytes : All IsByte p

abbrev pub IsAny : {A : Type 0} → A → Type 0
IsAny a = Unit {0}

get_elem?-IsByte :
    (p : Bytes) (k : ℕ)
    → k < length p
    → All IsByte p
    → (b : ℕ) × (get_elem? p k ≡ some b) × IsByte b
get_elem?-IsByte [] k h bytes = absurd (omega arith)
get_elem?-IsByte (b ∷ p) zero h bytes = (b, refl, bytes.0)
get_elem?-IsByte (b ∷ p) (suc k) h bytes = get_elem?-IsByte p k (omega arith) bytes.1

All-drop : (k : ℕ) (p : Bytes) → All IsByte p → All IsByte (drop k p)
All-drop zero p h = h
All-drop (suc k) [] h = tt
All-drop (suc k) (b ∷ p) h = All-drop k p h.1

pub Head-drop : {n : ℕ} {p : Bytes} (k m : ℕ) → m + k ≤ n → Head n p → Head m (drop k p)
Head-drop {n} {p} k m le h = record {
  size = omega (arith, length-drop k p, h.size);
  bytes = All-drop k p h.bytes;
}

module _ {n : ℕ} {p : Bytes} (h : Head n p) where
  pub field8-Returns : (k : ℕ) → k < n → Returns IsByte (field8 p k)
  unfolding field8
  field8-Returns k lt =
      let (b, e, byte) = get_elem?-IsByte p k (omega (arith, h.size)) h.bytes in
      rw (e, field8) (returns byte)

  field16-Returns : (k : ℕ) → k + 1 < n → Returns IsAny (field16 p k)
  unfolding field16
  field16-Returns k lt =
      Returns-bind (field8-Returns k (omega arith))
        λ a _. Returns-bind (field8-Returns (k + 1) lt) λ b _. returns tt

  field32-Returns : (k : ℕ) → k + 3 < n → Returns IsAny (field32 p k)
  unfolding field32
  field32-Returns k lt = Returns-bind (field8-Returns k (omega arith)) λ a _.
      Returns-bind (field8-Returns (k + 1) (omega arith)) λ b _.
        Returns-bind (field8-Returns (k + 2) (omega arith))
          λ c _. Returns-bind (field8-Returns (k + 3) lt) λ d _. returns tt

module _ {n : ℕ} {p : Bytes} (h : Head n p) where
  pub ether_type-Returns : 14 ≤ n → Returns IsAny (ether_type p)
  unfolding ether_type
  ether_type-Returns le = field16-Returns h 12 (omega arith)

  pub protocol-Returns : 10 ≤ n → Returns IsByte (protocol p)
  unfolding protocol
  protocol-Returns le = field8-Returns h 9 (omega arith)

  pub version-Returns : 1 ≤ n → Returns (λ v. v < 16) (version p)
  unfolding version
  version-Returns le = Returns-bind (field8-Returns h 0 le) λ b byte. returns (omega arith)

  ihl-Returns : 1 ≤ n → Returns (λ v. v < 16) (ihl p)
  unfolding ihl
  ihl-Returns le = Returns-bind (field8-Returns h 0 le) λ b byte. returns (omega arith)

  pub saddr-Returns : 16 ≤ n → Returns IsAny (saddr p)
  unfolding saddr
  saddr-Returns le = field32-Returns h 12 (omega arith)

  pub daddr-Returns : 20 ≤ n → Returns IsAny (daddr p)
  unfolding daddr
  daddr-Returns le = field32-Returns h 16 (omega arith)

  pub source_port-Returns : 2 ≤ n → Returns IsAny (source_port p)
  unfolding source_port
  source_port-Returns le = field16-Returns h 0 (omega arith)

  pub dest_port-Returns : 4 ≤ n → Returns IsAny (dest_port p)
  unfolding dest_port
  dest_port-Returns le = field16-Returns h 2 (omega arith)

-- Behind the Ethernet header, with or without a VLAN tag, at most 18 bytes are gone.
pub strip_ethernet-Returns :
    {n : ℕ} {p : Bytes} (m : ℕ) → m + 18 ≤ n → Head n p → Returns (Head m) (strip_ethernet p)
unfolding strip_ethernet
strip_ethernet-Returns {n} {p} m le h =
    Returns-bind (ether_type-Returns h (omega arith)) λ type _. split (type == 0x8100)
  where
    split : (b : Bool) → Returns (Head m) (ok (if b then strip_vlan (drop 14 p) else drop 14 p))
    split true =
        unfold strip_vlan in
        returns (Head-drop 4 m (omega arith) (Head-drop {n = n} 14 (m + 4) (omega arith) h))
    split false = returns (Head-drop 14 m (omega arith) h)

-- The length field of an IP header has four bits, so at most 60 bytes go with the header.
pub strip_ip-Returns :
    {n : ℕ} {p : Bytes} (m : ℕ) → m + 60 ≤ n → Head n p → Returns (Head m) (strip_ip p)
unfolding strip_ip
strip_ip-Returns {n} {p} m le h =
    Returns-bind (ihl-Returns h (omega arith))
      λ words small. returns (Head-drop (words * 4) m (omega arith) h)

module _ {n : ℕ} {p : Bytes} (h : Head n p) where
  is_ip_behind_vlan-Returns : 18 ≤ n → Returns IsAny (is_ip_behind_vlan p)
  unfolding is_ip_behind_vlan strip_vlan
  is_ip_behind_vlan-Returns le =
      Returns-bind (ether_type-Returns (Head-drop 4 14 (omega arith) h) (omega arith))
        λ type _. returns tt

  pub is_ip-Returns : 18 ≤ n → Returns IsAny (is_ip p)
  unfolding is_ip
  is_ip-Returns le = Returns-bind (ether_type-Returns h (omega arith)) λ type _.
      Returns-if (type == 0x0800) (returns tt)
        (Returns-if (type == 0x8100) (is_ip_behind_vlan-Returns le) (returns tt))

  is_protocol-Returns : (number : ℕ) → 28 ≤ n → Returns IsAny (is_protocol number p)
  unfolding is_protocol
  is_protocol-Returns number le =
      Returns-bind (strip_ethernet-Returns {n = n} 10 (omega arith) h) λ hdr inside.
        Returns-bind (is_ip-Returns (omega arith)) λ ip _.
          Returns-if ip (Returns-bind (protocol-Returns inside (omega arith)) λ n _. returns tt)
            (returns tt)

  pub is_tcp-Returns : 28 ≤ n → Returns IsAny (is_tcp p)
  unfolding is_tcp
  is_tcp-Returns le = is_protocol-Returns 0x06 le

  pub is_udp-Returns : 28 ≤ n → Returns IsAny (is_udp p)
  unfolding is_udp
  is_udp-Returns le = is_protocol-Returns 0x11 le
