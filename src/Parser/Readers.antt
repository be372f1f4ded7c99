-- ===== src/Parser/Readers.antt =====
-- The decode cursor of src/sflowparser.c: `SFDatagram`, `getData32` and its siblings, `skipBytes`,
-- `getData64` and `getAddress`. A pointer into the receive buffer is the list of the bytes from
-- there to the end of the buffer, so a pointer that is moved behind the end is the empty list.
use sflow_toolkit.Base.{
  ℕ, ◌+◌, ◌*◌, ◌/◌, ◌%◌, ◌^◌, ◌∷◌, ◌==◌, if◌then◌else◌, ltb, length, take, drop, replicate,
}
use sflow_toolkit.Base.Results.{Result, ok, fault, overread, and_then}
use sflow_toolkit.Bytes.{Bytes, le32, ntohl}

pub record Datagram : Type 0 where
  pub timestamp : ℕ
  pub raw_sample : Bytes
  pub raw_start : Bytes
  pub raw_end : Bytes
  pub raw_length : ℕ
  pub cursor : Bytes

-- A parser reads at the cursor and moves it.
abbrev pub Cmd : Type 0 → Type 0
Cmd A = Datagram → Result (A × Datagram)

abbrev pub pure : {A : Type 0} → A → Cmd A
pure a d = ok (a, d)

infixl 5 ◌>>=◌ ◌>>◌
abbrev pub ◌>>=◌ : {A B : Type 0} → Cmd A → (A → Cmd B) → Cmd B
◌>>=◌ m f d = and_then (m d) λ p. f p.0 p.1

abbrev pub ◌>>◌ : {B : Type 0} → Cmd (Unit {0}) → Cmd B → Cmd B
m >> k = m >>= λ _. k

-- The datagram with its cursor at `bytes`.
abbrev pub at : Datagram → Bytes → Datagram
at d bytes = record d { cursor = bytes }

-- `*(uint32_t*)p` and the pointer behind it.
unfoldable pub load32 : Bytes → Result (ℕ × Bytes)
load32 (b₀ ∷ b₁ ∷ b₂ ∷ b₃ ∷ rest) = ok (le32 b₀ b₁ b₂ b₃, rest)
load32 _ = fault overread

unfoldable pub get_data32_nobswap : Cmd ℕ
unfolding load32
get_data32_nobswap d = and_then (load32 d.cursor) λ p. ok (p.0, at d p.1)

unfoldable pub get_data32 : Cmd ℕ
unfolding load32
get_data32 d = and_then (load32 d.cursor) λ p. ok (ntohl p.0, at d p.1)

unfoldable pub peek_data32_nobswap : Cmd ℕ
unfolding load32
peek_data32_nobswap d = and_then (load32 d.cursor) λ p. ok (p.0, d)

unfoldable pub peek_data32 : Cmd ℕ
unfolding load32
peek_data32 d = and_then (load32 d.cursor) λ p. ok (ntohl p.0, d)

-- `int quads = (skip + 3) / 4; data += quads`, the sum in 32 bits.
unfoldable pub skip_bytes : ℕ → Cmd (Unit {0})
skip_bytes skip d = ok (tt, at d (drop (4 * ((skip + 3) % 2 ^ 32 / 4)) d.cursor))

unfoldable pub get_data64 : Cmd ℕ
get_data64 = do hi ← get_data32; lo ← get_data32; pure ((hi * 2 ^ 32 + lo) % 2 ^ 64)

-- `memcpy` from the cursor.
unfoldable pub copy_bytes : ℕ → Cmd Bytes
copy_bytes n d = if ltb (length d.cursor) n then fault overread else ok (take n d.cursor, d)

-- `SFLAddress`: the type and the 16 bytes of the union.
pub record Address : Type 0 where
  pub type : ℕ
  pub address : Bytes

abbrev pub address_type_ip_v4 : ℕ
address_type_ip_v4 = 1

-- `address.ip_v4.s_addr = v`: the first four bytes of the union, in host order.
unfoldable pub store_ip_v4 : ℕ → Bytes
store_ip_v4 v =
    (v % 2 ^ 8) ∷ (v / 2 ^ 8 % 2 ^ 8) ∷ (v / 2 ^ 16 % 2 ^ 8) ∷ (v / 2 ^ 24) ∷ replicate 12 0

-- The read of `address.ip_v4.s_addr`, whatever was stored in the union.
unfoldable pub ip_v4 : Address → Result ℕ
unfolding load32
ip_v4 a = and_then (load32 a.address) λ p. ok p.0

-- The two branches of `getAddress`; the union was zeroed before the call.
unfoldable pub get_ip_v4 : ℕ → Cmd Address
unfolding get_data32_nobswap store_ip_v4
get_ip_v4 type = do v ← get_data32_nobswap; pure (record { type = type; address = store_ip_v4 v })

unfoldable pub get_ip_v6 : ℕ → Cmd Address
unfolding copy_bytes skip_bytes
get_ip_v6 type = do
  bytes ← copy_bytes 16
  skip_bytes 16
  pure (record { type = type; address = bytes })

unfoldable pub get_address : Cmd Address
unfolding get_ip_v4 get_ip_v6
get_address = do
  type ← get_data32
  if type == address_type_ip_v4 then get_ip_v4 type else get_ip_v6 type
