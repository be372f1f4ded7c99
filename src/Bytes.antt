-- ===== src/Bytes.antt =====
-- Memory as bytes, and the 32-bit loads of a little-endian host: `*(uint32_t*)p`, `ntohl`, `ntohs`.
use sflow_toolkit.Base.{ℕ, ◌+◌, ◌*◌, ◌/◌, ◌%◌, ◌^◌, ◌<◌, ◌≡◌, List, ◌∷◌, arith}

abbrev pub Bytes : Type 0
Bytes = List ℕ

abbrev pub IsByte : ℕ → Type 0
IsByte b = b < 256

abbrev pub IsU32 : ℕ → Type 0
IsU32 v = v < 2 ^ 32

abbrev pub IsU64 : ℕ → Type 0
IsU64 v = v < 2 ^ 64

-- The number that a little-endian host reads from four bytes, lowest address first.
unfoldable pub le32 : ℕ → ℕ → ℕ → ℕ → ℕ
le32 b₀ b₁ b₂ b₃ = b₀ + b₁ * 2 ^ 8 + b₂ * 2 ^ 16 + b₃ * 2 ^ 24

-- `ntohl` on such a host swaps the four bytes.
unfoldable pub ntohl : ℕ → ℕ
ntohl v = v % 2 ^ 8 * 2 ^ 24 + v / 2 ^ 8 % 2 ^ 8 * 2 ^ 16 + v / 2 ^ 16 % 2 ^ 8 * 2 ^ 8 + v / 2 ^ 24

unfoldable pub ntohs : ℕ → ℕ
ntohs v = v % 2 ^ 8 * 2 ^ 8 + v / 2 ^ 8

-- Network order: `v` in four bytes, highest first, in front of `rest`.
unfoldable pub put32 : ℕ → Bytes → Bytes
put32 v rest = (v / 2 ^ 24) ∷ (v / 2 ^ 16 % 2 ^ 8) ∷ (v / 2 ^ 8 % 2 ^ 8) ∷ (v % 2 ^ 8) ∷ rest

unfoldable pub put64 : ℕ → Bytes → Bytes
unfolding put32
put64 v rest = put32 (v / 2 ^ 32) (put32 (v % 2 ^ 32) rest)

-- Loading four bytes on the host and swapping them reads them in network order.
pub ntohl-le32 :
    (b₀ b₁ b₂ b₃ : ℕ)
    → IsByte b₀
    → IsByte b₁
    → IsByte b₂
    → IsByte b₃
    → ntohl (le32 b₀ b₁ b₂ b₃) ≡ b₀ * 2 ^ 24 + b₁ * 2 ^ 16 + b₂ * 2 ^ 8 + b₃
unfolding ntohl le32
ntohl-le32 b₀ b₁ b₂ b₃ h₀ h₁ h₂ h₃ = omega arith

pub ntohl-le32_of_word :
    (v : ℕ)
    → IsU32 v
    → ntohl (le32 (v / 2 ^ 24) (v / 2 ^ 16 % 2 ^ 8) (v / 2 ^ 8 % 2 ^ 8) (v % 2 ^ 8)) ≡ v
unfolding ntohl le32
ntohl-le32_of_word v h = omega arith

pub ntohl-IsU32 : (v : ℕ) → IsU32 v → IsU32 (ntohl v)
unfolding ntohl
ntohl-IsU32 v h = omega arith

pub ntohl-ntohl : (v : ℕ) → IsU32 v → ntohl (ntohl v) ≡ v
unfolding ntohl
ntohl-ntohl v h = omega arith
