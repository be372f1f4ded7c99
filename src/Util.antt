-- ===== src/Util.antt =====
-- Texts and numbers: the parts of the C library's atoi, sscanf and sprintf that the code uses, and
-- num_to_ip and ip_to_num of src/util.c. A text is its bytes without the NUL.
pub mod Addresses
pub mod Texts
use Prim.Native.String.{String}
use Prim.Native.Char.{code}
use sflow_toolkit.Base.{
  ℕ, zero, suc, length, ◌+◌, ◌-◌, ◌*◌, ◌/◌, ◌%◌, ◌^◌, Option, none, some, List, [], ◌∷◌, ◌==◌, ltb,
  leb, ◌&&◌, ◌||◌, if◌then◌else◌, Bool, true, false,
}
use sflow_toolkit.Base.Results.{Result, ok, fault, overread, overrun, uninitialised, ◌>>=◌}
use sflow_toolkit.Bytes.{Bytes}

abbrev pub codes : String → Bytes
codes String.[] = []
codes (String.◌∷◌ c s) = code c ∷ codes s

-- The text in an array of bytes, which ends at the first NUL.
unfoldable pub c_string : Bytes → Result Bytes
c_string [] = fault overread
c_string (c ∷ s) = let text = c_string s in if c == 0 then ok [] else (do t ← text; ok (c ∷ t))

-- `strcmp(s, t) == 0`
abbrev pub same : Bytes → Bytes → Bool
same [] [] = true
same [] (d ∷ t) = false
same (c ∷ s) [] = false
same (c ∷ s) (d ∷ t) = c == d && same s t

-- `sprintf` into an array of `size` bytes.
unfoldable pub sprintf : ℕ → Bytes → Result Bytes
sprintf size text = if ltb (length text) size then ok text else fault overrun

abbrev pub is_digit : ℕ → Bool
is_digit c = leb b'0' c && leb c b'9'

abbrev pub is_space : ℕ → Bool
is_space c = c == b' ' || leb 9 c && leb c 13

unfoldable pub skip_space : Bytes → Bytes
skip_space [] = []
skip_space (c ∷ s) = let rest = skip_space s in if is_space c then rest else c ∷ s

-- The digits at the front of a text, read behind the number `acc`.
unfoldable pub scan_digits : ℕ → Bytes → ℕ × Bytes
scan_digits acc [] = (acc, [])
scan_digits acc (c ∷ s) =
    let rest = scan_digits (acc * 10 + (c - b'0')) s in if is_digit c then rest else (acc, c ∷ s)

-- An optional sign: whether it is `-`, and the text behind it.
unfoldable pub scan_sign : Bytes → Bool × Bytes
scan_sign [] = (false, [])
scan_sign (c ∷ s) =
    if c == b'-' then (true, s) else if c == b'+' then (false, s) else (false, c ∷ s)

-- A number of 32 bits and its negative.
unfoldable pub signed32 : Bool → ℕ → ℕ
signed32 negative v = if negative then (2 ^ 32 - v % 2 ^ 32) % 2 ^ 32 else v % 2 ^ 32

-- `atoi(s)`, as the bits of the `int`. A text that does not begin with a number is 0.
unfoldable pub atoi : Bytes → ℕ
unfolding skip_space scan_digits scan_sign signed32
atoi s =
    let signed = scan_sign (skip_space s) in
    let scanned = scan_digits 0 signed.1 in signed32 signed.0 scanned.0

-- At least one digit.
unfoldable pub scan_number : Bytes → Option (ℕ × Bytes)
unfolding scan_digits
scan_number [] = none
scan_number (c ∷ s) = if is_digit c then some (scan_digits 0 (c ∷ s)) else none

unfoldable pub scan_behind : Bool × Bytes → Option (ℕ × Bytes)
unfolding signed32 scan_number
scan_behind (negative, s) = elim (scan_number s) [
  | none ↦ none
  | some (v, rest) ↦ some (signed32 negative v, rest)
]

-- The conversion `%u` of `sscanf`: `none` where the text does not match.
unfoldable pub scan_u : Bytes → Option (ℕ × Bytes)
unfolding skip_space scan_sign scan_behind
scan_u s = scan_behind (scan_sign (skip_space s))

-- A `.` of the format.
unfoldable pub scan_dot : Bytes → Option Bytes
scan_dot [] = none
scan_dot (c ∷ s) = if c == b'.' then some s else none

-- `sscanf` stops at the first mismatch, and the variables behind it are not written; their sum is
-- read all the same.
unfoldable pub matched {ℓ} : {A : Type ℓ} → Option A → Result A
matched none = fault uninitialised
matched (some a) = ok a

unfoldable pub ip_to_num : Bytes → Result ℕ
unfolding matched scan_u scan_dot
ip_to_num s = do
  (a, s₁) ← matched (scan_u s)
  s₂ ← matched (scan_dot s₁)
  (b, s₃) ← matched (scan_u s₂)
  s₄ ← matched (scan_dot s₃)
  (c, s₅) ← matched (scan_u s₄)
  s₆ ← matched (scan_dot s₅)
  (d, s₇) ← matched (scan_u s₆)
  ok ((a * 2 ^ 24 + b * 2 ^ 16 + c * 2 ^ 8 + d) % 2 ^ 32)

-- `sprintf("%i", v)` in front of `rest`, for a number of at most `k` digits.
unfoldable pub print_decimal : ℕ → ℕ → Bytes → Bytes
print_decimal zero v rest = rest
print_decimal (suc k) v rest =
    let longer = print_decimal k (v / 10) ((b'0' + v % 10) ∷ rest) in
    if ltb v 10 then (b'0' + v) ∷ rest else longer

-- `%u` and `%i` of a number of 32 bits.
unfoldable pub print_u : ℕ → Bytes → Bytes
unfolding print_decimal
print_u v rest = print_decimal 10 v rest

unfoldable pub print_i : ℕ → Bytes → Bytes
unfolding print_decimal
print_i v rest =
    if ltb v (2 ^ 31) then print_decimal 10 v rest else b'-' ∷ print_decimal 10 (2 ^ 32 - v) rest

-- `%llu`
unfoldable pub print_llu : ℕ → Bytes → Bytes
unfolding print_decimal
print_llu v rest = print_decimal 20 v rest

-- The four bytes of the number, each below 256.
unfoldable pub num_to_ip : ℕ → Bytes
unfolding print_decimal
num_to_ip num = print_decimal 3 (num / 2 ^ 24 % 2 ^ 8) (
    b'.'
    ∷ print_decimal 3 (num / 2 ^ 16 % 2 ^ 8)
        (b'.' ∷ print_decimal 3 (num / 2 ^ 8 % 2 ^ 8) (b'.' ∷ print_decimal 3 (num % 2 ^ 8) [])))
