-- ===== src/Util/Addresses.antt =====
-- The texts of addresses that num_to_ip of src/util.c writes, read by ip_to_num.
use sflow_toolkit.Base.{
  ℕ, zero, suc, ◌+◌, ◌-◌, ◌*◌, ◌/◌, ◌%◌, ◌^◌, ◌<◌, ◌≤◌, some, [], ◌∷◌, ◌≡◌, refl, ◌∙◌, ap, ◌==◌,
  ltb, true, false, arith, length, Bool-cases, inl, inr, sym, ltb→lt,
}
use sflow_toolkit.Base.Results.{ok, and_then}
use sflow_toolkit.Bytes.{Bytes}
use sflow_toolkit.Util.{
  is_digit, is_space, skip_space, scan_digits, scan_sign, signed32, scan_number, scan_behind,
  scan_u, ip_to_num, print_decimal, num_to_ip,
}

IsDigit : ℕ → Type 0
IsDigit c = (48 ≤ c) × (c ≤ 57)

is_digit-IsDigit : (c : ℕ) → IsDigit c → is_digit c ≡ true
unfolding IsDigit
is_digit-IsDigit c (low, high) = ground arith

scan_digits-step :
    (acc c : ℕ) (s : Bytes)
    → IsDigit c
    → scan_digits acc (c ∷ s) ≡ scan_digits (acc * 10 + (c - 48)) s
unfolding scan_digits
scan_digits-step acc c s d = rw (is_digit-IsDigit c d) refl

print_decimal-short :
    (k v : ℕ) (rest : Bytes) → v < 10 → print_decimal (suc k) v rest ≡ (48 + v) ∷ rest
unfolding print_decimal
print_decimal-short k v rest lt = let short : ltb v 10 ≡ true = ground arith in rw short refl

print_decimal-long :
    (k v : ℕ) (rest : Bytes)
    → 10 ≤ v
    → print_decimal (suc k) v rest ≡ print_decimal k (v / 10) ((48 + v % 10) ∷ rest)
unfolding print_decimal
print_decimal-long k v rest le = let long : ltb v 10 ≡ false = ground arith in rw long refl

scan_digits-print_decimal :
    (k v : ℕ) (rest : Bytes)
    → v < 10 ^ suc k
    → scan_digits 0 (print_decimal (suc k) v rest) ≡ scan_digits v rest
unfolding IsDigit
scan_digits-print_decimal zero v rest small = rw (print_decimal-short 0 v rest small) (
    scan_digits-step 0 (48 + v) rest (omega arith, omega arith)
    ∙ ap (λ n. scan_digits n rest) (omega arith))
scan_digits-print_decimal (suc k) v rest small = elim (Bool-cases (ltb v 10)) [
  | inl short ↦
      let lt = ltb→lt v 10 short in
      rw (print_decimal-short (suc k) v rest lt) (
        scan_digits-step 0 (48 + v) rest (omega arith, omega arith)
        ∙ ap (λ n. scan_digits n rest) (omega arith))
  | inr long ↦ rw (print_decimal-long (suc k) v rest (ground arith)) (
      scan_digits-print_decimal k (v / 10) ((48 + v % 10) ∷ rest) (omega arith)
      ∙ scan_digits-step (v / 10) (48 + v % 10) rest (omega arith, omega arith)
      ∙ ap (λ n. scan_digits n rest) (omega arith))
]

print_decimal-head :
    (k v : ℕ) (rest : Bytes)
    → v < 10 ^ suc k
    → (c : ℕ) × (s : Bytes) × (print_decimal (suc k) v rest ≡ c ∷ s) × IsDigit c
unfolding IsDigit
print_decimal-head zero v rest small =
    (48 + v, rest, print_decimal-short 0 v rest small, (omega arith, omega arith))
print_decimal-head (suc k) v rest small = elim (Bool-cases (ltb v 10)) [
  | inl short ↦
      let lt = ltb→lt v 10 short in
      (48 + v, rest, print_decimal-short (suc k) v rest lt, (omega arith, omega arith))
  | inr long ↦
      let (c, s, e, d) = print_decimal-head k (v / 10) ((48 + v % 10) ∷ rest) (omega arith) in
      (c, s, print_decimal-long (suc k) v rest (ground arith) ∙ e, d)
]

-- The text behind a number does not go on with a digit.
abbrev pub Stops : Bytes → Type 0
Stops rest = (v : ℕ) → scan_digits v rest ≡ (v, rest)

scan_number-digits :
    (c v : ℕ) (s rest : Bytes)
    → IsDigit c
    → scan_digits 0 (c ∷ s) ≡ (v, rest)
    → scan_number (c ∷ s) ≡ some (v, rest)
unfolding scan_number
scan_number-digits c v s rest d all =
    rw (is_digit-IsDigit c d) (ap some (sym (scan_digits-step 0 c s d) ∙ all))

scan_u-digits :
    (c v : ℕ) (s rest : Bytes)
    → IsDigit c
    → scan_digits 0 (c ∷ s) ≡ (v, rest)
    → v < 2 ^ 32
    → scan_u (c ∷ s) ≡ some (v, rest)
unfolding IsDigit scan_u scan_behind skip_space scan_sign signed32
scan_u-digits c v s rest (low, high) all small =
    let solid : is_space c ≡ false = ground arith in
    let minus : (c == b'-') ≡ false = ground arith in
    let plus : (c == b'+') ≡ false = ground arith in
    let skipped : skip_space (c ∷ s) ≡ c ∷ s = rw solid refl in
    let unsigned : scan_sign (c ∷ s) ≡ (false, c ∷ s) = rw minus (rw plus refl) in
    let number : scan_number (c ∷ s) ≡ some (v, rest) =
      scan_number-digits c v s rest (low, high) all in
    let value : v % 2 ^ 32 ≡ v = omega arith in
    let behind : scan_behind (false, c ∷ s) ≡ some (v, rest) =
      rw (number, scan_behind) (rw value refl) in
    ap (λ t. scan_behind (scan_sign t)) skipped ∙ ap scan_behind unsigned ∙ behind

pub scan_u-print_decimal :
    (k v : ℕ) (rest : Bytes)
    → v < 10 ^ suc k
    → v < 2 ^ 32
    → Stops rest
    → scan_u (print_decimal (suc k) v rest) ≡ some (v, rest)
scan_u-print_decimal k v rest digits small stops =
    let (c, s, e, d) = print_decimal-head k v rest digits in
    let all : scan_digits 0 (c ∷ s) ≡ (v, rest) =
      ap (scan_digits 0) (sym e) ∙ scan_digits-print_decimal k v rest digits ∙ stops v in
    ap scan_u e ∙ scan_u-digits c v s rest d all small

-- Where a number is printed, a number is read.
pub scan_number-print_decimal :
    (k v : ℕ) (rest : Bytes)
    → v < 10 ^ suc k
    → Stops rest
    → scan_number (print_decimal (suc k) v rest) ≡ some (v, rest)
scan_number-print_decimal k v rest digits stops =
    let (c, s, e, d) = print_decimal-head k v rest digits in
    let all : scan_digits 0 (c ∷ s) ≡ (v, rest) =
      ap (scan_digits 0) (sym e) ∙ scan_digits-print_decimal k v rest digits ∙ stops v in
    ap scan_number e ∙ scan_number-digits c v s rest d all

pub length-print_decimal :
    (k v : ℕ) (rest : Bytes) → length (print_decimal k v rest) ≤ k + length rest
unfolding print_decimal
length-print_decimal zero v rest = omega arith
length-print_decimal (suc k) v rest = elim (Bool-cases (ltb v 10)) [
  | inl short ↦ rw short (omega arith)
  | inr long ↦
      let shorter = length-print_decimal k (v / 10) ((48 + v % 10) ∷ rest) in rw long (omega arith)
]

-- The dotted text of every address of 32 bits is read back as the address.
pub ip_to_num-num_to_ip : (num : ℕ) → num < 2 ^ 32 → ip_to_num (num_to_ip num) ≡ ok num
unfolding ip_to_num num_to_ip scan_digits
ip_to_num-num_to_ip num small =
    let dotted : (s : Bytes) → Stops (b'.' ∷ s) = λ s n. refl in
    let ended : Stops [] = λ n. refl in
    let a : ℕ = num / 2 ^ 24 % 2 ^ 8 in
    let b : ℕ = num / 2 ^ 16 % 2 ^ 8 in
    let c : ℕ = num / 2 ^ 8 % 2 ^ 8 in
    let d : ℕ = num % 2 ^ 8 in
    let s₃ : Bytes = print_decimal 3 d [] in
    let s₂ : Bytes = print_decimal 3 c (b'.' ∷ s₃) in
    let s₁ : Bytes = print_decimal 3 b (b'.' ∷ s₂) in
    rw (scan_u-print_decimal 2 a _ (omega arith) (omega arith) (dotted s₁), and_then)
      (rw (scan_u-print_decimal 2 b _ (omega arith) (omega arith) (dotted s₂), and_then)
        (rw (scan_u-print_decimal 2 c _ (omega arith) (omega arith) (dotted s₃), and_then)
          (rw (scan_u-print_decimal 2 d _ (omega arith) (omega arith) ended, and_then)
            (ap ok (omega arith)))))

-- It begins with a digit.
pub num_to_ip-head :
    (num : ℕ) → (c : ℕ) × (s : Bytes) × (num_to_ip num ≡ c ∷ s) × ((48 ≤ c) × (c ≤ 57))
unfolding num_to_ip IsDigit
num_to_ip-head num = print_decimal-head 2 (num / 2 ^ 24 % 2 ^ 8) _ (omega arith)
