-- ===== src/Messaging/Delivery.antt =====
-- What is sent on the queue of src/messaging.c and what is received.
use mathlib.Core.List.{append-nil, append_assoc}
use sflow_toolkit.Base.{
  ℕ, zero, suc, ◌+◌, ◌-◌, ◌%◌, ◌^◌, ◌<◌, ◌≤◌, ◌≡◌, refl, sym, ap, ◌∙◌, true, false, none, some,
  List, [], ◌∷◌, ◌++◌, ltb, leb, ◌==◌, length, replicate, All, arith, take_all, length-append,
  lt→ltb, le→ltb, Bool-cases, inl, inr,
}
use sflow_toolkit.Base.Results.{Result, ok, and_then, ◌>>=◌}
use sflow_toolkit.Bytes.{Bytes}
use sflow_toolkit.Util.{
  is_space, skip_space, scan_u, scan_digits, scan_sign, scan_behind, scan_number, signed32, matched,
  print_decimal, c_string, print_i, print_u,
}
use sflow_toolkit.Util.Addresses.{
  Stops, scan_u-print_decimal, scan_number-print_decimal, length-print_decimal,
}
use sflow_toolkit.Agentlist.{strncpy}
use sflow_toolkit.Messaging.{
  Msg, message_text, mq_timedsend, send_msg, split_word, scan_word, nonempty_word, parse_message,
  recv_msg,
}

-- Bytes of a file name: behind the space in the order of the codes.
abbrev pub IsNameByte : ℕ → Type 0
IsNameByte c = 33 ≤ c

-- A message with the file name `name` in its array.
pub record IsMsg (name : Bytes) (m : Msg) : Type 0 where
  pub agent : m.agent < 2 ^ 32
  pub timestamp : m.timestamp < 2 ^ 32
  pub type : m.type < 2 ^ 32
  pub filename : m.filename ≡ strncpy 256 name
  pub bytes : All IsNameByte name
  pub nonempty : 0 < length name
  pub short : length name ≤ 234

c_string-append :
    (name : Bytes) (k : ℕ)
    → All IsNameByte name
    → 0 < k
    → c_string (name ++ replicate k 0) ≡ ok name
unfolding c_string
c_string-append [] zero all pos = absurd (omega arith)
c_string-append [] (suc k) all pos = refl
c_string-append (c ∷ name) k (byte, all) pos =
    let solid : (c == 0) ≡ false = ground arith in
    rw solid (rw (c_string-append name k all pos, and_then) refl)

pub c_string-strncpy :
    (name : Bytes) → All IsNameByte name → length name ≤ 255 → c_string (strncpy 256 name) ≡ ok name
unfolding strncpy
c_string-strncpy name all short =
    rw (take_all 256 name (omega arith))
      (c_string-append name (256 - length name) all (omega arith))

split_word-append :
    (name rest : Bytes)
    → All IsNameByte name
    → split_word (name ++ (b' ' ∷ rest)) ≡ (name, b' ' ∷ rest)
unfolding split_word
split_word-append [] rest all = refl
split_word-append (c ∷ name) rest (byte, all) =
    let solid : is_space c ≡ false = ground arith in
    rw solid (rw (split_word-append name rest all) refl)

scan_word-append :
    (name rest : Bytes)
    → All IsNameByte name
    → 0 < length name
    → scan_word (b' ' ∷ (name ++ (b' ' ∷ rest))) ≡ some (name, b' ' ∷ rest)
unfolding scan_word nonempty_word skip_space
scan_word-append [] rest all pos = absurd (omega arith)
scan_word-append (c ∷ name) rest (byte, all) pos =
    let solid : is_space c ≡ false = ground arith in
    let split : split_word (c ∷ (name ++ (b' ' ∷ rest))) ≡ (c ∷ name, b' ' ∷ rest) =
      split_word-append (c ∷ name) rest (byte, all) in
    rw solid (rw (split, nonempty_word) refl)

Stops-space : (rest : Bytes) → Stops (b' ' ∷ rest)
unfolding scan_digits
Stops-space rest v = refl

scan_u-space : (s : Bytes) → scan_u (b' ' ∷ s) ≡ scan_u s
unfolding scan_u skip_space
scan_u-space s = refl

scan_u-print_u :
    (v : ℕ) (rest : Bytes) → v < 2 ^ 32 → scan_u (print_u v (b' ' ∷ rest)) ≡ some (v, b' ' ∷ rest)
unfolding print_u
scan_u-print_u v rest small =
    scan_u-print_decimal 9 v (b' ' ∷ rest) (omega arith) small (Stops-space rest)

scan_u-minus :
    (v w : ℕ) (s : Bytes)
    → scan_number s ≡ some (w, [])
    → (2 ^ 32 - w % 2 ^ 32) % 2 ^ 32 ≡ v
    → scan_u (b'-' ∷ s) ≡ some (v, [])
unfolding scan_u skip_space scan_sign scan_behind signed32
scan_u-minus v w s number value = rw (number, scan_behind) (ap (λ n. some (n, [])) value)

-- A number of 32 bits that is printed with its sign is read back as the number without one.
scan_u-print_i : (v : ℕ) → v < 2 ^ 32 → scan_u (print_i v []) ≡ some (v, [])
unfolding print_i scan_digits
scan_u-print_i v small = elim (Bool-cases (ltb v (2 ^ 31))) [
  | inl low ↦ rw low (scan_u-print_decimal 9 v [] (omega arith) small (λ n. refl))
  | inr high ↦
      let le : 2 ^ 31 ≤ v = ground arith in
      let w : ℕ = 2 ^ 32 - v in
      rw high (
        scan_u-minus v w (print_decimal 10 w [])
          (scan_number-print_decimal 9 w [] (omega arith) (λ n. refl)) (omega arith))
]

length-print_i : (v : ℕ) → length (print_i v []) ≤ 11
unfolding print_i
length-print_i v = elim (Bool-cases (ltb v (2 ^ 31))) [
  | inl low ↦ rw low (omega (arith, length-print_decimal 10 v []))
  | inr high ↦ rw high (omega (arith, length-print_decimal 10 (2 ^ 32 - v) []))
]

-- The text of such a message.
abbrev pub text_of : Bytes → Msg → Bytes
text_of name m =
    print_u m.agent (b' ' ∷ print_u m.timestamp (b' ' ∷ (name ++ (b' ' ∷ print_i m.type []))))

module _ (name : Bytes) (m : Msg) (is : IsMsg name m) where
  message_text-text_of : message_text m ≡ ok (text_of name m)
  unfolding message_text
  message_text-text_of =
      rw is.filename (rw (c_string-strncpy name is.bytes (omega (arith, is.short)), and_then) refl)

  -- It fits into a message of the queue.
  length-text_of : length (text_of name m) ≤ 268
  unfolding print_u
  length-text_of = omega (
    arith,
    is.short,
    length-print_i m.type,
    length-append name (b' ' ∷ print_i m.type []),
    length-print_decimal 10 m.timestamp (b' ' ∷ (name ++ (b' ' ∷ print_i m.type []))),
    length-print_decimal 10 m.agent
        (b' ' ∷ print_decimal 10 m.timestamp (b' ' ∷ (name ++ (b' ' ∷ print_i m.type [])))),
  )

  pub parse_message-text_of : parse_message (text_of name m) ≡ ok m
  unfolding parse_message matched
  parse_message-text_of =
      let s₃ : Bytes = b' ' ∷ print_i m.type [] in
      let s₂ : Bytes = b' ' ∷ (name ++ s₃) in
      let s₁ : Bytes = b' ' ∷ print_u m.timestamp s₂ in
      rw (scan_u-print_u m.agent _ is.agent, and_then)
        (rw
          (
            scan_u-space (print_u m.timestamp s₂),
            scan_u-print_u m.timestamp _ is.timestamp,
            and_then,
          )
          (rw (scan_word-append name (print_i m.type []) is.bytes is.nonempty, and_then)
            (rw (lt→ltb (length name) 256 (omega (arith, is.short))) (
              rw (scan_u-space (print_i m.type []), scan_u-print_i m.type is.type, and_then)
                (ap (λ f. ok (record m { filename = f })) (sym is.filename))))))

  pub send_msg-text_of :
      (q : List Bytes) → length q < 8192 → send_msg m q ≡ ok (q ++ (text_of name m ∷ []))
  unfolding send_msg mq_timedsend
  send_msg-text_of q room =
      let fits : ltb 268 (length (text_of name m)) ≡ false =
        le→ltb 268 (length (text_of name m)) length-text_of in
      let held : ltb (length (text_of name m)) 512 ≡ true =
        lt→ltb (length (text_of name m)) 512 (omega (arith, length-text_of)) in
      let free : leb 8192 (length q) ≡ false = ground arith in
      rw (message_text-text_of, and_then) (rw held (rw fits (rw free refl)))

  recv_msg-text_of : (q : List Bytes) → recv_msg (text_of name m ∷ q) ≡ some (ok (m, q))
  unfolding recv_msg
  recv_msg-text_of q = rw (parse_message-text_of, and_then) refl

-- The collector sends one message after the other.
abbrev pub send_each : List Msg → List Bytes → Result (List Bytes)
send_each [] q = ok q
send_each (m ∷ ms) q = do q' ← send_msg m q; send_each ms q'

-- The receiver gets these messages, and then waits.
pub data Receives : List Bytes → List Msg → Type 0 where
  waits : {q : List Bytes} → recv_msg q ≡ none → Receives q []
  gets :
      {q q' : List Bytes} {m : Msg} {ms : List Msg}
      → recv_msg q ≡ some (ok (m, q'))
      → Receives q' ms
      → Receives q (m ∷ ms)

abbrev pub IsSent : Msg → Type 0
IsSent m = (name : Bytes) × IsMsg name m

texts : (ms : List Msg) → All IsSent ms → List Bytes
texts [] all = []
texts (m ∷ ms) ((name, is), all) = text_of name m ∷ texts ms all

send_each-texts :
    (ms : List Msg) (all : All IsSent ms) (q : List Bytes)
    → length q + length ms ≤ 8192
    → send_each ms q ≡ ok (q ++ texts ms all)
unfolding texts
send_each-texts [] all q room = ap ok (sym (append-nil q))
send_each-texts (m ∷ ms) ((name, is), all) q room =
    rw (send_msg-text_of name m is q (omega arith), and_then)
      (send_each-texts ms all (q ++ (text_of name m ∷ []))
          (omega (arith, length-append q (text_of name m ∷ [])))
        ∙ ap ok (append_assoc q (text_of name m ∷ []) (texts ms all)))

Receives-texts : (ms : List Msg) (all : All IsSent ms) → Receives (texts ms all) ms
unfolding texts recv_msg
Receives-texts [] all = waits refl
Receives-texts (m ∷ ms) ((name, is), all) =
    gets (recv_msg-text_of name m is (texts ms all)) (Receives-texts ms all)

-- Messages with names of files, at most as many as the queue holds, are all sent when the queue is
-- empty, and the receiver then gets them, unchanged and in the order in which they were sent, before
-- it waits. A name has 1 to 234 bytes, all behind the space; the numbers have 32 bits.
pub send_each-Receives :
    (ms : List Msg)
    → All IsSent ms
    → length ms ≤ 8192
    → (q : List Bytes) × (send_each ms [] ≡ ok q) × Receives q ms
send_each-Receives ms all room =
    (texts ms all, send_each-texts ms all [] (omega arith), Receives-texts ms all)
