-- ===== src/Parser/Bounds.antt =====
-- How far the parser reads, and what it leaves alone, on any bytes at all.
pub mod Received
pub mod Samples
use sflow_toolkit.Base.{
  ℕ, zero, suc, ◌+◌, ◌-◌, ◌*◌, ◌/◌, ◌%◌, ◌^◌, ◌≤◌, ◌<◌, ◌≡◌, refl, ap, sym, ◌∙◌, Option, some, none,
  List, [], ◌∷◌, length, drop, length-drop, Bool, true, false, arith, ◌==◌, ◌||◌, if◌then◌else◌,
  Bool-cases, ◌⊎◌, inl, inr, ltb,
}
use sflow_toolkit.Base.Results.{Result, ok, fault, and_then, >>=-eq_ok}
use sflow_toolkit.Bytes.{Bytes, ntohl}
use sflow_toolkit.Parser.Readers.{
  Datagram, Cmd, pure, at, ◌>>=◌, ◌>>◌, load32, get_data32, get_data64, skip_bytes, copy_bytes,
}
use sflow_toolkit.Parser.Samples.{FlowSample, CntrSample}
use sflow_toolkit.Parser.Counters.{
  parse_counters_generic, parse_counters_ethernet, parse_counter_record_header,
  parse_counter_records, parse_source_id, parse_counter_sample,
}
use sflow_toolkit.Parser.Flow.{
  parse_sampled_header, parse_flow_record_header, parse_interface, parse_flow_sample,
}

-- A run that ends without a fault moved the cursor by at least `n` bytes, all inside the buffer.
abbrev pub Took : {A : Type 0} → ℕ → Datagram → Result (A × Datagram) → Type 0
Took n d (ok (a, d')) = length d'.cursor + n ≤ length d.cursor
Took n d (fault e) = Unit {0}

-- Every run of the command takes at least `n` bytes.
pub record Takes {A : Type 0} (n : ℕ) (m : Cmd A) : Type 0 where
  pub took : (d : Datagram) → Took n d (m d)

Took-further :
    {B : Type 0} (n m : ℕ) (d d' : Datagram) (r : Result (B × Datagram))
    → length d'.cursor + n ≤ length d.cursor
    → Took m d' r
    → Took (n + m) d r
Took-further n m d d' (ok (b, d'')) h t = omega arith
Took-further n m d d' (fault e) h t = tt

module _ {A B : Type 0} where
  Took-and_then :
      (n m : ℕ) (d : Datagram) (r : Result (A × Datagram)) (f : A → Cmd B)
      → Took n d r
      → ((a : A) → Takes m (f a))
      → Took (n + m) d (and_then r λ p. f p.0 p.1)
  Took-and_then n m d (fault e) f h k = tt
  Took-and_then n m d (ok (a, d')) f h k = Took-further n m d d' (f a d') h ((k a).took d')

  pub Takes-bind :
      {n m : ℕ} {c : Cmd A} {f : A → Cmd B}
      → Takes n c
      → ((a : A) → Takes m (f a))
      → Takes (n + m) (c >>= f)
  Takes-bind {n} {m} {c} {f} h k = record { took = λ d. Took-and_then n m d (c d) f (h.took d) k }

module _ {A : Type 0} where
  pub Takes-pure : (a : A) → Takes 0 (pure a)
  Takes-pure a = record { took = λ d. omega arith }

  Took-less : (m n : ℕ) (d : Datagram) (r : Result (A × Datagram)) → m ≤ n → Took n d r → Took m d r
  Took-less m n d (ok (a, d')) le h = omega arith
  Took-less m n d (fault e) le h = tt

  pub Takes-less : (m n : ℕ) {c : Cmd A} → m ≤ n → Takes n c → Takes m c
  Takes-less m n {c} le h = record { took = λ d. Took-less m n d (c d) le (h.took d) }

  pub Takes-if :
      {n : ℕ} (b : Bool) {c e : Cmd A} → Takes n c → Takes n e → Takes n (if b then c else e)
  Takes-if true h k = h
  Takes-if false h k = k

pub Took-load32 :
    (g : ℕ → ℕ) (d : Datagram) (bytes : Bytes)
    → d.cursor ≡ bytes
    → Took 4 d (and_then (load32 bytes) λ p. ok (g p.0, at d p.1))
unfolding load32
Took-load32 g d [] e = tt
Took-load32 g d (a ∷ []) e = tt
Took-load32 g d (a ∷ b ∷ []) e = tt
Took-load32 g d (a ∷ b ∷ c ∷ []) e = tt
Took-load32 g d (a ∷ b ∷ c ∷ x ∷ rest) e = omega (arith, ap (λ (l : Bytes). length l) e)

pub Takes-get_data32 : Takes 4 get_data32
unfolding get_data32
Takes-get_data32 = record { took = λ d. Took-load32 ntohl d d.cursor refl }

Takes-get_data64 : Takes 8 get_data64
unfolding get_data64
Takes-get_data64 = Takes-bind Takes-get_data32 λ hi. Takes-bind Takes-get_data32 λ lo. Takes-pure _

pub Takes-skip_bytes : (n : ℕ) → Takes 0 (skip_bytes n)
unfolding skip_bytes
Takes-skip_bytes n = record {
  took = λ d. omega (arith, length-drop (4 * ((n + 3) % 2 ^ 32 / 4)) d.cursor);
}

pub Takes-copy_bytes : (n : ℕ) → Takes 0 (copy_bytes n)
unfolding copy_bytes
Takes-copy_bytes n = record { took = λ d. Took-copy d (Bool-cases (ltb (length d.cursor) n)) }
  where
    Took-copy :
        (d : Datagram)
        → (ltb (length d.cursor) n ≡ true) ⊎ (ltb (length d.cursor) n ≡ false)
        → Took 0 d (copy_bytes n d)
    Took-copy d (inl e) = rw e tt
    Took-copy d (inr e) = rw e (omega arith)

module _ {B : Type 0} {m : ℕ} {f : ℕ → Cmd B} where
  pub Takes-word : ((a : ℕ) → Takes m (f a)) → Takes (4 + m) (get_data32 >>= f)
  Takes-word h = Takes-bind Takes-get_data32 h

  pub Takes-long : ((a : ℕ) → Takes m (f a)) → Takes (8 + m) (get_data64 >>= f)
  Takes-long h = Takes-bind Takes-get_data64 h
