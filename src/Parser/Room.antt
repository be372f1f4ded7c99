-- ===== src/Parser/Room.antt =====
-- The commands of the parser that write behind no array: all but those that take a slot of a sample
-- buffer.
pub mod Received
pub mod Samples
use sflow_toolkit.Base.{
  ℕ, zero, suc, ◌≡◌, refl, none, some, Option, List, [], ◌∷◌, length, ◌==◌, Bool, true, false,
  if◌then◌else◌, ◌⊎◌, inl, inr, ltb, take,
}
use sflow_toolkit.Base.Results.{Fault, Result, ok, fault, overrun, overread, null_pointer, and_then}
use sflow_toolkit.Bytes.{Bytes, ntohl}
use sflow_toolkit.Parser.Readers.{
  Datagram, Cmd, pure, at, ◌>>=◌, load32, get_data32, get_data32_nobswap, peek_data32, get_data64,
  skip_bytes, copy_bytes, Address, get_ip_v4, get_ip_v6, get_address, ip_v4, store_ip_v4,
}
use sflow_toolkit.Parser.Samples.{FlowSample, CntrSample}
use sflow_toolkit.Parser.Counters.{
  parse_counters_generic, parse_counters_ethernet, parse_counter_record_header,
  parse_counter_records, parse_source_id, parse_counter_sample,
}
use sflow_toolkit.Parser.Flow.{
  copied_length, parse_sampled_header, parse_flow_record_header, parse_interface, parse_flow_sample,
}

-- The run does not write behind an array, and if it ends its value satisfies `P`.
abbrev pub Spared : {A B : Type 0} → (A → Type 0) → Result (A × B) → Type 0
Spared P (ok (a, b)) = P a
Spared P (fault Fault.overrun) = ⊥
Spared P (fault other) = Unit {0}

pub record Spares {A : Type 0} (P : A → Type 0) (m : Cmd A) : Type 0 where
  pub spares : (d : Datagram) → Spared P (m d)

abbrev pub Any : {A : Type 0} → A → Type 0
Any a = Unit {0}

module _ {A B : Type 0} {P : A → Type 0} {Q : B → Type 0} where
  Spared-and_then :
      (r : Result (A × Datagram)) (f : A → Cmd B)
      → Spared P r
      → ((a : A) → P a → Spares Q (f a))
      → Spared Q (and_then r λ p. f p.0 p.1)
  Spared-and_then (ok (a, d)) f h k = (k a h).spares d
  Spared-and_then (fault Fault.overrun) f h k = h
  Spared-and_then (fault other) f h k = tt

  pub Spares-bind :
      {m : Cmd A} {f : A → Cmd B}
      → Spares P m
      → ((a : A) → P a → Spares Q (f a))
      → Spares Q (m >>= f)
  Spares-bind {m} {f} h k = record { spares = λ d. Spared-and_then (m d) f (h.spares d) k }

module _ {A : Type 0} {P : A → Type 0} where
  pub Spares-pure : (a : A) → P a → Spares P (pure a)
  Spares-pure a p = record { spares = λ d. p }

  pub Spares-if : (b : Bool) {m n : Cmd A} → Spares P m → Spares P n → Spares P (if b then m else n)
  Spares-if true h k = h
  Spares-if false h k = k

pub load32_cases :
    (bytes : Bytes) → (load32 bytes ≡ fault overread) ⊎ ((p : ℕ × Bytes) × (load32 bytes ≡ ok p))
unfolding load32
load32_cases [] = inl refl
load32_cases (a ∷ []) = inl refl
load32_cases (a ∷ b ∷ []) = inl refl
load32_cases (a ∷ b ∷ c ∷ []) = inl refl
load32_cases (a ∷ b ∷ c ∷ e ∷ rest) = inr (_, refl)

pub Spared-load :
    {B C : Type 0} (bytes : Bytes) (f : ℕ × Bytes → B × C)
    → Spared Any (and_then (load32 bytes) λ p. ok (f p))
Spared-load bytes f = elim (load32_cases bytes) [ inl e ↦ rw e tt | inr (p, e) ↦ rw e tt ]

pub Spares-get_data32 : Spares Any get_data32
unfolding get_data32
Spares-get_data32 = record { spares = λ d. Spared-load d.cursor λ p. (ntohl p.0, at d p.1) }

module _ {A : Type 0} {P : A → Type 0} {f : ℕ → Cmd A} where
  pub Spares-word : ((v : ℕ) → Spares P (f v)) → Spares P (get_data32 >>= f)
  Spares-word k = Spares-bind Spares-get_data32 λ v _. k v

Spares-get_data64 : Spares Any get_data64
unfolding get_data64
Spares-get_data64 = Spares-word λ hi. Spares-word λ lo. Spares-pure _ tt

module _ {A : Type 0} {P : A → Type 0} {f : ℕ → Cmd A} where
  pub Spares-long : ((v : ℕ) → Spares P (f v)) → Spares P (get_data64 >>= f)
  Spares-long k = Spares-bind Spares-get_data64 λ v _. k v

pub Spares-skip_bytes : (n : ℕ) → Spares Any (skip_bytes n)
unfolding skip_bytes
Spares-skip_bytes n = record { spares = λ d. tt }

pub Spares-skip :
    {A : Type 0} {P : A → Type 0} (n : ℕ) (a : A) → P a → Spares P (skip_bytes n >>= λ _. pure a)
Spares-skip n a p = Spares-bind (Spares-skip_bytes n) λ _ _. Spares-pure a p

pub Spares-copy_bytes : (n : ℕ) → Spares Any (copy_bytes n)
unfolding copy_bytes
Spares-copy_bytes n = record { spares = λ d. copied d (ltb (length d.cursor) n) }
  where
    copied :
        (d : Datagram) (b : Bool)
        → Spared Any (if b then fault overread else ok (take n d.cursor, d))
    copied d true = tt
    copied d false = tt

Spares-parse_counters_generic : (s : CntrSample) → Spares Any (parse_counters_generic s)
unfolding parse_counters_generic
Spares-parse_counters_generic s = Spares-word λ _. Spares-word λ _. Spares-long λ _.
    Spares-word λ _. Spares-word λ _. Spares-long λ _. Spares-word λ _. Spares-word λ _.
      Spares-word λ _. Spares-word λ _. Spares-word λ _. Spares-word λ _. Spares-long λ _.
        Spares-word λ _.
          Spares-word λ _.
            Spares-word λ _. Spares-word λ _. Spares-word λ _. Spares-word λ _. Spares-pure _ tt

Spares-parse_counters_ethernet : (s : CntrSample) → Spares Any (parse_counters_ethernet s)
unfolding parse_counters_ethernet
Spares-parse_counters_ethernet s = Spares-word λ _. Spares-word λ _. Spares-word λ _.
    Spares-word λ _. Spares-word λ _. Spares-word λ _. Spares-word λ _. Spares-word λ _.
      Spares-word
        λ _. Spares-word λ _. Spares-word λ _. Spares-word λ _. Spares-word λ _. Spares-pure _ tt

Spares-parse_counter_record_header : (s : CntrSample) → Spares Any (parse_counter_record_header s)
unfolding parse_counter_record_header
Spares-parse_counter_record_header s = Spares-word λ tag. Spares-word λ size.
    Spares-if (tag == 1) (Spares-parse_counters_generic s)
      (Spares-if (tag == 2) (Spares-parse_counters_ethernet s) (Spares-skip size s tt))

Spares-parse_counter_records : (n : ℕ) (s : CntrSample) → Spares Any (parse_counter_records n s)
unfolding parse_counter_records
Spares-parse_counter_records zero s = Spares-pure s tt
Spares-parse_counter_records (suc n) s =
    Spares-bind (Spares-parse_counter_record_header s) λ s' _. Spares-parse_counter_records n s'

Spares-parse_source_id : (expanded : Bool) → Spares Any (parse_source_id expanded)
unfolding parse_source_id
Spares-parse_source_id true = Spares-word λ _. Spares-word λ _. Spares-pure _ tt
Spares-parse_source_id false = Spares-word λ _. Spares-pure _ tt

pub Spares-parse_counter_sample :
    (s : CntrSample) (expanded : Bool) → Spares Any (parse_counter_sample s expanded)
unfolding parse_counter_sample
Spares-parse_counter_sample s expanded = Spares-word λ _.
    Spares-bind (Spares-parse_source_id expanded)
      λ id _. Spares-word λ n. Spares-parse_counter_records n _

Spares-parse_sampled_header : (s : FlowSample) → Spares Any (parse_sampled_header s)
unfolding parse_sampled_header
Spares-parse_sampled_header s = Spares-word λ _. Spares-word λ _. Spares-word λ _.
    Spares-word
      λ size. Spares-bind (Spares-copy_bytes (copied_length size)) λ bytes _. Spares-skip size _ tt

Spares-parse_flow_record_header : (s : FlowSample) → Spares Any (parse_flow_record_header s)
unfolding parse_flow_record_header
Spares-parse_flow_record_header s = Spares-word λ tag.
    Spares-word λ size. Spares-if (tag == 1) (Spares-parse_sampled_header s) (Spares-skip size s tt)

Spares-parse_interface : (expanded : Bool) → Spares Any (parse_interface expanded)
unfolding parse_interface
Spares-parse_interface true = Spares-word λ _. Spares-word λ _. Spares-pure _ tt
Spares-parse_interface false = Spares-word λ _. Spares-pure _ tt

pub Spares-parse_flow_sample :
    (s : FlowSample) (expanded : Bool) → Spares Any (parse_flow_sample s expanded)
unfolding parse_flow_sample
Spares-parse_flow_sample s expanded = Spares-word λ _.
    Spares-bind (Spares-parse_source_id expanded) λ id _. Spares-word λ _. Spares-word λ _.
      Spares-word λ _. Spares-bind (Spares-parse_interface expanded) λ input _.
        Spares-bind (Spares-parse_interface expanded)
          λ output _. Spares-word λ _. Spares-parse_flow_record_header _
