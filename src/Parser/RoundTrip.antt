-- ===== src/Parser/RoundTrip.antt =====
-- Parsing what the encoders wrote: the readers on single words and on padded opaque bytes.
pub mod Counters
pub mod Received
pub mod Flow
pub mod Samples
use mathlib.Core.List.{append_assoc}
use sflow_toolkit.Base.{
  ℕ, ◌+◌, ◌-◌, ◌*◌, ◌/◌, ◌%◌, ◌^◌, ◌≤◌, ◌<◌, ◌≡◌, refl, ap, ◌∙◌, ◌++◌, length, replicate, drop,
  length-append, length-replicate, drop-append, arith,
}
use sflow_toolkit.Base.Results.{ok, and_then}
use sflow_toolkit.Bytes.{Bytes, IsU32, IsU64, put32, put64, ntohl-le32_of_word}
use sflow_toolkit.Parser.Readers.{
  Datagram, at, load32, get_data32, peek_data32, get_data64, skip_bytes,
}
use sflow_toolkit.Parser.Encode.{put_opaque}

module _ (d : Datagram) where
  pub get_data32-put32 :
      (v : ℕ) (rest : Bytes) → IsU32 v → get_data32 (at d (put32 v rest)) ≡ ok (v, at d rest)
  unfolding get_data32 put32
  get_data32-put32 v rest h = ap (λ w. ok (w, at d rest)) (ntohl-le32_of_word v h)

  pub peek_data32-put32 :
      (v : ℕ) (rest : Bytes)
      → IsU32 v
      → peek_data32 (at d (put32 v rest)) ≡ ok (v, at d (put32 v rest))
  unfolding peek_data32 put32
  peek_data32-put32 v rest h = ap (λ w. ok (w, at d (put32 v rest))) (ntohl-le32_of_word v h)

  pub get_data64-put64 :
      (v : ℕ) (rest : Bytes) → IsU64 v → get_data64 (at d (put64 v rest)) ≡ ok (v, at d rest)
  unfolding get_data64 put64
  get_data64-put64 v rest h =
      rw (get_data32-put32 (v / 2 ^ 32) (put32 (v % 2 ^ 32) rest) (omega arith)) (
        rw (get_data32-put32 (v % 2 ^ 32) rest (omega arith))
          (ap (λ w. ok (w, at d rest)) (omega arith)))

  pub skip_bytes-put_opaque :
      (body rest : Bytes)
      → length body + 3 < 2 ^ 32
      → skip_bytes (length body) (at d (put_opaque body rest)) ≡ ok (tt, at d rest)
  unfolding skip_bytes put_opaque
  skip_bytes-put_opaque body rest h =
      let padded : Bytes = body ++ replicate ((4 - length body % 4) % 4) 0 in
      let size : 4 * ((length body + 3) % 2 ^ 32 / 4) ≡ length padded = omega (
        arith,
        length-append {0} body (replicate ((4 - length body % 4) % 4) 0),
        length-replicate {A = ℕ} ((4 - length body % 4) % 4) 0,
      ) in
      ap (λ bytes. ok (tt, at d bytes))
        (ap (λ n. drop n (padded ++ rest)) size ∙ drop-append padded rest)
