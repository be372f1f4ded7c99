-- ===== src/Parser/Signed.antt =====
-- The packed forms of source ids and interfaces whose top bit is set. `parseCounterSample` and
-- `parseFlowSample` of src/sflowparser.c shift an `int` there.
use sflow_toolkit.Base.{ℕ, ◌+◌, ◌-◌, ◌*◌, ◌%◌, ◌^◌, ◌≤◌, ◌<◌, ◌≡◌, false, arith}
use sflow_toolkit.Base.Results.{ok}
use sflow_toolkit.Bytes.{Bytes, IsU32}
use sflow_toolkit.Parser.Readers.{Datagram, at}
use sflow_toolkit.Parser.Counters.{sar32, parse_source_id}
use sflow_toolkit.Parser.Flow.{parse_interface}
use sflow_toolkit.Parser.Encode.Samples.{put_pair}
use sflow_toolkit.Parser.RoundTrip.{get_data32-put32}

module _ (d : Datagram) (high low : ℕ) (rest : Bytes) where
  -- A source class of 128 to 255 in a packed source id is parsed as the class plus 2^32 - 256.
  pub parse_source_id_signed :
      128 ≤ high
      → high < 256
      → low < 2 ^ 24
      → parse_source_id false (at d (put_pair 24 false high low rest))
        ≡ ok ((high + (2 ^ 32 - 256), low), at d rest)
  unfolding parse_source_id put_pair
  parse_source_id_signed from to small =
      let word : ℕ = high * 2 ^ 24 + low in
      let fits : IsU32 word = omega arith in
      let class : sar32 word 24 ≡ high + (2 ^ 32 - 256) = unfold sar32 in ground arith in
      let index : word % 2 ^ 24 ≡ low = omega arith in
      rw (get_data32-put32 d word rest fits) (λ i. ok ((class i, index i), at d rest))

  -- An interface format of 2 or 3 in a packed interface is parsed as the format plus 2^32 - 4.
  pub parse_interface_signed :
      2 ≤ high
      → high < 4
      → low < 2 ^ 30
      → parse_interface false (at d (put_pair 30 false high low rest))
        ≡ ok ((high + (2 ^ 32 - 4), low), at d rest)
  unfolding parse_interface put_pair
  parse_interface_signed from to small =
      let word : ℕ = high * 2 ^ 30 + low in
      let fits : IsU32 word = omega arith in
      let format : sar32 word 30 ≡ high + (2 ^ 32 - 4) = unfold sar32 in ground arith in
      let value : word % 2 ^ 30 ≡ low = omega arith in
      rw (get_data32-put32 d word rest fits) (λ i. ok ((format i, value i), at d rest))
