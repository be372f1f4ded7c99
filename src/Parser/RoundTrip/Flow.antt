-- ===== src/Parser/RoundTrip/Flow.antt =====
-- Source ids, interfaces and flow samples: the parser reads back what the encoders wrote.
use sflow_toolkit.Base.{
  ℕ, ◌+◌, ◌-◌, ◌*◌, ◌%◌, ◌^◌, ◌≤◌, ◌<◌, ◌≡◌, refl, ap, ◌∙◌, ◌++◌, length, Bool, true, false, arith,
  ◌==◌, ltb, le→ltb, inl, inr, sym, Bool-cases, take_all, take-append_le, length-append, take,
  replicate,
}
use sflow_toolkit.Base.Results.{ok}
use sflow_toolkit.Bytes.{Bytes, put32, IsU32}
use sflow_toolkit.Parser.Readers.{Datagram, at, copy_bytes}
use sflow_toolkit.Parser.Samples.{FlowSample}
use sflow_toolkit.Parser.Counters.{sar32, parse_source_id}
use sflow_toolkit.Parser.Flow.{
  parse_interface, parse_sampled_header, parse_flow_record_header, parse_flow_sample, copied_length,
}
use sflow_toolkit.Parser.Encode.{put_opaque}
use sflow_toolkit.Parser.Encode.Samples.{
  put_pair, FitsPair, FlowRecord, packet, other, put_flow_record, IsFlowRecord, raw_bytes,
  fill_packet, FlowHeader, IsFlowHeader, put_flow_sample, fill_flow,
}
use sflow_toolkit.Parser.RoundTrip.{get_data32-put32, skip_bytes-put_opaque}

module _ (d : Datagram) where
  pub parse_source_id-put_pair :
      (expanded : Bool) (high low : ℕ) (rest : Bytes)
      → FitsPair 24 expanded high low
      → parse_source_id expanded (at d (put_pair 24 expanded high low rest))
        ≡ ok ((high, low), at d rest)
  unfolding parse_source_id put_pair
  parse_source_id-put_pair true high low rest h = simp (get_data32-put32, h.0, h.1)
  parse_source_id-put_pair false high low rest h =
      let word : ℕ = high * 2 ^ 24 + low in
      let small : IsU32 word = omega arith in
      let class : sar32 word 24 ≡ high = unfold sar32 in ground arith in
      let index : word % 2 ^ 24 ≡ low = omega arith in
      rw (get_data32-put32 d word rest small) (λ i. ok ((class i, index i), at d rest))

  pub parse_interface-put_pair :
      (expanded : Bool) (high low : ℕ) (rest : Bytes)
      → FitsPair 30 expanded high low
      → parse_interface expanded (at d (put_pair 30 expanded high low rest))
        ≡ ok ((high, low), at d rest)
  unfolding parse_interface put_pair
  parse_interface-put_pair true high low rest h = simp (get_data32-put32, h.0, h.1)
  parse_interface-put_pair false high low rest h =
      let word : ℕ = high * 2 ^ 30 + low in
      let small : IsU32 word = omega arith in
      let format : sar32 word 30 ≡ high = unfold sar32 in ground arith in
      let value : word % 2 ^ 30 ≡ low = omega arith in
      rw (get_data32-put32 d word rest small) (λ i. ok ((format i, value i), at d rest))

take-copied_length : (head : Bytes) → take (copied_length (length head)) head ≡ take 128 head
unfolding copied_length
take-copied_length head = elim (Bool-cases (ltb (length head) 128)) [
  | inl e ↦
      rw e (take_all (length head) head (omega arith) ∙ sym (take_all 128 head (ground arith)))
  | inr e ↦ rw e refl
]

copied_length_le : (n : ℕ) → copied_length n ≤ n
unfolding copied_length
copied_length_le n = ground arith

zeros_behind : (n : ℕ) → 128 - copied_length n ≡ 128 - n
unfolding copied_length
zeros_behind n = ground arith

module _ (d : Datagram) where
  copy_bytes-put_opaque :
      (head rest : Bytes)
      → copy_bytes (copied_length (length head)) (at d (put_opaque head rest))
        ≡ ok (take 128 head, at d (put_opaque head rest))
  unfolding copy_bytes put_opaque
  copy_bytes-put_opaque head rest =
      let pad : Bytes = replicate ((4 - length head % 4) % 4) 0 in
      let short : ltb (length ((head ++ pad) ++ rest)) (copied_length (length head)) ≡ false =
        le→ltb _ _ (
          omega (
            arith,
            length-append {0} (head ++ pad) rest,
            length-append {0} head pad,
            copied_length_le (length head),
          )) in
      let front : take (copied_length (length head)) ((head ++ pad) ++ rest) ≡ take 128 head =
        take-append_le (copied_length (length head)) (head ++ pad) rest
          (omega (arith, length-append {0} head pad, copied_length_le (length head)))
        ∙ take-append_le (copied_length (length head)) head pad (copied_length_le (length head))
        ∙ take-copied_length head in
      rw short (ap (λ bytes. ok (bytes, at d ((head ++ pad) ++ rest))) front)

  parse_sampled_header-put :
      (s : FlowSample) (protocol frame_length stripped : ℕ) (head rest : Bytes)
      → IsFlowRecord (packet protocol frame_length stripped head)
      → parse_sampled_header s (
          at d (
            put32 protocol
              (put32 frame_length (put32 stripped (put32 (length head) (put_opaque head rest))))))
        ≡ ok (fill_packet (packet protocol frame_length stripped head) s, at d rest)
  unfolding parse_sampled_header fill_packet raw_bytes
  parse_sampled_header-put s protocol frame_length stripped head rest (p, f, t, len) =
      let small : IsU32 (length head) = omega arith in
      let fits : length head + 3 < 2 ^ 32 = omega arith in
      simp (
        get_data32-put32, p, f, t, small, copy_bytes-put_opaque, skip_bytes-put_opaque, fits,
        zeros_behind,
      )

  parse_flow_record_header-put :
      (s : FlowSample) (r : FlowRecord) (rest : Bytes)
      → IsFlowRecord r
      → parse_flow_record_header s (at d (put_flow_record r rest)) ≡ ok (fill_packet r s, at d rest)
  unfolding parse_flow_record_header put_flow_record
  parse_flow_record_header-put s (packet protocol frame_length stripped head) rest h =
      let body : Bytes =
        put32 protocol
          (put32 frame_length (put32 stripped (put32 (length head) (put_opaque head rest)))) in
      rw (get_data32-put32 d 1 (put32 (16 + length head) body) (omega arith)) (
        rw (get_data32-put32 d (16 + length head) body (omega arith))
          (parse_sampled_header-put s protocol frame_length stripped head rest h))
  parse_flow_record_header-put s (other tag body) rest (small, ne, len) =
      let t : (tag == 1) ≡ false = ground arith in
      unfold fill_packet in
      rw (get_data32-put32 d tag (put32 (length body) (put_opaque body rest)) small) (
        rw (get_data32-put32 d (length body) (put_opaque body rest) (omega arith))
          (rw (t, skip_bytes-put_opaque d body rest len) refl))

  -- A flow sample whose fields fit their widths, in either form, with one record behind its
  -- header, is parsed into its fields and the first 128 bytes of the packet, and the cursor stands
  -- behind that record. The number of records that the header announces does not matter.
  pub parse_flow_sample-put :
      (s : FlowSample) (expanded : Bool) (h : FlowHeader) (r : FlowRecord) (rest : Bytes)
      → IsFlowHeader expanded h
      → IsFlowRecord r
      → parse_flow_sample s expanded (at d (put_flow_sample expanded h r rest))
        ≡ ok (fill_flow h r s, at d rest)
  unfolding parse_flow_sample put_flow_sample fill_flow
  parse_flow_sample-put s expanded h r rest is record_is = simp (
    get_data32-put32, parse_source_id-put_pair, parse_interface-put_pair,
    parse_flow_record_header-put, is.sequence_number, is.source_id, is.sampling_rate,
    is.sample_pool, is.drops, is.input, is.output, is.num_elements, record_is,
  )
