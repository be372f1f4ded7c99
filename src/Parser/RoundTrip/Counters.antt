-- ===== src/Parser/RoundTrip/Counters.antt =====
-- Counter samples: the parser reads back what the encoders wrote.
use sflow_toolkit.Base.{◌≡◌, refl, List, [], ◌∷◌, length, All, arith, ◌==◌, false}
use sflow_toolkit.Base.Results.{ok}
use sflow_toolkit.Bytes.{Bytes, put32}
use sflow_toolkit.Parser.Readers.{Datagram, at}
use sflow_toolkit.Parser.Samples.{CntrSample, GenericCounters, EthernetCounters}
use sflow_toolkit.Parser.Counters.{
  parse_counters_generic, parse_counters_ethernet, parse_counter_record_header,
  parse_counter_records,
}
use sflow_toolkit.Parser.Encode.{
  put_generic, put_ethernet, IsGeneric, IsEthernet, CounterRecord, generic, ethernet, other,
  IsCounterRecord, put_counter_record, put_counter_records, put_opaque,
}
use sflow_toolkit.Parser.RoundTrip.{get_data32-put32, get_data64-put64, skip_bytes-put_opaque}

module _ (d : Datagram) (s : CntrSample) where
  -- Generic interface counters that fit their widths are read back, and nothing else of the sample
  -- changes.
  pub parse_counters_generic-put_generic :
      (g : GenericCounters) (rest : Bytes)
      → IsGeneric g
      → parse_counters_generic s (at d (put_generic g rest))
        ≡ ok (record s { generic = g }, at d rest)
  unfolding parse_counters_generic put_generic
  parse_counters_generic-put_generic g rest h = simp (
    get_data32-put32, get_data64-put64, h.if_index, h.if_type, h.if_speed, h.if_direction,
    h.if_status, h.in_octets, h.in_ucast_pkts, h.in_mcast_pkts, h.in_bcast_pkts, h.in_discards,
    h.in_errors, h.in_unknown_proto, h.out_octets, h.out_ucast_pkts, h.out_mcast_pkts,
    h.out_bcast_pkts, h.out_discards, h.out_errors, h.promisc,
  )

  -- Ethernet counters that fit their widths are read back, and nothing else of the sample changes.
  pub parse_counters_ethernet-put_ethernet :
      (e : EthernetCounters) (rest : Bytes)
      → IsEthernet e
      → parse_counters_ethernet s (at d (put_ethernet e rest))
        ≡ ok (record s { ethernet = e }, at d rest)
  unfolding parse_counters_ethernet put_ethernet
  parse_counters_ethernet-put_ethernet e rest h = simp (
    get_data32-put32, h.alignment_errors, h.fcs_errors, h.single_collision_frames,
    h.multiple_collision_frames, h.sqe_test_errors, h.deferred_transmissions, h.late_collisions,
    h.excessive_collisions, h.internal_mac_transmit_errors, h.carrier_sense_errors,
    h.frame_too_longs, h.internal_mac_receive_errors, h.symbol_errors,
  )

-- What a record does to the sample that is being filled.
unfoldable pub fill_counters : CounterRecord → CntrSample → CntrSample
fill_counters (generic g) s = record s { generic = g }
fill_counters (ethernet e) s = record s { ethernet = e }
fill_counters (other tag body) s = s

unfoldable pub fill_all : List CounterRecord → CntrSample → CntrSample
fill_all [] s = s
fill_all (r ∷ rs) s = fill_all rs (fill_counters r s)

module _ (d : Datagram) where
  parse_counter_record_header-put :
      (s : CntrSample) (r : CounterRecord) (rest : Bytes)
      → IsCounterRecord r
      → parse_counter_record_header s (at d (put_counter_record r rest))
        ≡ ok (fill_counters r s, at d rest)
  unfolding parse_counter_record_header put_counter_record fill_counters
  parse_counter_record_header-put s (generic g) rest h =
      rw (get_data32-put32 d 1 (put32 88 (put_generic g rest)) (omega arith)) (
        rw (get_data32-put32 d 88 (put_generic g rest) (omega arith))
          (parse_counters_generic-put_generic d s g rest h))
  parse_counter_record_header-put s (ethernet e) rest h =
      rw (get_data32-put32 d 2 (put32 52 (put_ethernet e rest)) (omega arith)) (
        rw (get_data32-put32 d 52 (put_ethernet e rest) (omega arith))
          (parse_counters_ethernet-put_ethernet d s e rest h))
  parse_counter_record_header-put s (other tag body) rest (small, ne_generic, ne_ethernet, len) =
      let g : (tag == 1) ≡ false = ground arith in
      let e : (tag == 2) ≡ false = ground arith in
      rw (get_data32-put32 d tag (put32 (length body) (put_opaque body rest)) small) (
        rw (get_data32-put32 d (length body) (put_opaque body rest) (omega arith))
          (rw (g, e, skip_bytes-put_opaque d body rest len) refl))

  -- Counter records of both kinds and of unknown ones, whose values fit their widths, are parsed
  -- in their order: each known one sets its group of counters, an unknown one is skipped, and the
  -- cursor stands behind the last one.
  pub parse_counter_records-put :
      (s : CntrSample) (rs : List CounterRecord) (rest : Bytes)
      → All IsCounterRecord rs
      → parse_counter_records (length rs) s (at d (put_counter_records rs rest))
        ≡ ok (fill_all rs s, at d rest)
  unfolding parse_counter_records put_counter_records fill_all
  parse_counter_records-put s [] rest h = refl
  parse_counter_records-put s (r ∷ rs) rest h =
      rw (parse_counter_record_header-put s r (put_counter_records rs rest) h.0)
        (parse_counter_records-put (fill_counters r s) rs rest h.1)
