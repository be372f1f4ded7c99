-- ===== src/Parser/Counters.antt =====
-- Counter samples of src/sflowparser.c: `parseCountersGeneric`, `parseCountersEthernet`,
-- `parseCounterRecordHeader` and `parseCounterSample`. The sample that a function fills through its
-- pointer is an argument, and the filled sample the result. The optional printing is left out.
use sflow_toolkit.Base.{
  ℕ, zero, suc, ◌+◌, ◌-◌, ◌/◌, ◌%◌, ◌^◌, ◌==◌, ltb, if◌then◌else◌, Bool, true, false,
}
use sflow_toolkit.Parser.Readers.{Cmd, pure, ◌>>=◌, ◌>>◌, get_data32, get_data64, skip_bytes}
use sflow_toolkit.Parser.Samples.{CntrSample}

abbrev pub counters_generic : ℕ
counters_generic = 1

abbrev pub counters_ethernet : ℕ
counters_ethernet = 2

-- `x >> k` of an `int` with the bits of `x`: the sign bit is copied in.
unfoldable pub sar32 : ℕ → ℕ → ℕ
sar32 x k = if ltb x (2 ^ 31) then x / 2 ^ k else x / 2 ^ k + (2 ^ 32 - 2 ^ (32 - k))

unfoldable pub parse_counters_generic : CntrSample → Cmd CntrSample
parse_counters_generic s = do
  index ← get_data32
  type ← get_data32
  speed ← get_data64
  direction ← get_data32
  status ← get_data32
  in_octets ← get_data64
  in_ucast ← get_data32
  in_mcast ← get_data32
  in_bcast ← get_data32
  in_discards ← get_data32
  in_errors ← get_data32
  in_unknown ← get_data32
  out_octets ← get_data64
  out_ucast ← get_data32
  out_mcast ← get_data32
  out_bcast ← get_data32
  out_discards ← get_data32
  out_errors ← get_data32
  promisc ← get_data32
  pure (record s {
    generic = record {
      if_index = index;
      if_type = type;
      if_speed = speed;
      if_direction = direction;
      if_status = status;
      in_octets = in_octets;
      in_ucast_pkts = in_ucast;
      in_mcast_pkts = in_mcast;
      in_bcast_pkts = in_bcast;
      in_discards = in_discards;
      in_errors = in_errors;
      in_unknown_proto = in_unknown;
      out_octets = out_octets;
      out_ucast_pkts = out_ucast;
      out_mcast_pkts = out_mcast;
      out_bcast_pkts = out_bcast;
      out_discards = out_discards;
      out_errors = out_errors;
      promisc = promisc;
    };
  })

unfoldable pub parse_counters_ethernet : CntrSample → Cmd CntrSample
parse_counters_ethernet s = do
  alignment ← get_data32
  fcs ← get_data32
  single ← get_data32
  multiple ← get_data32
  sqe ← get_data32
  deferred ← get_data32
  late ← get_data32
  excessive ← get_data32
  mac_transmit ← get_data32
  carrier ← get_data32
  too_longs ← get_data32
  mac_receive ← get_data32
  symbol ← get_data32
  pure (record s {
    ethernet = record {
      alignment_errors = alignment;
      fcs_errors = fcs;
      single_collision_frames = single;
      multiple_collision_frames = multiple;
      sqe_test_errors = sqe;
      deferred_transmissions = deferred;
      late_collisions = late;
      excessive_collisions = excessive;
      internal_mac_transmit_errors = mac_transmit;
      carrier_sense_errors = carrier;
      frame_too_longs = too_longs;
      internal_mac_receive_errors = mac_receive;
      symbol_errors = symbol;
    };
  })

unfoldable pub parse_counter_record_header : CntrSample → Cmd CntrSample
parse_counter_record_header s = do
  tag ← get_data32
  length ← get_data32
  if tag == counters_generic
      then parse_counters_generic s
      else if tag == counters_ethernet
      then parse_counters_ethernet s
      else do skip_bytes length; pure s

-- `for( ; i<s.num_elements ; i++ )`, on the rounds that are left.
unfoldable pub parse_counter_records : ℕ → CntrSample → Cmd CntrSample
parse_counter_records zero s = pure s
parse_counter_records (suc n) s = do s' ← parse_counter_record_header s; parse_counter_records n s'

-- The class and index of a data source, in two words or packed into one `int`.
unfoldable pub parse_source_id : Bool → Cmd (ℕ × ℕ)
unfolding sar32
parse_source_id true = do ds_class ← get_data32; ds_index ← get_data32; pure (ds_class, ds_index)
parse_source_id false = do tmp ← get_data32; pure (sar32 tmp 24, tmp % 2 ^ 24)

unfoldable pub parse_counter_sample : CntrSample → Bool → Cmd CntrSample
unfolding parse_source_id
parse_counter_sample s expanded = do
  sequence_number ← get_data32
  (ds_class, ds_index) ← parse_source_id expanded
  num_elements ← get_data32
  parse_counter_records num_elements (record s {
    sequence_number = sequence_number;
    source_id_type = ds_class;
    source_id_index = ds_index;
  })
