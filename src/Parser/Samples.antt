-- ===== src/Parser/Samples.antt =====
-- The samples that the collector keeps: `SFSample`, `SFFlowSample` and `SFCntrSample` of
-- src/sflowparser.h. The counters of a counter sample stand in two groups, as its comments have
-- them. The three tag fields of `SFSample` are never written or read.
use sflow_toolkit.Base.{ℕ}
use sflow_toolkit.Bytes.{Bytes}

pub record Sample : Type 0 where
  pub timestamp : ℕ
  pub agent_address : ℕ
  pub sub_agent_id : ℕ

pub record FlowSample : Type 0 where
  pub timestamp : ℕ
  pub agent_address : ℕ
  pub sub_agent_id : ℕ
  pub sequence_number : ℕ
  pub source_id_type : ℕ
  pub source_id_index : ℕ
  pub sampling_rate : ℕ
  pub sample_pool : ℕ
  pub drops : ℕ
  pub input_if_format : ℕ
  pub input_if_value : ℕ
  pub output_if_format : ℕ
  pub output_if_value : ℕ
  pub raw_header_protocol : ℕ
  pub raw_header_frame_length : ℕ
  pub raw_header_stripped : ℕ
  pub raw_header_length : ℕ
  pub raw_header : Bytes

pub record GenericCounters : Type 0 where
  pub if_index : ℕ
  pub if_type : ℕ
  pub if_speed : ℕ
  pub if_direction : ℕ
  pub if_status : ℕ
  pub in_octets : ℕ
  pub in_ucast_pkts : ℕ
  pub in_mcast_pkts : ℕ
  pub in_bcast_pkts : ℕ
  pub in_discards : ℕ
  pub in_errors : ℕ
  pub in_unknown_proto : ℕ
  pub out_octets : ℕ
  pub out_ucast_pkts : ℕ
  pub out_mcast_pkts : ℕ
  pub out_bcast_pkts : ℕ
  pub out_discards : ℕ
  pub out_errors : ℕ
  pub promisc : ℕ

pub record EthernetCounters : Type 0 where
  pub alignment_errors : ℕ
  pub fcs_errors : ℕ
  pub single_collision_frames : ℕ
  pub multiple_collision_frames : ℕ
  pub sqe_test_errors : ℕ
  pub deferred_transmissions : ℕ
  pub late_collisions : ℕ
  pub excessive_collisions : ℕ
  pub internal_mac_transmit_errors : ℕ
  pub carrier_sense_errors : ℕ
  pub frame_too_longs : ℕ
  pub internal_mac_receive_errors : ℕ
  pub symbol_errors : ℕ

pub record CntrSample : Type 0 where
  pub timestamp : ℕ
  pub agent_address : ℕ
  pub sub_agent_id : ℕ
  pub sequence_number : ℕ
  pub source_id_type : ℕ
  pub source_id_index : ℕ
  pub generic : GenericCounters
  pub ethernet : EthernetCounters
