-- ===== src/Checks/Datagrams.antt =====
-- A datagram of an agent in the table: a flow sample, a counter sample and one of an unknown kind.
use sflow_toolkit.Base.{
  ℕ, ◌+◌, ◌≤◌, Option, none, some, List, [], ◌∷◌, ◌≡◌, refl, length, All, replicate, true, false,
  arith, ◌==◌, if◌then◌else◌, inr, ◌*◌,
}
use sflow_toolkit.Base.Results.{ok, fault, null_pointer}
use sflow_toolkit.Bytes.{Bytes}
use sflow_toolkit.Agentlist.{Agent, AgentList, agentlist_search, agentlist_init}
use sflow_toolkit.Parser.Readers.{Datagram, at}
use sflow_toolkit.Parser.Samples.{Sample, FlowSample, GenericCounters, EthernetCounters, CntrSample}
use sflow_toolkit.Parser.Counters.{parse_source_id}
use sflow_toolkit.Parser.Flow.{parse_interface}
use sflow_toolkit.Parser.Collect.{
  Collector, DatagramHeader, parse_datagram_header, agent_key, start_datagram, parse_samples,
  parse_datagram,
}
use sflow_toolkit.Parser.Encode.{CounterRecord, IsCounterRecord, generic, ethernet, other}
use sflow_toolkit.Parser.Encode.Samples.{
  put_pair, FlowRecord, packet, FlowHeader, CounterHeader, Sent, flow, cntr, unknown, put_samples,
  IsSent, v4, first_word, put_datagram,
}
use sflow_toolkit.Parser.RoundTrip.Samples.{collected_all, flows, cntrs, parse_samples-put}
use sflow_toolkit.Parser.RoundTrip.Received.{
  read_header, template, noted, parse_datagram_header-put, parse_datagram-put_datagram,
}
use sflow_toolkit.Parser.Bounds.Received.{parse_datagram_bounded}
use sflow_toolkit.Parser.Kept.{IsCollector, Grew, parse_samples-Grew}
use sflow_toolkit.Parser.Signed.{parse_source_id_signed, parse_interface_signed}
use sflow_toolkit.Parser.Agents.{parse_datagram_unknown, note_all, drops-note_all}

abbrev interface_counters : GenericCounters
interface_counters = record {
  if_index = 7;
  if_type = 6;
  if_speed = 10000000000;
  if_direction = 1;
  if_status = 3;
  in_octets = 5000000000;
  in_ucast_pkts = 10;
  in_mcast_pkts = 11;
  in_bcast_pkts = 12;
  in_discards = 0;
  in_errors = 1;
  in_unknown_proto = 0;
  out_octets = 42;
  out_ucast_pkts = 13;
  out_mcast_pkts = 14;
  out_bcast_pkts = 15;
  out_discards = 0;
  out_errors = 0;
  promisc = 1;
}

abbrev frame_counters : EthernetCounters
frame_counters = record {
  alignment_errors = 1;
  fcs_errors = 2;
  single_collision_frames = 3;
  multiple_collision_frames = 4;
  sqe_test_errors = 5;
  deferred_transmissions = 6;
  late_collisions = 7;
  excessive_collisions = 8;
  internal_mac_transmit_errors = 9;
  carrier_sense_errors = 10;
  frame_too_longs = 11;
  internal_mac_receive_errors = 12;
  symbol_errors = 13;
}

abbrev no_interface : GenericCounters
no_interface = record {
  if_index = 0;
  if_type = 0;
  if_speed = 0;
  if_direction = 0;
  if_status = 0;
  in_octets = 0;
  in_ucast_pkts = 0;
  in_mcast_pkts = 0;
  in_bcast_pkts = 0;
  in_discards = 0;
  in_errors = 0;
  in_unknown_proto = 0;
  out_octets = 0;
  out_ucast_pkts = 0;
  out_mcast_pkts = 0;
  out_bcast_pkts = 0;
  out_discards = 0;
  out_errors = 0;
  promisc = 0;
}

abbrev pub cntr_sample : CntrSample
cntr_sample = record {
  timestamp = 0;
  agent_address = 0;
  sub_agent_id = 0;
  sequence_number = 0;
  source_id_type = 0;
  source_id_index = 0;
  generic = no_interface;
  ethernet = frame_counters;
}

abbrev pub blank_flow_sample : FlowSample
blank_flow_sample = record {
  timestamp = 0;
  agent_address = 0;
  sub_agent_id = 0;
  sequence_number = 0;
  source_id_type = 0;
  source_id_index = 0;
  sampling_rate = 0;
  sample_pool = 0;
  drops = 0;
  input_if_format = 0;
  input_if_value = 0;
  output_if_format = 0;
  output_if_value = 0;
  raw_header_protocol = 0;
  raw_header_frame_length = 0;
  raw_header_stripped = 0;
  raw_header_length = 0;
  raw_header = replicate 128 0;
}

abbrev sent_header : FlowHeader
sent_header = record {
  sequence_number = 9;
  source_id_type = 0;
  source_id_index = 3;
  sampling_rate = 256;
  sample_pool = 4096;
  drops = 0;
  num_elements = 1;
  input_if_format = 0;
  input_if_value = 3;
  output_if_format = 1;
  output_if_value = 4;
}

abbrev counter_header : CounterHeader
counter_header = record { sequence_number = 5; source_id_type = 0; source_id_index = 7 }

abbrev head : FlowRecord
head = packet 1 1500 4 (1 ∷ 2 ∷ 3 ∷ 4 ∷ 5 ∷ [])

abbrev records : List CounterRecord
records = generic interface_counters ∷ other 5 (1 ∷ 2 ∷ 3 ∷ []) ∷ ethernet frame_counters ∷ []

records-All : All IsCounterRecord records
records-All =
    (omega arith, ((omega arith, omega arith, omega arith, omega arith), (omega arith, tt)))

abbrev pub sent : List Sent
sent =
    flow 100 false sent_header head
    ∷ cntr 80 true counter_header records
    ∷ unknown 77 (1 ∷ 2 ∷ [])
    ∷ []

pub sent-All : All IsSent sent
sent-All = (
  (omega arith, omega arith, omega arith, refl),
  (
    (omega arith, omega arith, records-All, omega arith),
    ((omega arith, inr (omega arith), omega arith), tt),
  ),
)

abbrev pub agent : Agent
agent = record {
  name = [];
  address = 167772161;
  last_seen = 0;
  uptime = 0;
  sequence = 3;
  datagrams = 3;
  drops = 2;
  fn_flow = [];
  fn_cntr = [];
  fd_flow = 0;
  fd_cntr = 0;
  fd_min_flow = 0;
  fd_min_cntr = 0;
}

abbrev bucket : ℕ → Option ℕ
bucket h = if h == 1 then some 0 else none

abbrev pub table : AgentList
table = record {
  hash = bucket;
  nodes = λ _. some (record { address = 167772161; agent = 0; next = none });
  node_top = 1;
  agents = λ _. some agent;
  agent_top = 1;
}

abbrev collector : Collector
collector = record {
  flow = record { count = 0; items = blank_flow_sample ∷ blank_flow_sample ∷ [] };
  cntr = record { count = 1; items = cntr_sample ∷ cntr_sample ∷ [] };
  total_samples_flow = 40;
  total_samples_cntr = 50;
  agents = table;
}

abbrev datagram : Datagram
datagram = record {
  timestamp = 1;
  raw_sample = [];
  raw_start = [];
  raw_end = [];
  raw_length = 0;
  cursor = [];
}

abbrev sample : Sample
sample = record { timestamp = 1; agent_address = 167772161; sub_agent_id = 0 }

abbrev pub received : Bytes
received = put_datagram 5 (v4 167772161) 0 7 1000 sent (1 ∷ [])

abbrev pub header : DatagramHeader
header = read_header 5 (v4 167772161) 0 7 1000 sent

parse_datagram-put_datagram_example :
    parse_datagram received 400 1 0 collector
    ≡ ok (collected_all (template 1 header agent) sent (noted 1 header 0 agent collector))
unfolding agentlist_search agent_key first_word flows cntrs
parse_datagram-put_datagram_example =
    parse_datagram-put_datagram 5 (v4 167772161) 0 7 1000 sent (1 ∷ []) 400 1 0 0 agent collector
      (omega arith, omega arith, omega arith, omega arith, omega arith, omega arith) sent-All refl
      refl (omega arith, omega arith) (omega arith, omega arith)

-- A datagram without samples.
abbrev short : Bytes
short = put_datagram 5 (v4 167772161) 0 7 1000 [] []

short_read :
    parse_datagram short 28 1 0 collector
    ≡ ok (
        collected_all
          (template 1 (read_header 5 (v4 167772161) 0 7 1000 []) agent)
          []
          (noted 1 (read_header 5 (v4 167772161) 0 7 1000 []) 0 agent collector))
unfolding agentlist_search agent_key first_word flows cntrs
short_read =
    parse_datagram-put_datagram 5 (v4 167772161) 0 7 1000 [] [] 28 1 0 0 agent collector
      (omega arith, omega arith, omega arith, omega arith, omega arith, omega arith) tt refl refl
      (omega arith, omega arith) (omega arith, omega arith)

parse_datagram_bounded_example :
    (hdr : DatagramHeader) × (d : Datagram) × (parse_datagram_header (start_datagram short 28 1)
      ≡ ok (hdr, d))
    × (length d.cursor + 28 ≤ length short)
    × (8 * hdr.num_records ≤ length d.cursor)
parse_datagram_bounded_example = parse_datagram_bounded short 28 1 0 collector _ short_read

sent_read :
    parse_samples 3 sample collector (at datagram (put_samples sent []))
    ≡ ok (collected_all sample sent collector, at datagram [])
unfolding flows cntrs
sent_read =
    parse_samples-put datagram sample sent collector [] sent-All (omega arith, omega arith)
      (omega arith, omega arith)

parse_samples-Grew_example :
    Grew collector (collected_all sample sent collector)
    × IsCollector (collected_all sample sent collector)
parse_samples-Grew_example =
    parse_samples-Grew 3 sample collector (collected_all sample sent collector)
      (at datagram (put_samples sent [])) (at datagram [])
      ((omega arith, omega arith), (omega arith, omega arith)) sent_read

parse_source_id_signed_example :
    parse_source_id false (at datagram (put_pair 24 false 200 7 []))
    ≡ ok ((4294967240, 7), at datagram [])
parse_source_id_signed_example =
    parse_source_id_signed datagram 200 7 [] (omega arith) (omega arith) (omega arith)

parse_interface_signed_example :
    parse_interface false (at datagram (put_pair 30 false 2 7 []))
    ≡ ok ((4294967294, 7), at datagram [])
parse_interface_signed_example =
    parse_interface_signed datagram 2 7 [] (omega arith) (omega arith) (omega arith)

abbrev strangers : Collector
strangers = record collector { agents = agentlist_init }

short_header :
    parse_datagram_header (start_datagram short 28 1)
    ≡ ok (read_header 5 (v4 167772161) 0 7 1000 [], at (start_datagram short 28 1) [])
unfolding start_datagram put_samples
short_header =
    parse_datagram_header-put (start_datagram short 28 1) 5 (v4 167772161) 0 7 1000 [] []
      (omega arith, omega arith, omega arith, omega arith, omega arith, omega arith)

parse_datagram_unknown_example : parse_datagram short 28 1 0 strangers ≡ fault null_pointer
unfolding agentlist_search agent_key agentlist_init first_word
parse_datagram_unknown_example =
    parse_datagram_unknown 5 (v4 167772161) 0 7 1000 [] [] 28 1 0 strangers
      (omega arith, omega arith, omega arith, omega arith, omega arith, omega arith) refl

abbrev following : ℕ → DatagramHeader
following sequence = record header { sequence_number = sequence }

drops-note_all_example : (note_all ((1, following 4) ∷ (2, following 5) ∷ []) agent).drops ≡ 4
drops-note_all_example =
    drops-note_all ((1, following 4) ∷ (2, following 5) ∷ []) agent (omega arith) (refl, (refl, tt))
      (omega arith) (omega arith)
