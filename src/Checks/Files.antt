-- ===== src/Checks/Files.antt =====
-- A file of two sampled frames, and a table of conversations.
use sflow_toolkit.Base.{ℕ, ◌+◌, ◌%◌, ◌^◌, none, some, List, [], ◌∷◌, ◌≡◌, refl, replicate, arith}
use sflow_toolkit.Base.Results.{Result, ok, Returns}
use sflow_toolkit.Bytes.{Bytes}
use sflow_toolkit.Parser.Samples.{FlowSample, CntrSample}
use sflow_toolkit.Dataparser.Keys.{KeyEthernet, KeyPorts}
use sflow_toolkit.Dataparser.Conversations.Bounds.{IsSampled}
use sflow_toolkit.Dataparser.Table.{ConvTable, conv_list_add, empty_table}
use sflow_toolkit.Dataparser.Table.Assoc.{find, put_if}
use sflow_toolkit.Dataparser.Table.Lookup.{IsTable, find-conv_list_add}
use sflow_toolkit.Dataparser.Process.{
  IpSlot, Tables, KeyPorts-discrete, process_sample_flow, process_file_flow, empty_tables,
}
use sflow_toolkit.Dataparser.Process.Plan.{Plan}
use sflow_toolkit.Dataparser.Process.Replay.{find_ethernet, find_ip, find_tcp, find_udp}
use sflow_toolkit.Dataparser.Process.Sample.{PlanOutcome, process_sample_flow-Outcome}
use sflow_toolkit.Dataparser.Process.File.{
  AreSampled, Planned, replay_ethernet, replay_ip, replay_tcp, replay_udp,
  process_file_flow-Replayed, IsTables-empty,
}
use sflow_toolkit.Dataparser.Process.Counts.{
  frames_of, bytes_of, sample_count, frame_bytes, process_file_flow-counts,
}

-- An Ethernet header with the type of IPv4, an IPv4 header with TCP, and ports.
abbrev pub head : Bytes
head =
    1
    ∷ 2
    ∷ 3
    ∷ 4
    ∷ 5
    ∷ 6
    ∷ 7
    ∷ 8
    ∷ 9
    ∷ 10
    ∷ 11
    ∷ 12
    ∷ 8
    ∷ 0
    ∷ 0x45
    ∷ 0
    ∷ 0
    ∷ 40
    ∷ 0
    ∷ 0
    ∷ 0
    ∷ 0
    ∷ 64
    ∷ 6
    ∷ 0
    ∷ 0
    ∷ 10
    ∷ 0
    ∷ 0
    ∷ 1
    ∷ 10
    ∷ 0
    ∷ 0
    ∷ 2
    ∷ 4
    ∷ 210
    ∷ 0
    ∷ 80
    ∷ replicate 90 0

abbrev pub frame : ℕ → FlowSample
frame size = record {
  timestamp = 60;
  agent_address = 1;
  sub_agent_id = 0;
  sequence_number = 1;
  source_id_type = 0;
  source_id_index = 1;
  sampling_rate = 256;
  sample_pool = 256;
  drops = 0;
  input_if_format = 0;
  input_if_value = 1;
  output_if_format = 0;
  output_if_value = 2;
  raw_header_protocol = 1;
  raw_header_frame_length = size;
  raw_header_stripped = 4;
  raw_header_length = 128;
  raw_header = head;
}

abbrev pub file : List (ℕ × FlowSample)
file = (0, frame 1500) ∷ (0, frame 64) ∷ []

frame-IsSampled : (size : ℕ) → IsSampled (frame size)
frame-IsSampled size = record { size = omega arith; bytes = omega arith }

pub file-AreSampled : AreSampled file
file-AreSampled = (frame-IsSampled 1500, (frame-IsSampled 64, tt))

process_file_flow-counts_example :
    (t : Tables) × (ps : List (FlowSample × Plan)) × (process_file_flow (some file) ≡ ok t)
    × Planned file ps
    × ((k : KeyEthernet)
        → (frames_of (find_ethernet t k) ≡ sample_count k ps % 2 ^ 32)
          × (bytes_of (find_ethernet t k) ≡ frame_bytes k ps % 2 ^ 32))
process_file_flow-counts_example = process_file_flow-counts file file-AreSampled

process_file_flow-Replayed_example :
    (t : Tables) × (ps : List (FlowSample × Plan)) × (process_file_flow (some file) ≡ ok t)
    × Planned file ps
    × ((k : KeyEthernet) → find_ethernet t k ≡ replay_ethernet k ps none)
    × ((k : IpSlot) → find_ip t k ≡ replay_ip k ps none)
    × ((k : KeyPorts) → find_tcp t k ≡ replay_tcp k ps none)
    × ((k : KeyPorts) → find_udp t k ≡ replay_udp k ps none)
process_file_flow-Replayed_example = process_file_flow-Replayed file file-AreSampled

process_sample_flow-Outcome_example :
    Returns (PlanOutcome 0 (frame 64) empty_tables) (process_sample_flow 0 (frame 64) empty_tables)
process_sample_flow-Outcome_example =
    process_sample_flow-Outcome 0 (frame 64) (frame-IsSampled 64) empty_tables IsTables-empty

abbrev ports : ℕ → KeyPorts
ports p = record { input_if = 1; output_if = 2; src = 10; dst = 11; src_port = p; dst_port = 80 }

abbrev counts : ConvTable KeyPorts ℕ
counts = empty_table

abbrev increment : ℕ → Result ℕ
increment n = ok (n + 1)

find-conv_list_add_example :
    (t' : ConvTable KeyPorts ℕ) × (conv_list_add KeyPorts-discrete
        (λ k. k.src_port)
        0
        increment
        (ports 1234)
        counts
      ≡ ok t')
    × IsTable KeyPorts-discrete t'
    × ((j : KeyPorts)
        → find KeyPorts-discrete (λ k. k.src_port) t' j
          ≡ put_if KeyPorts-discrete
              (ports 1234)
              1
              j
              (find KeyPorts-discrete (λ k. k.src_port) counts j))
unfolding find
find-conv_list_add_example =
    find-conv_list_add KeyPorts-discrete 0 (ports 1234) increment 1 (λ k. k.src_port) counts
      (λ h. tt) refl

abbrev counters : ℕ → CntrSample
counters n = record {
  timestamp = n;
  agent_address = 1;
  sub_agent_id = 0;
  sequence_number = n;
  source_id_type = 0;
  source_id_index = 7;
  generic = record {
    if_index = 7;
    if_type = 6;
    if_speed = 1000;
    if_direction = 1;
    if_status = 3;
    in_octets = n;
    in_ucast_pkts = 0;
    in_mcast_pkts = 0;
    in_bcast_pkts = 0;
    in_discards = 0;
    in_errors = 0;
    in_unknown_proto = 0;
    out_octets = 0;
    out_ucast_pkts = 0;
    out_mcast_pkts = 0;
    out_bcast_pkts = 0;
    out_discards = 0;
    out_errors = 0;
    promisc = 0;
  };
  ethernet = record {
    alignment_errors = 0;
    fcs_errors = 0;
    single_collision_frames = 0;
    multiple_collision_frames = 0;
    sqe_test_errors = 0;
    deferred_transmissions = 0;
    late_collisions = 0;
    excessive_collisions = 0;
    internal_mac_transmit_errors = 0;
    carrier_sense_errors = 0;
    frame_too_longs = 0;
    internal_mac_receive_errors = 0;
    symbol_errors = 0;
  };
}
