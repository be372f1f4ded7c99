-- ===== src/Parser/Encode/Samples.antt =====
-- Encoders for whole samples: source ids and interfaces in their two forms, flow records, and the
-- samples of a datagram, with what each of them leaves in the collector.
use sflow_toolkit.Base.{
  ℕ, ◌+◌, ◌-◌, ◌*◌, ◌^◌, ◌<◌, ◌≡◌, ◌⊎◌, ◌≢◌, Bool, true, false, List, [], ◌∷◌, ◌++◌, length,
  replicate, take, All, if◌then◌else◌,
}
use sflow_toolkit.Bytes.{Bytes, IsU32, put32}
use sflow_toolkit.Parser.Samples.{FlowSample}
use sflow_toolkit.Parser.Flow.{flow_header, raw_header_size}
use sflow_toolkit.Parser.Encode.{put_opaque, CounterRecord, put_counter_records, IsCounterRecord}
use sflow_toolkit.Parser.Collect.{
  flow_sample, counters_sample, flow_sample_expanded, counters_sample_expanded,
}

-- Two numbers in two words, or packed with `high` above the lowest `bits` bits of one.
unfoldable pub put_pair : ℕ → Bool → ℕ → ℕ → Bytes → Bytes
put_pair bits true high low rest = put32 high (put32 low rest)
put_pair bits false high low rest = put32 (high * 2 ^ bits + low) rest

-- In one word the top bit is clear, so that the parser's `int` is not negative.
abbrev pub FitsPair : ℕ → Bool → ℕ → ℕ → Type 0
FitsPair bits true high low = IsU32 high × IsU32 low
FitsPair bits false high low = (high * 2 ^ bits < 2 ^ 31) × (low < 2 ^ bits)

-- The one record of a flow sample: the head of the sampled packet, or any other.
pub data FlowRecord : Type 0 where
  packet : (protocol frame_length stripped : ℕ) → Bytes → FlowRecord
  other : ℕ → Bytes → FlowRecord

unfoldable pub put_flow_record : FlowRecord → Bytes → Bytes
unfolding put_opaque
put_flow_record (packet protocol frame_length stripped head) rest = put32 flow_header (
    put32 (16 + length head) (
      put32 protocol
        (put32 frame_length (put32 stripped (put32 (length head) (put_opaque head rest))))))
put_flow_record (other tag body) rest = put32 tag (put32 (length body) (put_opaque body rest))

abbrev pub IsFlowRecord : FlowRecord → Type 0
IsFlowRecord (packet protocol frame_length stripped head) =
    IsU32 protocol × IsU32 frame_length × IsU32 stripped × (length head + 16 < 2 ^ 32)
IsFlowRecord (other tag body) = IsU32 tag × (tag ≢ flow_header) × (length body + 3 < 2 ^ 32)

-- The first 128 bytes of the packet, zeros behind a shorter one.
unfoldable pub raw_bytes : Bytes → Bytes
raw_bytes head = take raw_header_size head ++ replicate (raw_header_size - length head) 0

unfoldable pub fill_packet : FlowRecord → FlowSample → FlowSample
unfolding raw_bytes
fill_packet (packet protocol frame_length stripped head) s = record s {
  raw_header_protocol = protocol;
  raw_header_frame_length = frame_length;
  raw_header_stripped = stripped;
  raw_header_length = length head;
  raw_header = raw_bytes head;
}
fill_packet (other tag body) s = s

pub record FlowHeader : Type 0 where
  pub sequence_number : ℕ
  pub source_id_type : ℕ
  pub source_id_index : ℕ
  pub sampling_rate : ℕ
  pub sample_pool : ℕ
  pub drops : ℕ
  pub num_elements : ℕ
  pub input_if_format : ℕ
  pub input_if_value : ℕ
  pub output_if_format : ℕ
  pub output_if_value : ℕ

pub record IsFlowHeader (expanded : Bool) (h : FlowHeader) : Type 0 where
  pub sequence_number : IsU32 h.sequence_number
  pub source_id : FitsPair 24 expanded h.source_id_type h.source_id_index
  pub sampling_rate : IsU32 h.sampling_rate
  pub sample_pool : IsU32 h.sample_pool
  pub drops : IsU32 h.drops
  pub num_elements : IsU32 h.num_elements
  pub input : FitsPair 30 expanded h.input_if_format h.input_if_value
  pub output : FitsPair 30 expanded h.output_if_format h.output_if_value

unfoldable pub put_flow_sample : Bool → FlowHeader → FlowRecord → Bytes → Bytes
unfolding put_pair put_flow_record
put_flow_sample expanded h r rest = put32 h.sequence_number (
    put_pair 24 expanded h.source_id_type h.source_id_index (
      put32 h.sampling_rate (
        put32 h.sample_pool (
          put32 h.drops (
            put_pair 30 expanded h.input_if_format h.input_if_value (
              put_pair 30 expanded h.output_if_format h.output_if_value
                (put32 h.num_elements (put_flow_record r rest))))))))

unfoldable pub fill_flow : FlowHeader → FlowRecord → FlowSample → FlowSample
unfolding fill_packet
fill_flow h r s = fill_packet r (record s {
  sequence_number = h.sequence_number;
  source_id_type = h.source_id_type;
  source_id_index = h.source_id_index;
  sampling_rate = h.sampling_rate;
  sample_pool = h.sample_pool;
  drops = h.drops;
  input_if_format = h.input_if_format;
  input_if_value = h.input_if_value;
  output_if_format = h.output_if_format;
  output_if_value = h.output_if_value;
})

pub record CounterHeader : Type 0 where
  pub sequence_number : ℕ
  pub source_id_type : ℕ
  pub source_id_index : ℕ

pub record IsCounterHeader (expanded : Bool) (h : CounterHeader) : Type 0 where
  pub sequence_number : IsU32 h.sequence_number
  pub source_id : FitsPair 24 expanded h.source_id_type h.source_id_index

unfoldable pub put_counter_sample : Bool → CounterHeader → List CounterRecord → Bytes → Bytes
unfolding put_pair put_counter_records
put_counter_sample expanded h rs rest = put32 h.sequence_number (
    put_pair 24 expanded h.source_id_type h.source_id_index
      (put32 (length rs) (put_counter_records rs rest)))

-- A sample as an agent sends it. The length of a known kind is ignored by the parser.
pub data Sent : Type 0 where
  flow : (length : ℕ) (expanded : Bool) → FlowHeader → FlowRecord → Sent
  cntr : (length : ℕ) (expanded : Bool) → CounterHeader → List CounterRecord → Sent
  unknown : (tag : ℕ) → Bytes → Sent

unfoldable pub put_sample : Sent → Bytes → Bytes
unfolding put_flow_sample put_counter_sample put_opaque
put_sample (flow length expanded h r) rest =
    put32 (if expanded then flow_sample_expanded else flow_sample)
      (put32 length (put_flow_sample expanded h r rest))
put_sample (cntr length expanded h rs) rest =
    put32 (if expanded then counters_sample_expanded else counters_sample)
      (put32 length (put_counter_sample expanded h rs rest))
put_sample (unknown tag body) rest = put32 tag (put32 (length body) (put_opaque body rest))

unfoldable pub put_samples : List Sent → Bytes → Bytes
unfolding put_sample
put_samples [] rest = rest
put_samples (s ∷ ss) rest = put_sample s (put_samples ss rest)

abbrev pub IsSent : Sent → Type 0
IsSent (flow size expanded h r) =
    IsU32 size × IsFlowHeader expanded h × IsFlowRecord r × (h.num_elements ≡ 1)
IsSent (cntr size expanded h rs) =
    IsU32 size × IsCounterHeader expanded h × All IsCounterRecord rs × IsU32 (length rs)
IsSent (unknown tag body) = IsU32 tag × ((tag ≡ 0) ⊎ (4 < tag)) × (length body + 3 < 2 ^ 32)

-- The address of the agent: one word, or another type and four words.
pub data SentAddress : Type 0 where
  v4 : ℕ → SentAddress
  v6 : (type : ℕ) → ℕ → ℕ → ℕ → ℕ → SentAddress

unfoldable pub put_address : SentAddress → Bytes → Bytes
put_address (v4 a) rest = put32 1 (put32 a rest)
put_address (v6 type a b c e) rest = put32 type (put32 a (put32 b (put32 c (put32 e rest))))

abbrev pub IsSentAddress : SentAddress → Type 0
IsSentAddress (v4 a) = IsU32 a
IsSentAddress (v6 type a b c e) = IsU32 type × (type ≢ 1) × IsU32 a × IsU32 b × IsU32 c × IsU32 e

unfoldable pub address_type : SentAddress → ℕ
address_type (v4 a) = 1
address_type (v6 type a b c e) = type

-- The number by which the collector knows the agent: the first word of the address.
unfoldable pub first_word : SentAddress → ℕ
first_word (v4 a) = a
first_word (v6 type a b c e) = a

unfoldable pub put_datagram : ℕ → SentAddress → ℕ → ℕ → ℕ → List Sent → Bytes → Bytes
unfolding put_address put_samples
put_datagram version address sub_agent sequence uptime ss rest = put32 version (
    put_address address
      (put32 sub_agent (put32 sequence (put32 uptime (put32 (length ss) (put_samples ss rest))))))
