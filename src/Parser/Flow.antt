-- ===== src/Parser/Flow.antt =====
-- Flow samples of src/sflowparser.c: `parseSampledHeader`, `parseFlowRecordHeader` and
-- `parseFlowSample`, which reads one record whatever `num_elements` says.
use sflow_toolkit.Base.{
  ℕ, ◌-◌, ◌%◌, ◌^◌, ◌++◌, ◌==◌, ltb, if◌then◌else◌, Bool, true, false, replicate,
}
use sflow_toolkit.Parser.Readers.{Cmd, pure, ◌>>=◌, ◌>>◌, get_data32, skip_bytes, copy_bytes}
use sflow_toolkit.Parser.Samples.{FlowSample}
use sflow_toolkit.Parser.Counters.{sar32, parse_source_id}

abbrev pub flow_header : ℕ
flow_header = 1

abbrev pub raw_header_size : ℕ
raw_header_size = 128

-- `hdr.header_length < RAW_HEADER_SIZE ? hdr.header_length : RAW_HEADER_SIZE`
unfoldable pub copied_length : ℕ → ℕ
copied_length n = if ltb n raw_header_size then n else raw_header_size

unfoldable pub parse_sampled_header : FlowSample → Cmd FlowSample
parse_sampled_header s = do
  header_protocol ← get_data32
  frame_length ← get_data32
  stripped ← get_data32
  header_length ← get_data32
  bytes ← copy_bytes (copied_length header_length)
  skip_bytes header_length
  pure (record s {
    raw_header_protocol = header_protocol;
    raw_header_frame_length = frame_length;
    raw_header_stripped = stripped;
    raw_header_length = header_length;
    raw_header = bytes ++ replicate (raw_header_size - copied_length header_length) 0;
  })

unfoldable pub parse_flow_record_header : FlowSample → Cmd FlowSample
parse_flow_record_header s = do
  tag ← get_data32
  length ← get_data32
  if tag == flow_header then parse_sampled_header s else do skip_bytes length; pure s

-- An interface, in two words or packed into one `int`.
unfoldable pub parse_interface : Bool → Cmd (ℕ × ℕ)
unfolding sar32
parse_interface true = do format ← get_data32; value ← get_data32; pure (format, value)
parse_interface false = do tmp ← get_data32; pure (sar32 tmp 30, tmp % 2 ^ 30)

unfoldable pub parse_flow_sample : FlowSample → Bool → Cmd FlowSample
unfolding parse_source_id parse_interface
parse_flow_sample s expanded = do
  sequence_number ← get_data32
  (ds_class, ds_index) ← parse_source_id expanded
  sampling_rate ← get_data32
  sample_pool ← get_data32
  drops ← get_data32
  (input_format, input) ← parse_interface expanded
  (output_format, output) ← parse_interface expanded
  num_elements ← get_data32
  parse_flow_record_header (record s {
    sequence_number = sequence_number;
    source_id_type = ds_class;
    source_id_index = ds_index;
    sampling_rate = sampling_rate;
    sample_pool = sample_pool;
    drops = drops;
    input_if_format = input_format;
    input_if_value = input;
    output_if_format = output_format;
    output_if_value = output;
  })
