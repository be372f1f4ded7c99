-- ===== src/Parser/Collect.antt =====
-- `parseSample` and `parseDatagram` of src/sflowparser.c, with the globals that they change: the
-- current collect buffers, the sample totals and the agent table.
use sflow_toolkit.Base.{
  ℕ, zero, suc, ◌+◌, ◌-◌, ◌%◌, ◌^◌, Option, none, some, List, ◌||◌, ◌==◌, Bool, if◌then◌else◌,
  get_elem?, set, drop,
}
use sflow_toolkit.Base.Results.{Result, ok, fault, overrun, null_pointer, and_then}
use sflow_toolkit.Bytes.{Bytes, ntohl}
use sflow_toolkit.Base.Heap.{update, deref}
use sflow_toolkit.Agentlist.{Agent, AgentList, agentlist_search}
use sflow_toolkit.Parser.Readers.{
  Datagram, Cmd, pure, ◌>>=◌, ◌>>◌, get_data32, peek_data32, skip_bytes, get_address, ip_v4,
}
use sflow_toolkit.Parser.Samples.{Sample, FlowSample, CntrSample}
use sflow_toolkit.Parser.Counters.{parse_counter_sample}
use sflow_toolkit.Parser.Flow.{parse_flow_sample}

abbrev pub flow_sample : ℕ
flow_sample = 1

abbrev pub counters_sample : ℕ
counters_sample = 2

abbrev pub flow_sample_expanded : ℕ
flow_sample_expanded = 3

abbrev pub counters_sample_expanded : ℕ
counters_sample_expanded = 4

-- The fields of `buffer_t` that the parser uses. `items` is the whole array behind `data`, whose
-- slots from `count` on hold whatever was left there.
pub record Buffer {ℓ} (A : Type ℓ) : Type ℓ where
  pub count : ℕ
  pub items : List A

pub record Collector : Type 0 where
  pub flow : Buffer FlowSample
  pub cntr : Buffer CntrSample
  pub total_samples_flow : ℕ
  pub total_samples_cntr : ℕ
  pub agents : AgentList

-- `&current_buffer[count]`
unfoldable pub slot : {A : Type 0} → Buffer A → Cmd A
slot b d = elim (get_elem? b.items b.count) [ none ↦ fault overrun | some s ↦ ok (s, d) ]

-- `count++`, and the sample that was written through the pointer to the old slot.
unfoldable pub fill : {A : Type 0} → Buffer A → A → Buffer A
fill b s = record b { count = (b.count + 1) % 2 ^ 32; items = set b.items b.count s }

unfoldable pub collect_flow : Sample → Collector → Bool → Cmd Collector
unfolding fill
collect_flow t c expanded = do
  s ← slot c.flow
  s' ←
      parse_flow_sample
        (record s {
          timestamp = t.timestamp;
          agent_address = t.agent_address;
          sub_agent_id = t.sub_agent_id;
        })
        expanded
  pure
      (record c { flow = fill c.flow s'; total_samples_flow = (c.total_samples_flow + 1) % 2 ^ 64 })

unfoldable pub collect_cntr : Sample → Collector → Bool → Cmd Collector
unfolding fill
collect_cntr t c expanded = do
  s ← slot c.cntr
  s' ←
      parse_counter_sample
        (record s {
          timestamp = t.timestamp;
          agent_address = t.agent_address;
          sub_agent_id = t.sub_agent_id;
        })
        expanded
  pure
      (record c { cntr = fill c.cntr s'; total_samples_cntr = (c.total_samples_cntr + 1) % 2 ^ 64 })

unfoldable pub parse_sample : Sample → Collector → Cmd Collector
unfolding collect_flow collect_cntr
parse_sample t c = do
  tag ← get_data32
  length ← get_data32
  if tag == flow_sample || tag == flow_sample_expanded
      then collect_flow t c (tag == flow_sample_expanded)
      else if tag == counters_sample || tag == counters_sample_expanded
      then collect_cntr t c (tag == counters_sample_expanded)
      else do skip_bytes length; pure c

-- `for( i=0; i < hdr.num_records; i++ )`, on the rounds that are left.
unfoldable pub parse_samples : ℕ → Sample → Collector → Cmd Collector
parse_samples zero t c = pure c
parse_samples (suc n) t c = do c' ← parse_sample t c; parse_samples n t c'

-- `SFLSample_datagram_hdr`, less the address.
pub record DatagramHeader : Type 0 where
  pub sflow_version : ℕ
  pub datagram_version : ℕ
  pub agent_address : ℕ
  pub sub_agent_id : ℕ
  pub sequence_number : ℕ
  pub uptime : ℕ
  pub num_records : ℕ

abbrev pub lift : {A : Type 0} → Result A → Cmd A
lift r d = and_then r λ a. ok (a, d)

-- The reads of the header, and `ntohl(hdr.agent_address.address.ip_v4.s_addr)`.
unfoldable pub parse_datagram_header : Cmd DatagramHeader
unfolding get_address ip_v4
parse_datagram_header = do
  sflow_version ← get_data32
  datagram_version ← peek_data32
  address ← get_address
  sub_agent_id ← get_data32
  sequence_number ← get_data32
  uptime ← get_data32
  num_records ← get_data32
  s_addr ← lift (ip_v4 address)
  pure (record {
    sflow_version = sflow_version;
    datagram_version = datagram_version;
    agent_address = ntohl s_addr;
    sub_agent_id = sub_agent_id;
    sequence_number = sequence_number;
    uptime = uptime;
    num_records = num_records;
  })

-- An agent that calls itself 127.0.0.1 is known by the source address of the datagram.
unfoldable pub agent_key : ℕ → ℕ → ℕ
agent_key agent_address s_addr = if agent_address == 0x7f000001 then ntohl s_addr else agent_address

unfoldable pub note_datagram : ℕ → DatagramHeader → Agent → Agent
note_datagram now hdr a = record a {
  datagrams = (a.datagrams + 1) % 2 ^ 64;
  last_seen = now % 2 ^ 32;
  uptime = hdr.uptime;
  drops =
      if a.sequence == 0
      then a.drops
      else (a.drops + (hdr.sequence_number + 2 ^ 32 - a.sequence) % 2 ^ 32) % 2 ^ 64;
  sequence = hdr.sequence_number;
}

-- What follows the search. `agent->address` is read before `agent != NULL` is tested, so the
-- branch of the test that logs an unknown agent is never reached.
unfoldable pub collect_datagram : ℕ → DatagramHeader → Option ℕ → Collector → Cmd Collector
unfolding note_datagram parse_samples
collect_datagram now hdr none c = λ _. fault null_pointer
collect_datagram now hdr (some p) c = do
  agent ← lift (deref c.agents.agents p)
  parse_samples hdr.num_records
      (record { timestamp = now; agent_address = agent.address; sub_agent_id = hdr.sub_agent_id })
      (record c {
        agents = record (c.agents) {
          agents = update c.agents.agents p (some (note_datagram now hdr agent));
        };
      })

unfoldable pub receive : ℕ → ℕ → Collector → Cmd Collector
unfolding parse_datagram_header agent_key collect_datagram
receive now s_addr c = do
  hdr ← parse_datagram_header
  agent ← lift (agentlist_search c.agents (agent_key hdr.agent_address s_addr))
  collect_datagram now hdr agent c

-- The `SFDatagram` over the receive buffer `bytes`: the `n` bytes that were received and what
-- stands behind them.
unfoldable pub start_datagram : Bytes → ℕ → ℕ → Datagram
start_datagram bytes n now = record {
  timestamp = now;
  raw_sample = bytes;
  raw_start = bytes;
  raw_end = drop n bytes;
  raw_length = n;
  cursor = bytes;
}

-- `now` is `time(NULL)` and `s_addr` the source address in network order.
unfoldable pub parse_datagram : Bytes → ℕ → ℕ → ℕ → Collector → Result Collector
unfolding start_datagram receive
parse_datagram bytes n now s_addr c =
    and_then (receive now s_addr c (start_datagram bytes n now)) λ p. ok p.0
