-- ===== src/Parser/RoundTrip/Received.antt =====
-- `parseDatagram` on a whole datagram that an agent sent.
use sflow_toolkit.Base.{
  ℕ, ◌/◌, ◌%◌, ◌^◌, ◌<◌, ◌≡◌, refl, ap, some, List, [], length, false, arith, ◌==◌, All, ltb,
  le→ltb,
}
use sflow_toolkit.Base.Results.{ok}
use sflow_toolkit.Bytes.{Bytes, put32, IsU32, ntohl, le32, ntohl-le32_of_word}
use sflow_toolkit.Base.Heap.{update, deref}
use sflow_toolkit.Agentlist.{Agent, agentlist_search}
use sflow_toolkit.Parser.Readers.{
  Datagram, at, Address, get_address, get_ip_v6, ip_v4, store_ip_v4, peek_data32,
}
use sflow_toolkit.Parser.Samples.{Sample}
use sflow_toolkit.Parser.Collect.{
  Collector, DatagramHeader, parse_datagram_header, agent_key, note_datagram, collect_datagram,
  start_datagram, parse_datagram,
}
use sflow_toolkit.Parser.Encode.Samples.{
  Sent, IsSent, put_samples, SentAddress, v4, v6, put_address, IsSentAddress, address_type,
  first_word, put_datagram,
}
use sflow_toolkit.Parser.RoundTrip.{get_data32-put32, peek_data32-put32}
use sflow_toolkit.Parser.RoundTrip.Samples.{HasRoom, flows, cntrs, collected_all, parse_samples-put}

-- The host's reading of the first word, and the 16 bytes of the union after the read.
host_word : ℕ → ℕ
host_word a = le32 (a / 2 ^ 24) (a / 2 ^ 16 % 2 ^ 8) (a / 2 ^ 8 % 2 ^ 8) (a % 2 ^ 8)

union_bytes : SentAddress → Bytes
unfolding host_word store_ip_v4 put32
union_bytes (v4 a) = store_ip_v4 (host_word a)
union_bytes (v6 type a b c e) = put32 a (put32 b (put32 c (put32 e [])))

read_address : SentAddress → Address
read_address s = record { type = address_type s; address = union_bytes s }

bytes_of_le32 :
    (a b c e : ℕ)
    → a < 256
    → b < 256
    → c < 256
    → e < 256
    → le32
        (le32 a b c e % 2 ^ 8)
        (le32 a b c e / 2 ^ 8 % 2 ^ 8)
        (le32 a b c e / 2 ^ 16 % 2 ^ 8)
        (le32 a b c e / 2 ^ 24)
      ≡ le32 a b c e
unfolding le32
bytes_of_le32 a b c e ha hb hc he = omega arith

ip_v4-read_address :
    (s : SentAddress) → IsSentAddress s → ip_v4 (read_address s) ≡ ok (host_word (first_word s))
unfolding ip_v4 read_address union_bytes first_word
ip_v4-read_address (v4 a) h = ap ok (
    bytes_of_le32 (a / 2 ^ 24) (a / 2 ^ 16 % 2 ^ 8) (a / 2 ^ 8 % 2 ^ 8) (a % 2 ^ 8) (omega arith)
      (omega arith) (omega arith) (omega arith))
ip_v4-read_address (v6 type a b c e) h = refl

ntohl-host_word :
    (s : SentAddress) → IsSentAddress s → ntohl (host_word (first_word s)) ≡ first_word s
unfolding host_word first_word
ntohl-host_word (v4 a) h = ntohl-le32_of_word a h
ntohl-host_word (v6 type a b c e) h = ntohl-le32_of_word a h.2

abbrev pub IsHeader : ℕ → SentAddress → ℕ → ℕ → ℕ → List Sent → Type 0
IsHeader version address sub_agent sequence uptime ss =
    IsU32 version
    × IsSentAddress address
    × IsU32 sub_agent
    × IsU32 sequence
    × IsU32 uptime
    × IsU32 (length ss)

unfoldable pub read_header : ℕ → SentAddress → ℕ → ℕ → ℕ → List Sent → DatagramHeader
unfolding address_type first_word
read_header version address sub_agent sequence uptime ss = record {
  sflow_version = version;
  datagram_version = address_type address;
  agent_address = first_word address;
  sub_agent_id = sub_agent;
  sequence_number = sequence;
  uptime = uptime;
  num_records = length ss;
}

module _ (d : Datagram) where
  get_ip_v6-put :
      (type a b c e : ℕ) (rest : Bytes)
      → get_ip_v6 type (at d (put32 a (put32 b (put32 c (put32 e rest)))))
        ≡ ok (read_address (v6 type a b c e), at d rest)
  unfolding get_ip_v6 put32 read_address union_bytes address_type
  get_ip_v6-put type a b c e rest =
      let enough : ltb (length (put32 a (put32 b (put32 c (put32 e rest))))) 16 ≡ false =
        le→ltb _ 16 (omega arith) in
      rw enough refl

  get_address-put_address :
      (s : SentAddress) (rest : Bytes)
      → IsSentAddress s
      → get_address (at d (put_address s rest)) ≡ ok (read_address s, at d rest)
  unfolding get_address put_address read_address address_type union_bytes
  get_address-put_address (v4 a) rest h =
      rw (get_data32-put32 d 1 (put32 a rest) (omega arith)) refl
  get_address-put_address (v6 type a b c e) rest h =
      let ne : (type == 1) ≡ false = ground arith in
      rw (get_data32-put32 d type (put32 a (put32 b (put32 c (put32 e rest)))) h.0)
        (rw ne (get_ip_v6-put type a b c e rest))

  peek_address :
      (s : SentAddress) (rest : Bytes)
      → IsSentAddress s
      → peek_data32 (at d (put_address s rest)) ≡ ok (address_type s, at d (put_address s rest))
  unfolding put_address address_type
  peek_address (v4 a) rest h = peek_data32-put32 d 1 (put32 a rest) (omega arith)
  peek_address (v6 type a b c e) rest h =
      peek_data32-put32 d type (put32 a (put32 b (put32 c (put32 e rest)))) h.0

  pub parse_datagram_header-put :
      (version : ℕ) (address : SentAddress) (sub_agent sequence uptime : ℕ) (ss : List Sent)
      (rest : Bytes)
      → IsHeader version address sub_agent sequence uptime ss
      → parse_datagram_header
          (at d (put_datagram version address sub_agent sequence uptime ss rest))
        ≡ ok (read_header version address sub_agent sequence uptime ss, at d (put_samples ss rest))
  unfolding parse_datagram_header put_datagram read_header
  parse_datagram_header-put version address sub_agent sequence uptime ss rest
        (vs, is, subs, seqs, ups, few) =
      let rest₁ : Bytes =
        put32 sub_agent (put32 sequence (put32 uptime (put32 (length ss) (put_samples ss rest)))) in
      rw (get_data32-put32 d version (put_address address rest₁) vs) (
        rw (peek_address address rest₁ is) (
          rw (get_address-put_address address rest₁ is) (
            simp (
              get_data32-put32,
              subs,
              seqs,
              ups,
              few,
              ip_v4-read_address address is,
              ntohl-host_word address is,
            ))))

-- The collector once the agent's own record has been updated, and the values that every sample of
-- the datagram is given.
unfoldable pub noted : ℕ → DatagramHeader → ℕ → Agent → Collector → Collector
unfolding note_datagram
noted now hdr p agent c = record c {
  agents = record (c.agents) {
    agents = update c.agents.agents p (some (note_datagram now hdr agent));
  };
}

unfoldable pub template : ℕ → DatagramHeader → Agent → Sample
template now hdr agent = record {
  timestamp = now;
  agent_address = agent.address;
  sub_agent_id = hdr.sub_agent_id;
}

-- A datagram that an agent of the table sent, whose fields fit their widths, whose source classes
-- in packed form are below 128 and interface formats in packed form 0 or 1, so that the sign bit of
-- a packed word is clear, and whose flow samples have one record each, received into a buffer that may hold anything behind it, is taken over
-- completely: if the buffers have room, `parse_datagram` faults nowhere, updates the record of the
-- agent, and collects exactly the samples of the datagram, in their order.
pub parse_datagram-put_datagram :
    (version : ℕ) (address : SentAddress) (sub_agent sequence uptime : ℕ) (ss : List Sent)
    (behind : Bytes) (n now s_addr p : ℕ) (agent : Agent) (c : Collector)
    → IsHeader version address sub_agent sequence uptime ss
    → All IsSent ss
    → agentlist_search c.agents (agent_key (first_word address) s_addr) ≡ ok (some p)
    → c.agents.agents p ≡ some agent
    → HasRoom (flows ss) c.flow
    → HasRoom (cntrs ss) c.cntr
    → let hdr = read_header version address sub_agent sequence uptime ss in
      parse_datagram
        (put_datagram version address sub_agent sequence uptime ss behind)
        n
        now
        s_addr
        c
      ≡ ok (collected_all (template now hdr agent) ss (noted now hdr p agent c))
unfolding parse_datagram collect_datagram read_header noted template
parse_datagram-put_datagram version address sub_agent sequence uptime ss behind n now s_addr p agent
      c header sent known held room_flow room_cntr =
    let hdr = read_header version address sub_agent sequence uptime ss in
    let bytes = put_datagram version address sub_agent sequence uptime ss behind in
    let d = start_datagram bytes n now in
    rw (parse_datagram_header-put d version address sub_agent sequence uptime ss behind header) (
      rw known (
        rw (held, deref)
          (rw
            (parse_samples-put d (template now hdr agent) ss (noted now hdr p agent c) behind sent
              room_flow room_cntr)
            refl)))
