-- ===== src/Parser/Agents.antt =====
-- What `parseDatagram` of src/sflowparser.c does with the sender: an unknown agent, and the
-- statistics of a known one over a run of datagrams.
use sflow_toolkit.Base.{
  ℕ, ◌+◌, ◌^◌, ◌<◌, ◌≡◌, ◌≢◌, refl, none, List, [], ◌∷◌, length, ◌==◌, false, arith,
}
use sflow_toolkit.Base.Results.{ok, fault, null_pointer}
use sflow_toolkit.Bytes.{Bytes}
use sflow_toolkit.Agentlist.{Agent, agentlist_search}
use sflow_toolkit.Parser.Encode.Samples.{Sent, SentAddress, first_word, put_datagram}
use sflow_toolkit.Parser.RoundTrip.Received.{read_header, IsHeader, parse_datagram_header-put}
use sflow_toolkit.Parser.Collect.{
  Collector, DatagramHeader, agent_key, note_datagram, collect_datagram, receive, start_datagram,
  parse_datagram,
}

-- A datagram as an agent encodes it, with any samples and with anything behind them in the receive
-- buffer, ends in a dereference of `NULL` if the agent's address, or the sender's if the address is
-- 127.0.0.1, is not found in the table: nothing of it is collected.
pub parse_datagram_unknown :
    (version : ℕ) (address : SentAddress) (sub_agent sequence uptime : ℕ) (ss : List Sent)
    (behind : Bytes) (n now s_addr : ℕ) (c : Collector)
    → IsHeader version address sub_agent sequence uptime ss
    → agentlist_search c.agents (agent_key (first_word address) s_addr) ≡ ok none
    → parse_datagram
        (put_datagram version address sub_agent sequence uptime ss behind)
        n
        now
        s_addr
        c
      ≡ fault null_pointer
unfolding parse_datagram receive collect_datagram read_header
parse_datagram_unknown version address sub_agent sequence uptime ss behind n now s_addr c header
      unknown =
    let bytes = put_datagram version address sub_agent sequence uptime ss behind in
    rw
      (parse_datagram_header-put (start_datagram bytes n now) version address sub_agent sequence
        uptime ss behind header)
      (rw unknown refl)

-- Headers, with their times, in the order in which an agent sends them: none is missing behind the
-- number `sequence`.
abbrev pub Consecutive : ℕ → List (ℕ × DatagramHeader) → Type 0
Consecutive sequence [] = Unit {0}
Consecutive sequence ((now, h) ∷ hs) =
    (h.sequence_number ≡ sequence + 1) × Consecutive (sequence + 1) hs

unfoldable pub note_all : List (ℕ × DatagramHeader) → Agent → Agent
note_all [] a = a
note_all ((now, h) ∷ hs) a = note_all hs (note_datagram now h a)

module _ (a : Agent) (now : ℕ) (h : DatagramHeader) where
  drops-note_datagram :
      a.sequence ≢ 0
      → h.sequence_number ≡ a.sequence + 1
      → a.sequence + 1 < 2 ^ 32
      → a.drops + 1 < 2 ^ 64
      → (note_datagram now h a).drops ≡ a.drops + 1
  unfolding note_datagram
  drops-note_datagram started next small room =
      let running : (a.sequence == 0) ≡ false = ground arith in rw running (omega arith)

-- A run of datagrams of which none is lost still counts each of them as a drop, for an agent that
-- has sent one before, as long as the sequence numbers and the count do not wrap.
pub drops-note_all :
    (hs : List (ℕ × DatagramHeader)) (a : Agent)
    → a.sequence ≢ 0
    → Consecutive a.sequence hs
    → a.sequence + length hs < 2 ^ 32
    → a.drops + length hs < 2 ^ 64
    → (note_all hs a).drops ≡ a.drops + length hs
unfolding note_all
drops-note_all [] a started run small room = omega arith
drops-note_all ((now, h) ∷ hs) a started (next, run) small room =
    let a' = note_datagram now h a in
    let sequence : a'.sequence ≡ a.sequence + 1 = unfold note_datagram in next in
    let drops : a'.drops ≡ a.drops + 1 =
      drops-note_datagram a now h started next (omega arith) (omega arith) in
    let run' : Consecutive a'.sequence hs = rw sequence run in
    omega (arith, drops, drops-note_all hs a' (omega arith) run' (omega arith) (omega arith))
