-- ===== src/Parser/Kept/Received.antt =====
-- A whole datagram, as parseDatagram of src/sflowparser.c takes it, on the sample buffers.
use mathlib.Core.Path.{subst}
use sflow_toolkit.Base.{ℕ, ◌≡◌, none, some, Option}
use sflow_toolkit.Base.Results.{Result, ok, fault, >>=-eq_ok}
use sflow_toolkit.Bytes.{Bytes}
use sflow_toolkit.Base.Heap.{update, deref}
use sflow_toolkit.Agentlist.{Agent, agentlist_search}
use sflow_toolkit.Parser.Samples.{Sample}
use sflow_toolkit.Parser.Collect.{
  Collector, DatagramHeader, parse_datagram, receive, collect_datagram, parse_datagram_header,
  start_datagram, lift, note_datagram, agent_key,
}
use sflow_toolkit.Parser.Kept.{
  Ensures, Ensures-any, Ensures-bind, Ensures-weaken, Ensures-parse_samples, Grew, IsCollector,
  Holds,
}

Ensures-collect_datagram :
    (now : ℕ) (hdr : DatagramHeader) (agent : Option ℕ) (c : Collector)
    → IsCollector c
    → Ensures (Grew c) (collect_datagram now hdr agent c)
unfolding collect_datagram
Ensures-collect_datagram now hdr none c is = record { holds = λ d. tt }
Ensures-collect_datagram now hdr (some p) c is =
    Ensures-bind {A = Agent} (lift (deref c.agents.agents p)) _ (Ensures-any _) λ agent _.
      Ensures-weaken _ (Ensures-parse_samples hdr.num_records (sample_of agent) (noted agent) is)
        λ c' g. record {
          flow = g.flow;
          cntr = g.cntr;
          total_flow = g.total_flow;
          total_cntr = g.total_cntr;
        }
  where
    sample_of : Agent → Sample
    sample_of agent = record {
      timestamp = now;
      agent_address = agent.address;
      sub_agent_id = hdr.sub_agent_id;
    }

    noted : Agent → Collector
    noted agent = record c {
      agents = record (c.agents) {
        agents = update c.agents.agents p (some (note_datagram now hdr agent));
      };
    }

-- The value of a run, if it has one, satisfies `P`.
abbrev pub HoldsValue : {A : Type 0} → (A → Type 0) → Result A → Type 0
HoldsValue P (ok a) = P a
HoldsValue P (fault e) = Unit {0}

Ensures-receive :
    (now s_addr : ℕ) (c : Collector) → IsCollector c → Ensures (Grew c) (receive now s_addr c)
unfolding receive
Ensures-receive now s_addr c is = Ensures-bind parse_datagram_header _ (Ensures-any _) λ hdr _.
    Ensures-bind {A = Option ℕ}
      (lift (agentlist_search c.agents (agent_key hdr.agent_address s_addr))) _ (Ensures-any _)
      λ agent _. Ensures-collect_datagram now hdr agent c is

-- A datagram that is parsed without a fault only adds samples at the ends of the buffers.
pub parse_datagram-Grew :
    (bytes : Bytes) (n now s_addr : ℕ) (c c' : Collector)
    → IsCollector c
    → parse_datagram bytes n now s_addr c ≡ ok c'
    → Grew c c'
unfolding parse_datagram
parse_datagram-Grew bytes n now s_addr c c' is e =
    let (p, received, same) =
      >>=-eq_ok (receive now s_addr c (start_datagram bytes n now)) (λ p. ok p.0) e in
    subst (HoldsValue (Grew c)) same
      (subst (Holds (Grew c)) received ((Ensures-receive now s_addr c is).holds _))
