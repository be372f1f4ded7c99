-- ===== src/Dataparser/Process/Plan.antt =====
-- Which conversations a flow sample belongs to, one key for each layer at which it has one. This
-- says nothing of tables, and never faults on a sampled header of 128 bytes.
use sflow_toolkit.Base.{ℕ, ◌+◌, ◌≤◌, Option, none, some, if◌then◌else◌, arith}
use sflow_toolkit.Base.Results.{Result, ok, ◌>>=◌, Returns, returns, Returns-bind}
use sflow_toolkit.Parser.Samples.{FlowSample}
use sflow_toolkit.Dataparser.Packet.{is_ip, is_tcp, is_udp}
use sflow_toolkit.Dataparser.Packet.Bounds.{
  IsAny, field8-Returns, saddr-Returns, daddr-Returns, source_port-Returns, dest_port-Returns,
  strip_ethernet-Returns, strip_ip-Returns,
}
use sflow_toolkit.Dataparser.Keys.{
  KeyEthernet, KeyPorts, mac, get_key_ethernet, get_key_ip, get_key_ports, get_key_tcp, get_key_udp,
}
use sflow_toolkit.Dataparser.Conversations.Bounds.{IsSampled}
use sflow_toolkit.Dataparser.Process.{IpSlot}

pub record Plan : Type 0 where
  pub ethernet : KeyEthernet
  pub ip : Option IpSlot
  pub tcp : Option KeyPorts
  pub udp : Option KeyPorts

unfoldable pub plan_ports : FlowSample → Plan → Result Plan
plan_ports s plan = do
  tcp ← is_tcp s.raw_header
  if tcp then (do key ← get_key_tcp s; ok (record plan { tcp = some key })) else (do
    udp ← is_udp s.raw_header
    if udp then (do key ← get_key_udp s; ok (record plan { udp = some key })) else ok plan)

unfoldable pub plan_sample : ℕ → FlowSample → Result Plan
unfolding plan_ports
plan_sample behind s = do
  key ← get_key_ethernet s
  ip ← is_ip s.raw_header
  let plan : Plan = record { ethernet = key; ip = none; tcp = none; udp = none }
  if ip
      then (do
        key_ip ← get_key_ip s
        plan_ports s (record plan { ip = some (record { key = key_ip; behind = behind }) }))
      else ok plan

module _ (s : FlowSample) (h : IsSampled s) where
  mac-Returns : (k : ℕ) → k ≤ 6 → Returns IsAny (mac s.raw_header k)
  unfolding mac
  mac-Returns k le = Returns-bind (field8-Returns h k (omega arith)) λ a _.
      Returns-bind (field8-Returns h (k + 1) (omega arith)) λ b _.
        Returns-bind (field8-Returns h (k + 2) (omega arith)) λ c _.
          Returns-bind (field8-Returns h (k + 3) (omega arith)) λ d _.
            Returns-bind (field8-Returns h (k + 4) (omega arith))
              λ e _. Returns-bind (field8-Returns h (k + 5) (omega arith)) λ f _. returns tt

  pub get_key_ethernet-Returns : Returns IsAny (get_key_ethernet s)
  unfolding get_key_ethernet
  get_key_ethernet-Returns =
      Returns-bind (mac-Returns 6 (omega arith))
        λ src _. Returns-bind (mac-Returns 0 (omega arith)) λ dst _. returns tt

  pub get_key_ip-Returns : Returns IsAny (get_key_ip s)
  unfolding get_key_ip
  get_key_ip-Returns =
      Returns-bind (strip_ethernet-Returns {n = 128} 110 (omega arith) h) λ p inside.
        Returns-bind (saddr-Returns inside (omega arith))
          λ src _. Returns-bind (daddr-Returns inside (omega arith)) λ dst _. returns tt

  pub get_key_ports-Returns : Returns IsAny (get_key_ports s)
  unfolding get_key_ports
  get_key_ports-Returns =
      Returns-bind (strip_ethernet-Returns {n = 128} 110 (omega arith) h) λ p inside.
        Returns-bind (saddr-Returns inside (omega arith)) λ src _.
          Returns-bind (daddr-Returns inside (omega arith)) λ dst _.
            Returns-bind (strip_ip-Returns {n = 110} 50 (omega arith) inside) λ q inside'.
              Returns-bind (source_port-Returns inside' (omega arith))
                λ sp _. Returns-bind (dest_port-Returns inside' (omega arith)) λ dp _. returns tt
