-- ===== src/Dataparser/Process/Sample.antt =====
-- One flow sample: `process_sample_flow` changes the conversations that the sample's keys name.
use sflow_toolkit.Base.{
  ℕ, ◌≡◌, refl, ap, ◌∙◌, Option, none, some, Bool, true, false, if◌then◌else◌, arith,
  length-replicate,
}
use sflow_toolkit.Base.Results.{
  ok, ◌>>=◌, Returns, returns, Returns-bind, Returns-weaken, Returns-value,
}
use sflow_toolkit.Parser.Samples.{FlowSample}
use sflow_toolkit.Dataparser.Packet.{is_ip, is_tcp, is_udp}
use sflow_toolkit.Dataparser.Packet.Bounds.{IsAny, is_ip-Returns, is_tcp-Returns, is_udp-Returns}
use sflow_toolkit.Dataparser.Keys.{
  KeyEthernet, KeyIp, KeyPorts, get_key_ethernet, get_key_ip, get_key_ports, hash_key_ethernet,
  hash_key_tcp, hash_key_udp,
}
use sflow_toolkit.Dataparser.Conversations.{
  conv_ethernet_zero, conv_ip_zero, conv_tcp_zero, conv_udp_zero,
}
use sflow_toolkit.Dataparser.Conversations.Bounds.{
  IsSampled, IsConvIp, IsConvTcp, conv_update_ethernet-Returns, conv_update_ip-Returns,
  conv_update_tcp-Returns, conv_update_udp-Returns,
}
use sflow_toolkit.Dataparser.Table.Replay
use sflow_toolkit.Dataparser.Table.Replay.{replay_step, IsGood}
use sflow_toolkit.Dataparser.Process.{
  IpSlot, KeyEthernet-discrete, IpSlot-discrete, KeyPorts-discrete, Tables, add_ethernet, add_ip,
  add_tcp, add_udp, process_tcp, process_udp, process_ports, process_ip, process_sample_flow,
}
use sflow_toolkit.Dataparser.Process.Plan.{
  Plan, plan_ports, plan_sample, get_key_ethernet-Returns, get_key_ip-Returns,
  get_key_ports-Returns,
}
use sflow_toolkit.Dataparser.Process.Replay.{
  slot_hash, upd_ethernet, upd_ip, upd_tcp, upd_udp, step_ip, step_tcp, step_udp, IsTables, Step,
}

module _ (s : FlowSample) (h : IsSampled s) (t : Tables) (is : IsTables t) where
  add_ethernet-Step :
      (k : KeyEthernet)
      → Returns (λ t'. IsTables t' × Step (some k) none none none s t t') (add_ethernet s k t)
  unfolding add_ethernet replay_step
  add_ethernet-Step k =
      Returns-bind
        (Replay.add-Returns KeyEthernet-discrete conv_ethernet_zero upd_ethernet hash_key_ethernet
          IsSampled IsAny tt (λ s v h _. conv_update_ethernet-Returns s h v) s k t.ethernet h
          is.ethernet)
        λ x (good, found). returns (
          record { ethernet = good; ip = is.ip; tcp = is.tcp; udp = is.udp },
          record { ethernet = found; ip = λ k. refl; tcp = λ k. refl; udp = λ k. refl },
        )

  add_ip-Step :
      (k : IpSlot)
      → Returns (λ t'. IsTables t' × Step none (some k) none none s t t') (add_ip s k t)
  unfolding add_ip replay_step
  add_ip-Step k =
      Returns-bind
        (Replay.add-Returns IpSlot-discrete conv_ip_zero upd_ip slot_hash IsSampled IsConvIp
          (record {
            versions = length-replicate {A = ℕ} 16 0;
            protocols = length-replicate {A = ℕ} 256 0;
          })
          (λ s v h is. conv_update_ip-Returns s h v is) s k t.ip h is.ip)
        λ x (good, found). returns (
          record { ethernet = is.ethernet; ip = good; tcp = is.tcp; udp = is.udp },
          record { ethernet = λ k. refl; ip = found; tcp = λ k. refl; udp = λ k. refl },
        )

  add_tcp-Step :
      (k : KeyPorts)
      → Returns (λ t'. IsTables t' × Step none none (some k) none s t t') (add_tcp s k t)
  unfolding add_tcp replay_step
  add_tcp-Step k =
      Returns-bind
        (Replay.add-Returns KeyPorts-discrete conv_tcp_zero upd_tcp hash_key_tcp IsSampled IsConvTcp
          (record { flags = refl }) (λ s v h is. conv_update_tcp-Returns s h v is) s k t.tcp h
          is.tcp)
        λ x (good, found). returns (
          record { ethernet = is.ethernet; ip = is.ip; tcp = good; udp = is.udp },
          record { ethernet = λ k. refl; ip = λ k. refl; tcp = found; udp = λ k. refl },
        )

  add_udp-Step :
      (k : KeyPorts)
      → Returns (λ t'. IsTables t' × Step none none none (some k) s t t') (add_udp s k t)
  unfolding add_udp replay_step
  add_udp-Step k =
      Returns-bind
        (Replay.add-Returns KeyPorts-discrete conv_udp_zero upd_udp hash_key_udp IsSampled IsAny tt
          (λ s v h is. conv_update_udp-Returns s h v) s k t.udp h is.udp)
        λ x (good, found). returns (
          record { ethernet = is.ethernet; ip = is.ip; tcp = is.tcp; udp = good },
          record { ethernet = λ k. refl; ip = λ k. refl; tcp = λ k. refl; udp = found },
        )

  Step-none : Step none none none none s t t
  unfolding replay_step
  Step-none = record { ethernet = λ k. refl; ip = λ k. refl; tcp = λ k. refl; udp = λ k. refl }

abbrev plan_of : KeyEthernet → Option IpSlot → Option KeyPorts → Option KeyPorts → Plan
plan_of e i c u = record { ethernet = e; ip = i; tcp = c; udp = u }

-- The outcome of the TCP or UDP part for a plan whose other layers are given.
abbrev PortsOutcome : FlowSample → Tables → KeyEthernet → Option IpSlot → Tables → Type 0
PortsOutcome s t e i t' =
    (c : Option KeyPorts) × (u : Option KeyPorts) × (plan_ports s (plan_of e i none none)
      ≡ ok (plan_of e i c u))
    × IsTables t'
    × Step none none c u s t t'

module _ (s : FlowSample) (h : IsSampled s) (t : Tables) (is : IsTables t) (e : KeyEthernet)
    (i : Option IpSlot) where
  process_ports-Outcome : Returns (PortsOutcome s t e i) (process_ports s t)
  unfolding process_ports
  process_ports-Outcome =
      let (key, found, _) = Returns-value (get_key_ports-Returns s h) in
      let (tcp, is_tcp_eq, _) = Returns-value (is_tcp-Returns h (omega arith)) in
      let (udp, is_udp_eq, _) = Returns-value (is_udp-Returns h (omega arith)) in
      rw (is_tcp_eq) (split key found tcp is_tcp_eq udp is_udp_eq)
    where
      split :
          (key : KeyPorts)
          → get_key_ports s ≡ ok key
          → (tcp : Bool) → is_tcp s.raw_header ≡ ok tcp
          → (udp : Bool) → is_udp s.raw_header ≡ ok udp
          → Returns (PortsOutcome s t e i) (
              if tcp
              then process_tcp s t
              else (is_udp s.raw_header >>= λ b. if b then process_udp s t else ok t))
      split key found true tcp_eq udp udp_eq =
          unfold process_tcp plan_ports in
          rw (found) (
            Returns-weaken (add_tcp-Step s h t is key)
              λ t' (good, step). (some key, none, rw (tcp_eq) (rw found refl), good, step))
      split key found false tcp_eq true udp_eq =
          unfold process_udp plan_ports in
          rw (udp_eq) (
            rw found (
              Returns-weaken (add_udp-Step s h t is key) λ t' (good, step).
                (none, some key, rw tcp_eq (rw udp_eq (rw found refl)), good, step)))
      split key found false tcp_eq false udp_eq =
          unfold plan_ports in
          rw udp_eq (returns (none, none, rw tcp_eq (rw udp_eq refl), is, Step-none s h t is))

-- The keys of the sample are `plan`, and each table changed by the sample's key there.
abbrev pub PlanOutcome : ℕ → FlowSample → Tables → Tables → Type 0
PlanOutcome behind s t t' =
    (plan : Plan) × (plan_sample behind s ≡ ok plan)
    × IsTables t'
    × Step (some plan.ethernet) plan.ip plan.tcp plan.udp s t t'

Step-join :
    (e : KeyEthernet) (i : IpSlot) (c u : Option KeyPorts) (s : FlowSample) (t t₁ t₂ t₃ : Tables)
    → Step (some e) none none none s t t₁
    → Step none (some i) none none s t₁ t₂
    → Step none none c u s t₂ t₃
    → Step (some e) (some i) c u s t t₃
unfolding replay_step
Step-join e i c u s t t₁ t₂ t₃ x y z = record {
  ethernet = λ k. z.ethernet k ∙ y.ethernet k ∙ x.ethernet k;
  ip = λ k. z.ip k ∙ y.ip k ∙ ap (step_ip (some i) s k) (x.ip k);
  tcp = λ k. z.tcp k ∙ ap (step_tcp c s k) (y.tcp k ∙ x.tcp k);
  udp = λ k. z.udp k ∙ ap (step_udp u s k) (y.udp k ∙ x.udp k);
}

module _ (behind : ℕ) (s : FlowSample) (h : IsSampled s) (t : Tables) (is : IsTables t) where
  process_ip-Outcome :
      (e : KeyEthernet) (k : KeyIp) (t₁ : Tables)
      → get_key_ip s ≡ ok k
      → IsTables t₁
      → Step (some e) none none none s t t₁
      → Returns
          (λ t₃.
            (c : Option KeyPorts) × (u : Option KeyPorts) × (plan_ports s
                (plan_of e (some (record { key = k; behind = behind })) none none)
              ≡ ok (plan_of e (some (record { key = k; behind = behind })) c u))
            × IsTables t₃
            × Step (some e) (some (record { key = k; behind = behind })) c u s t t₃)
          (process_ip behind s t₁)
  unfolding process_ip
  process_ip-Outcome e k t₁ found is₁ first =
      let slot : IpSlot = record { key = k; behind = behind } in
      rw found (
        Returns-bind (add_ip-Step s h t₁ is₁ slot) λ t₂ (is₂, second).
          Returns-weaken (process_ports-Outcome s h t₂ is₂ e (some slot))
            λ t₃ (c, u, planned, is₃, third).
              (c, u, planned, is₃, Step-join e slot c u s t t₁ t₂ t₃ first second third))

  -- For a sample with a header of at least 128 bytes and well-formed tables, `process_sample_flow`
  -- faults nowhere, and changes in each of the four tables at most the conversation that the
  -- sample's key for that table names.
  pub process_sample_flow-Outcome :
      Returns (PlanOutcome behind s t) (process_sample_flow behind s t)
  unfolding process_sample_flow
  process_sample_flow-Outcome =
      let (e, found, _) = Returns-value (get_key_ethernet-Returns s h) in
      let (ip, is_ip_eq, _) = Returns-value (is_ip-Returns h (omega arith)) in
      let (k, found_ip, _) = Returns-value (get_key_ip-Returns s h) in
      rw found (
        Returns-bind (add_ethernet-Step s h t is e)
          λ t₁ (is₁, first). rw is_ip_eq (split e found ip is_ip_eq k found_ip t₁ is₁ first))
    where
      split :
          (e : KeyEthernet)
          → get_key_ethernet s ≡ ok e
          → (ip : Bool) → is_ip s.raw_header ≡ ok ip
          → (k : KeyIp) → get_key_ip s ≡ ok k
          → (t₁ : Tables) → IsTables t₁
          → Step (some e) none none none s t t₁
          → Returns (PlanOutcome behind s t) (if ip then process_ip behind s t₁ else ok t₁)
      split e found true is_ip_eq k found_ip t₁ is₁ first =
          Returns-weaken (process_ip-Outcome e k t₁ found_ip is₁ first)
            λ t₃ (c, u, planned, is₃, steps). (
              plan_of e (some (record { key = k; behind = behind })) c u,
              unfold plan_sample in rw found (rw is_ip_eq (rw found_ip planned)),
              is₃,
              steps,
            )
      split e found false is_ip_eq k found_ip t₁ is₁ first =
          returns (
            plan_of e none none none,
            unfold plan_sample in rw found (rw is_ip_eq refl),
            is₁,
            first,
          )
