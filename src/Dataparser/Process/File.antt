-- ===== src/Dataparser/Process/File.antt =====
-- A file of flow samples: the tables that `process_file_flow` hands to the storage modules.
use sflow_toolkit.Base.{ℕ, ◌≡◌, refl, ap, ◌∙◌, Option, none, some, List, [], ◌∷◌, length-replicate}
use sflow_toolkit.Base.Results.{ok, Returns, returns, Returns-bind, Returns-weaken, Returns-value}
use sflow_toolkit.Parser.Samples.{FlowSample}
use sflow_toolkit.Dataparser.Packet.Bounds.{IsAny}
use sflow_toolkit.Dataparser.Keys.{
  KeyEthernet, KeyPorts, hash_key_ethernet, hash_key_tcp, hash_key_udp,
}
use sflow_toolkit.Dataparser.Conversations.{
  ConvEthernet, ConvIp, ConvTcp, ConvUdp, conv_ethernet_zero, conv_ip_zero, conv_tcp_zero,
  conv_udp_zero,
}
use sflow_toolkit.Dataparser.Conversations.Bounds.{
  IsSampled, IsConvIp, IsConvTcp, conv_update_ethernet-Returns, conv_update_ip-Returns,
  conv_update_tcp-Returns, conv_update_udp-Returns,
}
use sflow_toolkit.Dataparser.Table.Assoc.{find}
use sflow_toolkit.Dataparser.Table.Replay.{IsGood-empty}
use sflow_toolkit.Dataparser.Process.{
  IpSlot, KeyEthernet-discrete, IpSlot-discrete, KeyPorts-discrete, Tables, process_samples,
  empty_tables, process_file_flow,
}
use sflow_toolkit.Dataparser.Process.Plan.{Plan, plan_sample}
use sflow_toolkit.Dataparser.Process.Replay.{
  slot_hash, upd_ethernet, upd_ip, upd_tcp, upd_udp, find_ethernet, find_ip, find_tcp, find_udp,
  step_ethernet, step_ip, step_tcp, step_udp, IsTables,
}
use sflow_toolkit.Dataparser.Process.Sample.{process_sample_flow-Outcome}

-- The plans of the samples of a file, in their order.
abbrev pub Planned : List (ℕ × FlowSample) → List (FlowSample × Plan) → Type 0
Planned [] [] = Unit {0}
Planned [] (p ∷ ps) = ⊥
Planned (s ∷ ss) [] = ⊥
Planned ((behind, s) ∷ ss) ((s', plan) ∷ ps) =
    (s' ≡ s) × (plan_sample behind s ≡ ok plan) × Planned ss ps

-- All the samples, one after the other, on the conversation of one key.
abbrev pub replay_ethernet :
    KeyEthernet → List (FlowSample × Plan) → Option ConvEthernet → Option ConvEthernet
replay_ethernet k [] o = o
replay_ethernet k ((s, plan) ∷ ps) o =
    replay_ethernet k ps (step_ethernet (some plan.ethernet) s k o)

abbrev pub replay_ip : IpSlot → List (FlowSample × Plan) → Option ConvIp → Option ConvIp
replay_ip k [] o = o
replay_ip k ((s, plan) ∷ ps) o = replay_ip k ps (step_ip plan.ip s k o)

abbrev pub replay_tcp : KeyPorts → List (FlowSample × Plan) → Option ConvTcp → Option ConvTcp
replay_tcp k [] o = o
replay_tcp k ((s, plan) ∷ ps) o = replay_tcp k ps (step_tcp plan.tcp s k o)

abbrev pub replay_udp : KeyPorts → List (FlowSample × Plan) → Option ConvUdp → Option ConvUdp
replay_udp k [] o = o
replay_udp k ((s, plan) ∷ ps) o = replay_udp k ps (step_udp plan.udp s k o)

pub record Replayed (ps : List (FlowSample × Plan)) (t t' : Tables) : Type 0 where
  pub ethernet : (k : KeyEthernet) → find_ethernet t' k ≡ replay_ethernet k ps (find_ethernet t k)
  pub ip : (k : IpSlot) → find_ip t' k ≡ replay_ip k ps (find_ip t k)
  pub tcp : (k : KeyPorts) → find_tcp t' k ≡ replay_tcp k ps (find_tcp t k)
  pub udp : (k : KeyPorts) → find_udp t' k ≡ replay_udp k ps (find_udp t k)

abbrev pub AreSampled : List (ℕ × FlowSample) → Type 0
AreSampled [] = Unit {0}
AreSampled ((behind, s) ∷ ss) = IsSampled s × AreSampled ss

abbrev pub FileOutcome : List (ℕ × FlowSample) → Tables → Tables → Type 0
FileOutcome ss t t' =
    (ps : List (FlowSample × Plan)) × Planned ss ps × IsTables t' × Replayed ps t t'

pub process_samples-Outcome :
    (ss : List (ℕ × FlowSample)) (t : Tables)
    → AreSampled ss
    → IsTables t
    → Returns (FileOutcome ss t) (process_samples ss t)
unfolding process_samples
process_samples-Outcome [] t h is =
    returns (
      [],
      tt,
      is,
      record { ethernet = λ k. refl; ip = λ k. refl; tcp = λ k. refl; udp = λ k. refl },
    )
process_samples-Outcome ((behind, s) ∷ ss) t (h, hs) is =
    Returns-bind (process_sample_flow-Outcome behind s h t is) λ t₁ (plan, planned, is₁, step).
      Returns-weaken (process_samples-Outcome ss t₁ hs is₁) λ t₂ (ps, more, is₂, rest). (
        (s, plan) ∷ ps,
        (refl, planned, more),
        is₂,
        record {
          ethernet = λ k. rest.ethernet k ∙ ap (replay_ethernet k ps) (step.ethernet k);
          ip = λ k. rest.ip k ∙ ap (replay_ip k ps) (step.ip k);
          tcp = λ k. rest.tcp k ∙ ap (replay_tcp k ps) (step.tcp k);
          udp = λ k. rest.udp k ∙ ap (replay_udp k ps) (step.udp k);
        },
      )

pub IsTables-empty : IsTables empty_tables
IsTables-empty = record {
  ethernet =
      IsGood-empty KeyEthernet-discrete conv_ethernet_zero upd_ethernet hash_key_ethernet IsSampled
        IsAny tt (λ s v h _. conv_update_ethernet-Returns s h v);
  ip =
      IsGood-empty IpSlot-discrete conv_ip_zero upd_ip slot_hash IsSampled IsConvIp
        (record {
          versions = length-replicate {A = ℕ} 16 0;
          protocols = length-replicate {A = ℕ} 256 0;
        })
        (λ s v h is. conv_update_ip-Returns s h v is);
  tcp =
      IsGood-empty KeyPorts-discrete conv_tcp_zero upd_tcp hash_key_tcp IsSampled IsConvTcp
        (record { flags = refl }) (λ s v h is. conv_update_tcp-Returns s h v is);
  udp =
      IsGood-empty KeyPorts-discrete conv_udp_zero upd_udp hash_key_udp IsSampled IsAny tt
        (λ s v h _. conv_update_udp-Returns s h v);
}

-- A file of samples with headers of at least 128 bytes is processed without a fault. In each of
-- the four tables the conversation of a key is what the updates of the samples with that key give,
-- in the order of the file, and a key that no sample has is in no table.
pub process_file_flow-Replayed :
    (ss : List (ℕ × FlowSample))
    → AreSampled ss
    → (t : Tables) × (ps : List (FlowSample × Plan)) × (process_file_flow (some ss) ≡ ok t)
      × Planned ss ps
      × ((k : KeyEthernet) → find_ethernet t k ≡ replay_ethernet k ps none)
      × ((k : IpSlot) → find_ip t k ≡ replay_ip k ps none)
      × ((k : KeyPorts) → find_tcp t k ≡ replay_tcp k ps none)
      × ((k : KeyPorts) → find_udp t k ≡ replay_udp k ps none)
unfolding process_file_flow find
process_file_flow-Replayed ss h =
    let (t, done, (ps, planned, is, found)) =
      Returns-value (process_samples-Outcome ss empty_tables h IsTables-empty) in
    (t, ps, done, planned, found.ethernet, found.ip, found.tcp, found.udp)
