-- ===== src/Checks/Running.antt =====
-- The two threads of the collector: buffers that were just allocated, and a datagram that is received
-- after a flush and a round of writing.
use sflow_toolkit.Base.{ℕ, ◌≡◌, refl, Option, none, some, [], ◌∷◌, false, arith}
use sflow_toolkit.Base.Results.{Result, ok, fault, and_then, Returns}
use sflow_toolkit.Bytes.{Bytes}
use sflow_toolkit.Agentlist.{agentlist_search}
use sflow_toolkit.Bufferqueue.{granted, no_data, bqueue_push}
use sflow_toolkit.Bufferqueue.Wait.{bqueue_pop}
use sflow_toolkit.Parser.Collect.{parse_datagram, agent_key}
use sflow_toolkit.Parser.Encode.Samples.{v4, first_word}
use sflow_toolkit.Parser.RoundTrip.Samples.{collected_all, flows, cntrs}
use sflow_toolkit.Parser.RoundTrip.Received.{template, noted, parse_datagram-put_datagram}
use sflow_toolkit.Stcollectd.{Collecting, flush_lists}
use sflow_toolkit.Stcollectd.Collect.{CollectLoop, collect_one}
use sflow_toolkit.Stcollectd.Memory.{Granted, allocate_memory, Passes, PassesOn}
use sflow_toolkit.Stcollectd.Memory.Conserved.{
  Allocated, OwningBoth, allocate_memory-Allocated, PassesOn-OwningBoth,
}
use sflow_toolkit.Stcollectd.System.{
  System, in_loop, taking_flow, taking_cntr, Taken, Step, Reach, store, write_out, buffer_samples,
}
use sflow_toolkit.Samplestore.{add_samples}
use sflow_toolkit.Stcollectd.System.Files.{WritesOn}
use sflow_toolkit.Stcollectd.System.Reachable.{IsSystem, Reach-IsSystem}
use sflow_toolkit.Stcollectd.System.Delivered.{Delivers, Reach-DeliversBoth}
use sflow_toolkit.Checks.Datagrams.{agent, sent, sent-All, received, header}
use sflow_toolkit.Checks.Threads.{collecting, side-Owns}
use sflow_toolkit.Checks.Collecting.{cfg, fresh, fresh-IsFresh, start, arrived}

-- Two buffers of each kind, of which one allocation fails.
abbrev some_granted : Granted
some_granted = record {
  buffers = granted ∷ no_data ∷ granted ∷ granted ∷ granted ∷ [];
  pop = granted;
  wakes = [];
}

allocate_memory-Allocated_example :
    Returns (Allocated 3 3) (allocate_memory cfg 240 260 some_granted some_granted)
allocate_memory-Allocated_example =
    allocate_memory-Allocated cfg 240 260 (omega arith) some_granted some_granted 3 3 refl refl refl
      refl

-- A pair of buffers was handed over, and the thread takes the next ones.
abbrev handed : CollectLoop
handed = record start { flushed = fresh ∷ [] }

abbrev loop : CollectLoop
loop = record {
  collector =
      collected_all (template 1 header agent) sent (noted 1 header 0 agent handed.collector);
  total_datagrams = 1;
  t = 1;
  flushed = fresh ∷ [];
}

parsed :
    parse_datagram received 400 1 0 handed.collector
    ≡ ok (collected_all (template 1 header agent) sent (noted 1 header 0 agent handed.collector))
unfolding agentlist_search agent_key first_word flows cntrs
parsed =
    parse_datagram-put_datagram 5 (v4 167772161) 0 7 1000 sent (1 ∷ []) 400 1 0 0 agent
      handed.collector
      (omega arith, omega arith, omega arith, omega arith, omega arith, omega arith) sent-All refl
      refl (omega arith, omega arith) (omega arith, omega arith)

collected : collect_one cfg (arrived, fresh) handed ≡ ok loop
unfolding collect_one collected_all noted template
collected = rw (parsed, and_then) refl

abbrev stamp : ℕ → Bytes
stamp now = []

abbrev taking : System
taking = record {
  loop = handed;
  stage = taking_flow false fresh;
  written = 0;
  free_flow = fresh.flow ∷ fresh.flow ∷ [];
  free_cntr = fresh.cntr ∷ [];
  files = record { contents = λ name. []; opened = λ fd. none };
  queue = [];
}

abbrev with_flow : System
with_flow = record taking { stage = taking_cntr false fresh; free_flow = fresh.flow ∷ [] }

abbrev with_both : System
with_both = record with_flow { stage = in_loop; free_cntr = [] }

abbrev written : System
written = record with_both {
  written = 1;
  free_flow = fresh.flow ∷ fresh.flow ∷ [];
  free_cntr = fresh.cntr ∷ [];
}

abbrev busy : System
busy = record written { loop = loop }

taking-busy : Reach cfg stamp taking busy
unfolding collected_all noted template write_out buffer_samples add_samples
taking-busy =
    Reach.next {t = written}
      (Reach.next {t = with_both}
        (Reach.next {t = with_flow}
          (Reach.next Reach.here
            (Step.take_flow taking false fresh (fresh.flow ∷ []) refl (Taken.popped (omega arith))))
          (Step.take_cntr with_flow false fresh [] refl (Taken.popped (omega arith))))
        (Step.round with_both (λ n. none) fresh (store with_both) refl refl))
      (Step.turn written arrived fresh loop refl fresh-IsFresh collected refl)

taking-IsSystem : IsSystem cfg taking
taking-IsSystem = record {
  accounted = record {
    flow_size = refl;
    cntr_size = refl;
    flow_room = omega arith;
    cntr_room = omega arith;
    flow_total = refl;
    cntr_total = refl;
  };
  handed = (
    record {
      flow_count = omega arith;
      flow_size = refl;
      cntr_count = omega arith;
      cntr_size = refl;
    },
    tt,
  );
  free_flow = (record { count = refl; slots = refl }, (record { count = refl; slots = refl }, tt));
  free_cntr = (record { count = refl; slots = refl }, tt);
  behind = omega arith;
}

Reach-IsSystem_example : IsSystem cfg busy
Reach-IsSystem_example =
    Reach-IsSystem cfg stamp (omega arith) (omega arith) taking-busy taking-IsSystem

Reach-DeliversBoth_example :
    Delivers (λ b. b.flow) taking busy
    × Delivers (λ b. b.cntr) taking busy
    × WritesOn stamp taking busy
Reach-DeliversBoth_example =
    Reach-DeliversBoth cfg stamp (omega arith) (omega arith) taking-busy taking-IsSystem

abbrev or_else : Collecting → Result (Option Collecting) → Collecting
or_else s (ok (some s')) = s'
or_else s (ok none) = s
or_else s (fault e) = s

abbrev flushed : Collecting
flushed = or_else collecting (flush_lists 5 (granted, []) (granted, []) collecting)

collecting-flushed : flush_lists 5 (granted, []) (granted, []) collecting ≡ ok (some flushed)
unfolding flush_lists bqueue_push bqueue_pop
collecting-flushed = refl

collecting-OwningBoth : OwningBoth 3 3 collecting
collecting-OwningBoth = (
  record { fs = 1 ∷ 0 ∷ []; us = 2 ∷ []; owns = side-Owns; all = refl },
  record { fs = 1 ∷ 0 ∷ []; us = 2 ∷ []; owns = side-Owns; all = refl },
)

PassesOn-OwningBoth_example : OwningBoth 3 3 flushed
PassesOn-OwningBoth_example =
    PassesOn-OwningBoth cfg 3 3 (omega arith) (omega arith) (omega arith)
      (PassesOn.next PassesOn.here (
        Passes.flushes collecting flushed (granted, []) (granted, []) (omega arith) (omega arith)
          collecting-flushed))
      collecting-OwningBoth
