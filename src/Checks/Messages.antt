-- ===== src/Checks/Messages.antt =====
-- Messages between the daemons, and a collector that stores the first samples of a minute.
use sflow_toolkit.Base.{ℕ, ◌≡◌, refl, none, some, List, [], ◌∷◌, replicate, arith}
use sflow_toolkit.Base.Results.{ok}
use sflow_toolkit.Base.Heap.{update}
use sflow_toolkit.Bytes.{Bytes}
use sflow_toolkit.Util.{codes}
use sflow_toolkit.Agentlist.{Agent, AgentList, agentlist_search, strncpy}
use sflow_toolkit.Messaging.{Msg}
use sflow_toolkit.Messaging.Delivery.{IsMsg, Receives, send_each, send_each-Receives}
use sflow_toolkit.Samplestore.{
  Stored, Store, SampleType, flow, get_file_path, get_slot, suffix, add_samples,
}
use sflow_toolkit.Samplestore.Minutes.{IsOf, IsStored}
use sflow_toolkit.Samplestore.Passing.{IsPassedOn, add_samples-IsPassedOn}
use sflow_toolkit.Checks.Files.{frame}

abbrev first_file : Bytes
first_file = codes "20091126_1700_1_flow"

abbrev message : Msg
message = record {
  agent = 3232235777;
  timestamp = 20987000;
  type = 1;
  filename = strncpy 256 first_file;
}

message-IsMsg : IsMsg first_file message
message-IsMsg = record {
  agent = omega arith;
  timestamp = omega arith;
  type = omega arith;
  filename = refl;
  bytes = omega arith;
  nonempty = omega arith;
  short = omega arith;
}

send_each-Receives_example :
    (q : List Bytes) × (send_each (message ∷ message ∷ []) [] ≡ ok q)
    × Receives q (message ∷ message ∷ [])
send_each-Receives_example =
    send_each-Receives (message ∷ message ∷ [])
      ((first_file, message-IsMsg), ((first_file, message-IsMsg), tt)) (omega arith)

-- The text of every minute is the same.
abbrev stamp : ℕ → Bytes
stamp timestamp = codes "20091126_1701_"

-- The agent 1 writes its samples of the minute 0 to the descriptor 5.
abbrev agent : Agent
agent = record {
  name = strncpy 32 (codes "switch");
  address = 1;
  last_seen = 0;
  uptime = 0;
  sequence = 0;
  datagrams = 0;
  drops = 0;
  fn_flow = strncpy 256 first_file;
  fn_cntr = replicate 256 0;
  fd_flow = 5;
  fd_cntr = 0;
  fd_min_flow = 0;
  fd_min_cntr = 0;
}

abbrev agents : AgentList
agents = record {
  hash = update (λ _. none) 1 (some 0);
  nodes = update (λ _. none) 0 (some (record { address = 1; agent = 0; next = none }));
  node_top = 1;
  agents = update (λ _. none) 0 (some agent);
  agent_top = 1;
}

abbrev store : Store
store = record {
  agents = agents;
  files = record {
    contents = λ _. [];
    opened = update (λ _. none) 5 (some (record { file = first_file; offset = 0 }));
  };
  queue = [];
}

store-IsStored : IsStored SampleType.sftype_flow 1 0 0 first_file [] store
unfolding get_slot agentlist_search
store-IsStored = record {
  agent = agent;
  is_agent = record { found = refl; held = refl };
  same_minute = refl;
  writing = record {
    valid = omega arith;
    name = refl;
    at_end = record { opened = refl; contents = refl };
  };
  range = omega arith;
}

frame-IsOf : (size : ℕ) → IsOf SampleType.sftype_flow 1 1 (flow (frame size))
frame-IsOf size = record {
  of_type = refl;
  of_agent = refl;
  range = omega arith;
  of_minute = omega arith;
}

abbrev second_file : Bytes
second_file = get_file_path stamp 1 60 (suffix SampleType.sftype_flow)

abbrev frames : List Stored
frames = flow (frame 1500) ∷ flow (frame 64) ∷ []

add_samples-IsPassedOn_example :
    (st' : Store) × (add_samples stamp
        ((some 6, flow (frame 1500)) ∷ (none, flow (frame 64)) ∷ [])
        store
      ≡ ok st')
    × IsPassedOn SampleType.sftype_flow 1 1 0 1 first_file second_file frames store st'
unfolding store-IsStored
add_samples-IsPassedOn_example =
    add_samples-IsPassedOn stamp SampleType.sftype_flow 1 0 1 0 first_file [] store store-IsStored 6
      (flow (frame 1500)) ((none, flow (frame 64)) ∷ []) (frame-IsOf 1500) (frame-IsOf 64, tt)
      (λ e. omega arith)
      (record { bytes = omega arith; nonempty = omega arith; short = omega arith }) (omega arith)
      (omega arith) refl
