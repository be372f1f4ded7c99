-- ===== src/Configparser/Lists.antt =====
-- The list of agents in the configuration file, as parse_event of src/configparser.c reads it: the
-- name of an agent and a list of its addresses.
use sflow_toolkit.Base.{
  ℕ, Option, ◌^◌, ◌<◌, none, some, List, [], ◌∷◌, ◌≡◌, refl, sym, ◌∙◌, ap, ◌==◌, if◌then◌else◌,
  Bool, true, false, length, All, lt→ltb, arith,
}
use sflow_toolkit.Base.Results.{Result, ok, ◌>>=◌, and_then, and_then_ext, and_then_assoc}
use sflow_toolkit.Bytes.{Bytes}
use sflow_toolkit.Util.{codes, same, num_to_ip}
use sflow_toolkit.Util.Addresses.{ip_to_num-num_to_ip, num_to_ip-head}
use sflow_toolkit.Agentlist.{AgentList, agentlist_add_agent, agentlist_add_address}
use sflow_toolkit.Configparser.{
  Event, scalar, sequence_start, sequence_end, other, Reader, is_other_program, reads_agents,
  copy_key, primary_agent, agent_address, agent_scalar, parse_event, parse_events,
}
use sflow_toolkit.Configparser.Sections.{IsPlain, scalar_event-IsPlain}

abbrev pub put_addresses : List ℕ → List Event → List Event
put_addresses [] rest = rest
put_addresses (ip ∷ ips) rest = scalar (num_to_ip ip) ∷ put_addresses ips rest

-- `- name : [address, address, ...]`
abbrev pub put_agent : Bytes → List ℕ → List Event → List Event
put_agent name ips rest =
    other ∷ scalar name ∷ sequence_start ∷ put_addresses ips (sequence_end ∷ other ∷ rest)

abbrev pub add_addresses : ℕ → List ℕ → AgentList → Result AgentList
add_addresses a [] l = ok l
add_addresses a (ip ∷ ips) l = do l' ← agentlist_add_address ip a l; add_addresses a ips l'

-- The agent under its first address, and each of its addresses.
abbrev pub register : Bytes → ℕ → List ℕ → AgentList → Result AgentList
register name first ips l =
    let (a, l') = agentlist_add_agent name first l in add_addresses a (first ∷ ips) l'

IsPlain-num_to_ip : (num : ℕ) → IsPlain (num_to_ip num)
IsPlain-num_to_ip num =
    let (c, s, e, (low, high)) = num_to_ip-head num in
    let letter : (c == b's') ≡ false = ground arith in rw e (rw letter (refl, refl, refl, refl))

if-same : (b : Bool) → (if b then true else true) ≡ true
if-same true = refl
if-same false = refl

if-test : (b : Bool) → (if b then true else false) ≡ b
if-test true = refl
if-test false = refl

-- Inside of the list of addresses, before and behind the first one.
abbrev inside : Reader → Option ℕ → Reader
inside s agent = record s { is_list = true; in_agent = true; in_agent_list = true; agent = agent }

-- Inside of the list of agents, where the next one is due.
abbrev pub between : Reader → Reader
between s = record s { is_list = true; in_agent = false; agent = none }

-- Outside of lists.
abbrev pub outside : Reader → Reader
outside s = record s { in_agent = false; in_agent_list = false; is_list = false }

-- The reader is in the list of agents, or enters it with the next name.
abbrev pub IsListing : Reader → Type 0
IsListing s = (if same s.key (codes "agents") then true else s.in_agent_list) ≡ true

module _ (pname : Bytes) (program : is_other_program pname ≡ ok true) where
  parse_event-agent_scalar :
      (val : Bytes) (s : Reader)
      → IsPlain val
      → s.is_list ≡ true
      → parse_event pname (scalar val) s ≡ agent_scalar val s
  unfolding parse_event reads_agents
  parse_event-agent_scalar val s plain listing =
      rw (scalar_event-IsPlain pname val s plain) (rw listing (rw program refl))

  parse_event-name :
      (name : Bytes) (s : Reader)
      → IsPlain name
      → length name < 256
      → IsListing s
      → parse_event pname (scalar name) (between s) ≡ ok (record (inside s none) { key = name })
  unfolding agent_scalar copy_key
  parse_event-name name s plain short listed =
      let fits = lt→ltb (length name) 256 short in
      parse_event-agent_scalar name (between s) plain refl ∙ rw listed (rw fits refl)

  parse_event-address :
      (ip a : ℕ) (s : Reader)
      → ip < 2 ^ 32
      → parse_event pname (scalar (num_to_ip ip)) (inside s (some a))
        ≡ and_then
            (agentlist_add_address ip a s.agents)
            (λ l. ok (inside (record s { agents = l }) (some a)))
  unfolding agent_scalar agent_address primary_agent
  parse_event-address ip a s small =
      parse_event-agent_scalar (num_to_ip ip) (inside s (some a)) (IsPlain-num_to_ip ip) refl
      ∙ rw (if-same (same s.key (codes "agents")))
          (rw (ip_to_num-num_to_ip ip small, and_then) refl)

  parse_event-primary :
      (ip : ℕ) (s : Reader)
      → ip < 2 ^ 32
      → parse_event pname (scalar (num_to_ip ip)) (inside s none) ≡ (
          let (a, l) = agentlist_add_agent s.key ip s.agents in
          parse_event pname (scalar (num_to_ip ip)) (inside (record s { agents = l }) (some a)))
  unfolding agent_scalar agent_address primary_agent
  parse_event-primary ip s small =
      let (a, l) = agentlist_add_agent s.key ip s.agents in
      parse_event-agent_scalar (num_to_ip ip) (inside s none) (IsPlain-num_to_ip ip) refl
      ∙ rw (ip_to_num-num_to_ip ip small, and_then)
          (rw (if-same (same s.key (codes "agents"))) refl)
      ∙ sym (
          parse_event-agent_scalar (num_to_ip ip) (inside (record s { agents = l }) (some a))
            (IsPlain-num_to_ip ip) refl)

  parse_events-put_addresses :
      (ips : List ℕ) (a : ℕ) (rest : List Event) (s : Reader)
      → All (λ ip. ip < 2 ^ 32) ips
      → parse_events pname (put_addresses ips rest) (inside s (some a))
        ≡ and_then
            (add_addresses a ips s.agents)
            (λ l. parse_events pname rest (inside (record s { agents = l }) (some a)))
  unfolding parse_events
  parse_events-put_addresses [] a rest s small = refl
  parse_events-put_addresses (ip ∷ ips) a rest s (here, small) =
      let added = agentlist_add_address ip a s.agents in
      ap (λ m. and_then m (λ s'. parse_events pname (put_addresses ips rest) s'))
        (parse_event-address ip a s here)
      ∙ and_then_assoc added _ _
      ∙ and_then_ext added _ _
          (λ l. parse_events-put_addresses ips a rest (record s { agents = l }) small)
      ∙ sym (and_then_assoc added _ _)

  -- In the list of agents, a name that is no keyword and shorter than 256 bytes with one or more
  -- addresses of 32 bits registers an agent under the first address and calls agentlist_add_address with
  -- this agent for each address, in their order, with the faults of these calls. Behind it the next agent is due. (The program is not `stprocessd`, which skips the
  -- list.)
  pub parse_events-put_agent :
      (name : Bytes) (first : ℕ) (ips : List ℕ) (rest : List Event) (s : Reader)
      → IsPlain name
      → length name < 256
      → All (λ ip. ip < 2 ^ 32) (first ∷ ips)
      → IsListing s
      → parse_events pname (put_agent name (first ∷ ips) rest) (between s)
        ≡ and_then (register name first ips s.agents) (λ l.
          parse_events pname rest
            (between (record s { key = name; in_agent_list = true; is_value = false; agents = l })))
  unfolding parse_events parse_event
  parse_events-put_agent name first ips rest s plain short (lt, small) listed =
      let s' : Reader = record s { key = name } in
      let (a, l) = agentlist_add_agent name first s.agents in
      rw (parse_event-name name s plain short listed, and_then)
        (ap (λ m. and_then m (parse_events pname (put_addresses ips (sequence_end ∷ other ∷ rest))))
            (parse_event-primary first s' lt)
          ∙ parse_events-put_addresses (first ∷ ips) a (sequence_end ∷ other ∷ rest)
              (record s' { agents = l }) (lt, small))

  -- An empty list, read outside of lists, is not left at its end: the name of the setting behind
  -- it, which is no keyword and shorter than 256 bytes, becomes the name of an agent. (The program
  -- is not `stprocessd`.)
  pub parse_events-empty_list :
      (key : Bytes) (rest : List Event) (s : Reader)
      → IsPlain key
      → length key < 256
      → parse_events pname (sequence_start ∷ sequence_end ∷ scalar key ∷ rest) (outside s)
        ≡ parse_events pname rest (record s {
          in_agent_list = same s.key (codes "agents");
          in_agent = true;
          key = key;
          is_value = false;
          is_list = true;
        })
  unfolding parse_events parse_event agent_scalar copy_key
  parse_events-empty_list key rest s plain short =
      let fits = lt→ltb (length key) 256 short in
      let s' : Reader = record (outside s) { is_list = true; is_value = false } in
      rw (parse_event-agent_scalar key s' plain refl, and_then)
        (rw fits (rw (if-test (same s.key (codes "agents"))) refl))
