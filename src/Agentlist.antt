-- ===== src/Agentlist.antt =====
-- The agent table of src/agentlist.c: a hash on the low 24 bits of an address, with chains.
-- Pointers are numbers, `NULL` is `none`, and `malloc` hands out the next number and does not fail.
pub mod Lookup
use sflow_toolkit.Base.{
  ℕ, zero, suc, ◌+◌, ◌-◌, ◌%◌, ◌^◌, Option, none, some, List, ◌++◌, ◌==◌, if◌then◌else◌, length,
  take, replicate,
}
use sflow_toolkit.Base.Results.{Result, ok, fault, null_pointer, out_of_fuel, ◌>>=◌}
use sflow_toolkit.Base.Heap.{update, deref}
use sflow_toolkit.Bytes.{Bytes}

pub record Agent : Type 0 where
  pub name : Bytes
  pub address : ℕ
  pub last_seen : ℕ
  pub uptime : ℕ
  pub sequence : ℕ
  pub datagrams : ℕ
  pub drops : ℕ
  pub fn_flow : Bytes
  pub fn_cntr : Bytes
  pub fd_flow : ℕ
  pub fd_cntr : ℕ
  pub fd_min_flow : ℕ
  pub fd_min_cntr : ℕ

pub record AgentAddress : Type 0 where
  pub address : ℕ
  pub agent : ℕ
  pub next : Option ℕ

-- `agenthash`, and the two kinds of heap objects that it leads to.
pub record AgentList : Type 0 where
  pub hash : ℕ → Option ℕ
  pub nodes : ℕ → Option AgentAddress
  pub node_top : ℕ
  pub agents : ℕ → Option Agent
  pub agent_top : ℕ

abbrev pub hash_size : ℕ
hash_size = 0x01000000

-- `addr & (HASH_SIZE - 1)`
abbrev pub hash_key : ℕ → ℕ
hash_key addr = addr % hash_size

unfoldable pub agentlist_init : AgentList
agentlist_init = record {
  hash = λ _. none;
  nodes = λ _. none;
  node_top = 0;
  agents = λ _. none;
  agent_top = 0;
}

-- `while(agent_addr->next != NULL && result != NULL)`
unfoldable pub search_loop : ℕ → AgentList → ℕ → AgentAddress → Option ℕ → Result (Option ℕ)
search_loop zero l addr n result = fault out_of_fuel
search_loop (suc k) l addr n result = elim n.next [
  | none ↦ ok result
  | some p ↦ elim result [
    | none ↦ ok none
    | some a ↦ do
      m ← deref l.nodes p
      search_loop k l addr m (if m.address == addr then some m.agent else some a)
  ]
]

unfoldable pub agentlist_search : AgentList → ℕ → Result (Option ℕ)
unfolding search_loop
agentlist_search l addr = elim (l.hash (hash_key addr)) [
  | none ↦ ok none
  | some p ↦ do
    n ← deref l.nodes p
    if n.address == addr then ok (some n.agent) else search_loop (suc l.node_top) l addr n none
]

-- `strncpy(dst, src, n)` into `n` bytes.
unfoldable pub strncpy : ℕ → Bytes → Bytes
strncpy n s = take n s ++ replicate (n - length s) 0

unfoldable pub agentlist_add_agent : Bytes → ℕ → AgentList → ℕ × AgentList
unfolding strncpy
agentlist_add_agent name address l = (
  l.agent_top,
  record l {
    agents = update l.agents l.agent_top (
        some (record {
          name = strncpy 32 name;
          address = address;
          last_seen = 0;
          uptime = 0;
          sequence = 0;
          datagrams = 0;
          drops = 0;
          fn_flow = replicate 256 0;
          fn_cntr = replicate 256 0;
          fd_flow = 0;
          fd_cntr = 0;
          fd_min_flow = 0;
          fd_min_cntr = 0;
        }));
    agent_top = l.agent_top + 1;
  },
)

-- `tmp->next = agent_addr`, on the first node of the bucket, if it has one.
unfoldable pub link_behind : Option ℕ → ℕ → AgentList → Result AgentList
link_behind none p l = ok l
link_behind (some tmp) p l = do
  n ← deref l.nodes tmp
  ok (record l { nodes = update l.nodes tmp (some (record n { next = some p })) })

unfoldable pub agentlist_add_address : ℕ → ℕ → AgentList → Result AgentList
unfolding link_behind
agentlist_add_address address agent l = do
  l' ← link_behind (l.hash (hash_key address)) l.node_top (record l {
    nodes =
        update l.nodes l.node_top (some (record { address = address; agent = agent; next = none }));
    node_top = l.node_top + 1;
  })
  ok (record l' { hash = update l'.hash (hash_key address) (some l.node_top) })
