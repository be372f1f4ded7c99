-- ===== src/Agentlist/Lookup.antt =====
-- What `agentlist_search` finds after `agentlist_add_address`.
use sflow_toolkit.Base.{
  ℕ, suc, ◌+◌, ◌<◌, ◌≡◌, refl, sym, ◌∙◌, true, false, Option, none, some, ◌==◌, if◌then◌else◌,
  arith, Option-cases, inl, inr, Bool-cases,
}
use sflow_toolkit.Base.Results.{ok}
use sflow_toolkit.Base.Heap.{update, deref}
use sflow_toolkit.Agentlist.{
  Agent, AgentAddress, AgentList, hash_key, search_loop, agentlist_search, link_behind,
  agentlist_add_address,
}

-- The entry `p` of the bucket `k` is an allocated node whose address hashes to `k`.
abbrev pub IsBucket : AgentList → ℕ → Option ℕ → Type 0
IsBucket l k none = Unit {0}
IsBucket l k (some p) =
    (n : AgentAddress) × (l.nodes p ≡ some n) × (hash_key n.address ≡ k) × (p < l.node_top)

abbrev pub IsAgentList : AgentList → Type 0
IsAgentList l = (k : ℕ) → IsBucket l k (l.hash k)

-- The loop over the chain never runs: its test wants a result before one is found.
search_loop_skipped :
    (k : ℕ) (l : AgentList) (addr : ℕ) (n : AgentAddress)
    → search_loop (suc k) l addr n none ≡ ok none
unfolding search_loop
search_loop_skipped k l addr n = elim (Option-cases n.next) [
  | inl e ↦ rw (e, search_loop) refl
  | inr (p, e) ↦ rw (e, search_loop) refl
]

-- So a search compares the address of the bucket's first node, and nothing else.
pub agentlist_search-first :
    (l : AgentList) (addr p : ℕ) (n : AgentAddress)
    → l.hash (hash_key addr) ≡ some p
    → l.nodes p ≡ some n
    → agentlist_search l addr ≡ ok (if n.address == addr then some n.agent else none)
unfolding agentlist_search
agentlist_search-first l addr p n h e = ground (arith, search_loop_skipped l.node_top l addr n)

pub agentlist_search-empty :
    (l : AgentList) (addr : ℕ) → l.hash (hash_key addr) ≡ none → agentlist_search l addr ≡ ok none
unfolding agentlist_search
agentlist_search-empty l addr h = ground arith

-- The agents themselves do not matter to a search.
pub agentlist_search-agents :
    (l : AgentList) (g : ℕ → Option Agent) (addr : ℕ)
    → agentlist_search (record l { agents = g }) addr ≡ agentlist_search l addr
unfolding agentlist_search
agentlist_search-agents l g addr = ground (
  arith,
  search_loop_skipped l.node_top (record l { agents = g }) addr,
  search_loop_skipped l.node_top l addr,
)

-- What the two steps of `agentlist_add_address` leave behind.
record Added (l : AgentList) (address agent : ℕ) (l' : AgentList) : Type 0 where
  hash : l'.hash ≡ update l.hash (hash_key address) (some l.node_top)
  top : l'.node_top ≡ l.node_top + 1
  new : l'.nodes l.node_top ≡ some (record { address = address; agent = agent; next = none })
  kept :
      (q : ℕ) (n : AgentAddress)
      → q < l.node_top
      → l.nodes q ≡ some n
      → (m : AgentAddress) × (l'.nodes q ≡ some m) × (m.address ≡ n.address) × (m.agent ≡ n.agent)
  agents : l'.agents ≡ l.agents
  agent_top : l'.agent_top ≡ l.agent_top

module _ (l : AgentList) (address agent : ℕ) where
  abbrev new_node : AgentAddress
  new_node = record { address = address; agent = agent; next = none }

  abbrev nodes₁ : ℕ → Option AgentAddress
  nodes₁ = update l.nodes l.node_top (some new_node)

  kept_behind :
      (p : ℕ) (n : AgentAddress)
      → l.nodes p ≡ some n
      → (q : ℕ) (m : AgentAddress) → q < l.node_top
      → l.nodes q ≡ some m
      → (r : AgentAddress) × (update nodes₁ p (some (record n { next = some l.node_top })) q
          ≡ some r)
        × (r.address ≡ m.address)
        × (r.agent ≡ m.agent)
  kept_behind p n held q m lt h = elim (Bool-cases (q == p)) [
    | inl e ↦ (
      record n { next = some l.node_top },
      rw e refl,
      same AgentAddress.address e,
      same AgentAddress.agent e,
    )
    | inr e ↦ (m, ground arith, refl, refl)
  ]
    where
      same : (f : AgentAddress → ℕ) → (q == p) ≡ true → f n ≡ f m
      same f e = ground arith

  add_to_bucket :
      (b : Option ℕ)
      → l.hash (hash_key address) ≡ b
      → IsBucket l (hash_key address) b
      → (l' : AgentList) × (agentlist_add_address address agent l ≡ ok l')
        × Added l address agent l'
  unfolding agentlist_add_address
  add_to_bucket none e is = (
    record l {
      nodes = nodes₁;
      node_top = l.node_top + 1;
      hash = update l.hash (hash_key address) (some l.node_top);
    },
    rw (e, link_behind) refl,
    record {
      hash = refl;
      top = refl;
      new = ground arith;
      kept = λ q n lt h. (n, ground arith, refl, refl);
      agents = refl;
      agent_top = refl;
    },
  )
  add_to_bucket (some p) e (n, held, hashes, below) = (
    record l {
      nodes = update nodes₁ p (some (record n { next = some l.node_top }));
      node_top = l.node_top + 1;
      hash = update l.hash (hash_key address) (some l.node_top);
    },
    rw (e, link_behind) (let there : nodes₁ p ≡ some n = ground arith in rw (there, deref) refl),
    record {
      hash = refl;
      top = refl;
      new = ground arith;
      kept = λ q m lt h. kept_behind p n held q m lt h;
      agents = refl;
      agent_top = refl;
    },
  )

module _ (l : AgentList) (address agent : ℕ) (l' : AgentList) (is : IsAgentList l)
    (added : Added l address agent l') where
  hash_at : (k : ℕ) → l'.hash k ≡ update l.hash (hash_key address) (some l.node_top) k
  hash_at k = rw added.hash refl

  old-IsBucket : (k : ℕ) (b : Option ℕ) → IsBucket l k b → IsBucket l' k b
  old-IsBucket k none h = tt
  old-IsBucket k (some p) (n, held, hashes, below) =
      let (m, there, address_m, agent_m) = added.kept p n below held in
      (m, there, rw address_m hashes, rw added.top (omega arith))

  Added-IsAgentList : IsAgentList l'
  Added-IsAgentList k = rw (hash_at k) (elim (Bool-cases (k == hash_key address)) [
    | inl e ↦ rw e (
      record { address = address; agent = agent; next = none },
      added.new,
      ground arith,
      rw added.top (omega arith),
    )
    | inr e ↦ rw e (old-IsBucket k (l.hash k) (is k))
  ])

  -- Where the bucket is not the one that was written, its first node still has its address.
  search_kept :
      (b : ℕ) (o : Option ℕ)
      → l.hash (hash_key b) ≡ o
      → l'.hash (hash_key b) ≡ o
      → IsBucket l (hash_key b) o
      → agentlist_search l' b ≡ agentlist_search l b
  search_kept b none e e' h = agentlist_search-empty l' b e' ∙ sym (agentlist_search-empty l b e)
  search_kept b (some p) e e' (n, held, hashes, below) =
      let (m, there, address_m, agent_m) = added.kept p n below held in
      agentlist_search-first l' b p m e' there
      ∙ rw (address_m, agent_m) (sym (agentlist_search-first l b p n e held))

  Added-search :
      (b : ℕ)
      → agentlist_search l' b ≡ (
          if b == address
          then ok (some agent)
          else if hash_key b == hash_key address
          then ok none
          else agentlist_search l b)
  Added-search b = elim (Bool-cases (hash_key b == hash_key address)) [
    | inl e ↦ rw e (
        agentlist_search-first l' b l.node_top _ (hash_at (hash_key b) ∙ rw e refl) added.new
        ∙ ground arith)
    | inr e ↦
        let apart : (b == address) ≡ false = ground arith in
        rw (e, apart)
          (search_kept b (l.hash (hash_key b)) refl (hash_at (hash_key b) ∙ rw e refl)
            (is (hash_key b)))
  ]

-- In a well-formed table adding an address succeeds and keeps it well formed. Afterwards a search
-- for the address finds its agent, a search for another address of the same bucket finds nothing,
-- and every other search finds what it found before.
pub search-add_address :
    (l : AgentList) (address agent : ℕ)
    → IsAgentList l
    → (l' : AgentList) × (agentlist_add_address address agent l ≡ ok l')
      × IsAgentList l'
      × ((b : ℕ)
          → agentlist_search l' b ≡ (
              if b == address
              then ok (some agent)
              else if hash_key b == hash_key address
              then ok none
              else agentlist_search l b))
search-add_address l address agent is =
    let (l', done, added) =
      add_to_bucket l address agent (l.hash (hash_key address)) refl (is (hash_key address)) in
    (
      l',
      done,
      Added-IsAgentList l address agent l' is added,
      Added-search l address agent l' is added,
    )
