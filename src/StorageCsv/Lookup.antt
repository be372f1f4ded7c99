-- ===== src/StorageCsv/Lookup.antt =====
-- hash_lookup of src/storage_csv.c finds one node for each interface of an agent.
use sflow_toolkit.Base.{
  ℕ, zero, suc, ◌<◌, ◌≤◌, ◌≡◌, refl, ◌∙◌, inl, inr, Option, none, some, ◌==◌, true, false,
  Bool-cases, arith,
}
use sflow_toolkit.Base.Results.{ok, and_then, Returns, returns, Returns-value}
use sflow_toolkit.StorageCsv.{
  CntrStatus, StatusHash, status_key, is_status, walk, add_status, found_status, hash_lookup,
}

abbrev pub IsBelow : ℕ → Option ℕ → Type 0
IsBelow k none = Unit {0}
IsBelow k (some p) = p < k

-- Every node leads to older ones only, so the chains end.
pub record IsStored (h : StatusHash) : Type 0 where
  pub bucket : (k : ℕ) → IsBelow h.top (h.buckets k)
  pub node : (p : ℕ) → p < h.top → (n : CntrStatus) × (h.nodes p ≡ some n) × IsBelow p n.next

abbrev pub IsStatus : StatusHash → ℕ → ℕ → ℕ → Type 0
IsStatus h agent ifindex p =
    (n : CntrStatus) × (h.nodes p ≡ some n) × (is_status agent ifindex n ≡ true)

IsBelow-weaken : {k m : ℕ} (o : Option ℕ) → k ≤ m → IsBelow k o → IsBelow m o
IsBelow-weaken none le h = tt
IsBelow-weaken (some p) le h = omega arith

abbrev Walked : StatusHash → ℕ → ℕ → Option ℕ → Type 0
Walked h agent ifindex none = Unit {0}
Walked h agent ifindex (some p) = IsStatus h agent ifindex p

walk-Walked :
    (h : StatusHash) (agent ifindex : ℕ) (k : ℕ) (o : Option ℕ)
    → IsStored h
    → k ≤ h.top
    → IsBelow k o
    → Returns (Walked h agent ifindex) (walk k h agent ifindex o)
unfolding walk
walk-Walked h agent ifindex k none stored le below = returns tt
walk-Walked h agent ifindex zero (some p) stored le below =
    let impossible : ⊥ = omega arith in elim impossible [ ]
walk-Walked h agent ifindex (suc k) (some p) stored le below =
    let (n, at, older) = stored.node p (omega arith) in
    let rest =
      walk-Walked h agent ifindex k n.next stored (omega arith)
        (IsBelow-weaken n.next (omega arith) older) in
    rw (at, and_then)
      (elim (Bool-cases (is_status agent ifindex n)) [
        | inl same ↦ rw same (returns (n, at, same))
        | inr other ↦ rw other rest
      ])

module _ (h : StatusHash) (agent ifindex : ℕ) where
  -- The node that a lookup adds.
  abbrev pub fresh : CntrStatus
  fresh = record {
    agent = agent;
    interface = ifindex;
    timestamp = 0;
    octets_in = 0;
    octets_out = 0;
    linespeed = 0;
    next = h.buckets (status_key agent);
  }

  abbrev pub added : StatusHash
  added = (add_status agent ifindex h).1

  pub fresh-is_status : is_status agent ifindex fresh ≡ true
  fresh-is_status =
      let a : (agent == agent) ≡ true = ground arith in
      let i : (ifindex == ifindex) ≡ true = ground arith in rw a (rw i refl)

  pub fresh-at : added.nodes h.top ≡ some fresh
  unfolding add_status
  fresh-at = let same : (h.top == h.top) ≡ true = ground arith in rw same refl

  pub added-other : (q : ℕ) → q < h.top → added.nodes q ≡ h.nodes q
  unfolding add_status
  added-other q lt = let other : (q == h.top) ≡ false = ground arith in rw other refl

  pub added-IsStored : IsStored h → IsStored added
  unfolding add_status
  added-IsStored stored = record {
    bucket = λ k. elim (Bool-cases (k == status_key agent)) [
      | inl e ↦ rw e (omega arith)
      | inr e ↦ rw e (IsBelow-weaken (h.buckets k) (omega arith) (stored.bucket k))
    ];
    node = λ p lt. elim (Bool-cases (p == h.top)) [
      | inl e ↦
          (fresh, rw e refl, IsBelow-weaken _ (ground arith) (stored.bucket (status_key agent)))
      | inr e ↦
          let (n, at, older) = stored.node p (ground arith) in
          (n, added-other p (ground arith) ∙ at, older)
    ];
  }

  pub walk_here :
      (k : ℕ) (g : StatusHash) (p : ℕ)
      → IsStatus g agent ifindex p
      → walk (suc k) g agent ifindex (some p) ≡ ok (some p)
  unfolding walk
  walk_here k g p (n, at, same) = rw (at, and_then) (rw same refl)

  pub added-bucket : added.buckets (status_key agent) ≡ some h.top
  unfolding add_status
  added-bucket =
      let key : (status_key agent == status_key agent) ≡ true = ground arith in rw key refl

  pub added-top : added.top ≡ suc h.top
  unfolding add_status
  added-top = omega arith

  pub fresh-IsStatus : IsStatus added agent ifindex h.top
  fresh-IsStatus = (fresh, fresh-at, fresh-is_status)

  again :
      (g : StatusHash) (p : ℕ)
      → walk g.top g agent ifindex (g.buckets (status_key agent)) ≡ ok (some p)
      → hash_lookup agent ifindex g ≡ ok (p, g)
  unfolding hash_lookup found_status
  again g p e = rw (e, and_then) refl

  added-again : hash_lookup agent ifindex added ≡ ok (h.top, added)
  added-again =
      again added h.top
        (rw added-bucket (rw added-top (walk_here h.top added h.top fresh-IsStatus)))

  abbrev pub LookedUp : ℕ × StatusHash → Type 0
  LookedUp (p, g) =
      IsStored g
      × IsStatus g agent ifindex p
      × (hash_lookup agent ifindex g ≡ ok (p, g))
      × ((q : ℕ) → q < h.top → g.nodes q ≡ h.nodes q)

  -- In a well-formed table a lookup ends, and returns a node of the interface and the agent: the
  -- one that is there, or a new one. No other node changes, the table stays well formed, and the
  -- next lookup returns the same node without a change.
  pub hash_lookup-LookedUp : IsStored h → Returns LookedUp (hash_lookup agent ifindex h)
  unfolding hash_lookup
  hash_lookup-LookedUp stored =
      let (o, went, walked) = Returns-value (
        walk-Walked h agent ifindex h.top (h.buckets (status_key agent)) stored (omega arith)
          (stored.bucket (status_key agent))) in
      rw (went, and_then) (outcome o went walked)
    where
      outcome :
          (o : Option ℕ)
          → walk h.top h agent ifindex (h.buckets (status_key agent)) ≡ ok o
          → Walked h agent ifindex o
          → Returns LookedUp (ok (found_status agent ifindex h o))
      outcome none went walked =
          returns (added-IsStored stored, fresh-IsStatus, added-again, added-other)
      outcome (some p) went walked = returns (stored, walked, again h p went, λ q lt. refl)
