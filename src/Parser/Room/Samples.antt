-- ===== src/Parser/Room/Samples.antt =====
-- Samples are not written behind the ends of the sample buffers, if these have room for them.
use sflow_toolkit.Base.{
  ℕ, zero, suc, ◌+◌, ◌^◌, ◌≤◌, ◌<◌, ◌≡◌, refl, none, some, Option, List, [], ◌∷◌, length, ◌==◌,
  ◌||◌, Bool, inl, inr, arith, get_elem?, length-set, Option-cases,
}
use sflow_toolkit.Base.Results.{Result, ok, fault, null_pointer, and_then}
use sflow_toolkit.Base.Heap.{deref}
use sflow_toolkit.Agentlist.{AgentList, agentlist_search, hash_key}
use sflow_toolkit.Agentlist.Lookup.{agentlist_search-first, agentlist_search-empty}
use sflow_toolkit.Parser.Samples.{Sample}
use sflow_toolkit.Parser.Collect.{
  Buffer, Collector, slot, fill, collect_flow, collect_cntr, parse_sample, parse_samples,
  DatagramHeader, lift, collect_datagram,
}
use sflow_toolkit.Parser.Room.{
  Spared, Spares, Any, Spares-bind, Spares-pure, Spares-if, Spares-word, Spares-skip,
  Spares-parse_counter_sample, Spares-parse_flow_sample,
}

-- Both buffers have room for `n` samples.
pub record HasRoom (n : ℕ) (c : Collector) : Type 0 where
  pub flow : c.flow.count + n ≤ length c.flow.items
  pub cntr : c.cntr.count + n ≤ length c.cntr.items
  pub flow_size : length c.flow.items < 2 ^ 32
  pub cntr_size : length c.cntr.items < 2 ^ 32

get_elem?_inside :
    {A : Type 0} (xs : List A) (i : ℕ) → i < length xs → (x : A) × (get_elem? xs i ≡ some x)
get_elem?_inside [] i h = elim h [ ]
get_elem?_inside (x ∷ xs) zero h = (x, refl)
get_elem?_inside (x ∷ xs) (suc i) h = get_elem?_inside xs i (omega arith)

Spares-slot : {A : Type 0} (b : Buffer A) → b.count < length b.items → Spares Any (slot b)
unfolding slot
Spares-slot b h =
    let (x, e) = get_elem?_inside b.items b.count h in record { spares = λ d. rw (e, Spared) tt }

module _ (n : ℕ) (t : Sample) (c : Collector) (room : HasRoom (suc n) c) where
  Spares-collect_flow : (expanded : Bool) → Spares (HasRoom n) (collect_flow t c expanded)
  unfolding collect_flow fill
  Spares-collect_flow expanded = Spares-bind (Spares-slot c.flow (omega (arith, room.flow))) λ s _.
      Spares-bind (Spares-parse_flow_sample _ expanded) λ s' _. Spares-pure _ (record {
        flow = omega (arith, room.flow, room.flow_size, length-set c.flow.items c.flow.count s');
        cntr = omega (arith, room.cntr);
        flow_size = omega (arith, room.flow_size, length-set c.flow.items c.flow.count s');
        cntr_size = room.cntr_size;
      })

  Spares-collect_cntr : (expanded : Bool) → Spares (HasRoom n) (collect_cntr t c expanded)
  unfolding collect_cntr fill
  Spares-collect_cntr expanded = Spares-bind (Spares-slot c.cntr (omega (arith, room.cntr))) λ s _.
      Spares-bind (Spares-parse_counter_sample _ expanded) λ s' _. Spares-pure _ (record {
        cntr = omega (arith, room.cntr, room.cntr_size, length-set c.cntr.items c.cntr.count s');
        flow = omega (arith, room.flow);
        cntr_size = omega (arith, room.cntr_size, length-set c.cntr.items c.cntr.count s');
        flow_size = room.flow_size;
      })

  Spares-parse_sample : Spares (HasRoom n) (parse_sample t c)
  unfolding parse_sample
  Spares-parse_sample = Spares-word λ tag. Spares-word λ size.
      Spares-if (tag == 1 || tag == 3) (Spares-collect_flow _) (
        Spares-if (tag == 2 || tag == 4) (Spares-collect_cntr _) (
          Spares-skip size c (record {
            flow = omega (arith, room.flow);
            cntr = omega (arith, room.cntr);
            flow_size = room.flow_size;
            cntr_size = room.cntr_size;
          })))

Spares-parse_samples :
    (n : ℕ) (t : Sample) (c : Collector) → HasRoom n c → Spares Any (parse_samples n t c)
unfolding parse_samples
Spares-parse_samples zero t c room = Spares-pure c tt
Spares-parse_samples (suc n) t c room =
    Spares-bind (Spares-parse_sample n t c room) λ c' left. Spares-parse_samples n t c' left

Spares-lift : {A : Type 0} (r : Result A) {a : A} → r ≡ ok a → Spares Any (lift r)
Spares-lift r e = record { spares = λ d. rw (e, and_then) tt }

Spares-null : {A : Type 0} (r : Result A) → r ≡ fault null_pointer → Spares {A = A} Any (lift r)
Spares-null r e = record { spares = λ d. rw (e, and_then) tt }

pub Spares-search : (l : AgentList) (addr : ℕ) → Spares Any (lift (agentlist_search l addr))
unfolding agentlist_search
Spares-search l addr = elim (Option-cases (l.hash (hash_key addr))) [
  | inl e ↦ Spares-lift (agentlist_search l addr) (agentlist_search-empty l addr e)
  | inr (p, e) ↦ elim (Option-cases (l.nodes p)) [
    | inl e' ↦
        Spares-null (agentlist_search l addr) (rw (e, agentlist_search) (rw (e', deref) refl))
    | inr (n, e') ↦ Spares-lift (agentlist_search l addr) (agentlist_search-first l addr p n e e')
  ]
]

Spares-deref : {A : Type 0} (heap : ℕ → Option A) (p : ℕ) → Spares {A = A} Any (lift (deref heap p))
Spares-deref heap p = elim (Option-cases (heap p)) [
  | inl e ↦ Spares-null (deref heap p) (rw (e, deref) refl)
  | inr (a, e) ↦ Spares-lift (deref heap p) {a = a} (rw (e, deref) refl)
]

pub Spares-collect_datagram :
    (now : ℕ) (hdr : DatagramHeader) (agent : Option ℕ) (c : Collector)
    → HasRoom hdr.num_records c
    → Spares Any (collect_datagram now hdr agent c)
unfolding collect_datagram
Spares-collect_datagram now hdr none c room = record { spares = λ d. tt }
Spares-collect_datagram now hdr (some p) c room =
    Spares-bind (Spares-deref c.agents.agents p) λ agent _.
      Spares-parse_samples hdr.num_records _ _ (record {
        flow = room.flow;
        cntr = room.cntr;
        flow_size = room.flow_size;
        cntr_size = room.cntr_size;
      })
