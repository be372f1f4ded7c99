-- ===== src/StorageCsv.antt =====
-- The table of the last counters of each interface in src/storage_csv.c: hash_init and hash_lookup,
-- on a heap of nodes whose chains hang on the low 24 bits of the agent's address.
pub mod Lookup
pub mod Report
pub mod Remembered
pub mod Rows
pub mod Sequence
pub mod Updated
use sflow_toolkit.Base.{ℕ, zero, suc, ◌+◌, ◌%◌, Bool, Option, none, some, ◌==◌, ◌&&◌, if◌then◌else◌}
use sflow_toolkit.Base.Results.{Result, ok, fault, out_of_fuel, ◌>>=◌}
use sflow_toolkit.Base.Heap.{update, deref}

pub record CntrStatus : Type 0 where
  pub agent : ℕ
  pub interface : ℕ
  pub timestamp : ℕ
  pub octets_in : ℕ
  pub octets_out : ℕ
  pub linespeed : ℕ
  pub next : Option ℕ

-- `cntr_status_hash`, the nodes, and the next address that `malloc` hands out.
pub record StatusHash : Type 0 where
  pub buckets : ℕ → Option ℕ
  pub nodes : ℕ → Option CntrStatus
  pub top : ℕ

unfoldable pub hash_init : StatusHash
hash_init = record { buckets = λ _. none; nodes = λ _. none; top = 0 }

-- `agent & (HASH_SIZE - 1)`
abbrev pub status_key : ℕ → ℕ
status_key agent = agent % 0x01000000

abbrev pub is_status : ℕ → ℕ → CntrStatus → Bool
is_status agent ifindex n = n.agent == agent && n.interface == ifindex

-- `while(ptr != NULL && !(...)) ptr = ptr->next`
unfoldable pub walk : ℕ → StatusHash → ℕ → ℕ → Option ℕ → Result (Option ℕ)
walk k h agent ifindex none = ok none
walk zero h agent ifindex (some p) = fault out_of_fuel
walk (suc k) h agent ifindex (some p) = do
  n ← deref h.nodes p
  (let rest = walk k h agent ifindex n.next in
      if is_status agent ifindex n then ok (some p) else rest)

-- A zeroed node in front of the chain, or alone in an empty bucket.
unfoldable pub add_status : ℕ → ℕ → StatusHash → ℕ × StatusHash
add_status agent ifindex h = (
  h.top,
  record {
    buckets = update h.buckets (status_key agent) (some h.top);
    nodes = update h.nodes h.top (
        some (record {
          agent = agent;
          interface = ifindex;
          timestamp = 0;
          octets_in = 0;
          octets_out = 0;
          linespeed = 0;
          next = h.buckets (status_key agent);
        }));
    top = h.top + 1;
  },
)

unfoldable pub found_status : ℕ → ℕ → StatusHash → Option ℕ → ℕ × StatusHash
unfolding add_status
found_status agent ifindex h none = add_status agent ifindex h
found_status agent ifindex h (some p) = (p, h)

unfoldable pub hash_lookup : ℕ → ℕ → StatusHash → Result (ℕ × StatusHash)
unfolding walk found_status
hash_lookup agent ifindex h = do
  p ← walk h.top h agent ifindex (h.buckets (status_key agent))
  ok (found_status agent ifindex h p)
