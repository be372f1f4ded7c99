-- ===== src/Stcollectd/System/Reachable.antt =====
-- The states that the two threads of src/stcollectd.c reach, in whatever order they take their steps.
use sflow_toolkit.Base.{
  ℕ, zero, suc, ◌^◌, ◌≤◌, ◌<◌, ◌≡◌, refl, sym, ◌∙◌, Bool, some, List, [], ◌∷◌, ◌++◌, length,
  get_elem?, arith, All,
}
use sflow_toolkit.Base.Results.{ok}
use sflow_toolkit.Bytes.{Bytes}
use sflow_toolkit.Configparser.Settings.{StcollectdConfig}
use sflow_toolkit.Parser.Collect.{Buffer, Collector}
use sflow_toolkit.Parser.Kept.{Grew, length_of_get_elem?}
use sflow_toolkit.Stcollectd.Collect.{Received, Fresh, CollectLoop, collect_one}
use sflow_toolkit.Stcollectd.Collect.Accounts.{
  Accounted, IsCollector-Accounted, collect_one-Accounted,
}
use sflow_toolkit.Stcollectd.System.{System, IsBlank, Taken, Step, Reach, emptied}
use sflow_toolkit.Stcollectd.System.Pipeline.{Turned, collect_one-Turned, current}

-- A pair of buffers that was handed over.
pub record IsHanded (size : ℕ) (b : Fresh) : Type 0 where
  pub flow_count : b.flow.count ≤ size
  pub flow_size : length b.flow.items ≡ size
  pub cntr_count : b.cntr.count ≤ size
  pub cntr_size : length b.cntr.items ≡ size

-- The current buffers have room and the totals account for every sample; the free buffers are empty;
-- and those that were handed over are not overfull.
pub record IsSystem (cfg : StcollectdConfig) (s : System) : Type 0 where
  pub accounted : Accounted cfg.buffer_size s.loop
  pub handed : All (IsHanded cfg.buffer_size) s.loop.flushed
  pub free_flow : All (IsBlank cfg.buffer_size) s.free_flow
  pub free_cntr : All (IsBlank cfg.buffer_size) s.free_cntr
  pub behind : s.written ≤ length s.loop.flushed

All-append : {A : Type 0} (P : A → Type 0) (xs ys : List A) → All P xs → All P ys → All P (xs ++ ys)
All-append P [] ys hx hy = hy
All-append P (x ∷ xs) ys (h, hx) hy = (h, All-append P xs ys hx hy)

All-front : {A : Type 0} (P : A → Type 0) (xs ys : List A) → All P (xs ++ ys) → All P xs
All-front P [] ys all = tt
All-front P (x ∷ xs) ys (h, all) = (h, All-front P xs ys all)

pub All-get :
    {A : Type 0} (P : A → Type 0) (xs : List A) (i : ℕ) (x : A)
    → All P xs
    → get_elem? xs i ≡ some x
    → P x
All-get P [] i x all e = cc
All-get P (y ∷ xs) zero x (h, all) e = let same : y ≡ x = cc in rw (sym same) h
All-get P (y ∷ xs) (suc i) x (h, all) e = All-get P xs i x all e

module _ (cfg : StcollectdConfig) (stamp : ℕ → Bytes) where
  Taken-IsBlank :
      {A : Type 0} (b : Buffer A) (waited : Bool) (free free' : List (Buffer A))
      → Taken cfg b waited free free'
      → All (IsBlank cfg.buffer_size) free
      → All (IsBlank cfg.buffer_size) free'
  Taken-IsBlank b waited free free' (Taken.popped few) (h, all) = all
  Taken-IsBlank b waited free free' (Taken.freed rest newest many) (h, all) =
      All-front (IsBlank cfg.buffer_size) rest (newest ∷ []) all
  Taken-IsBlank b waited free free' (Taken.allocated {free = rest} new blank) (h, all) =
      All-append (IsBlank cfg.buffer_size) rest (new ∷ []) all (blank, tt)
  Taken-IsBlank b waited free free' Taken.no_memory (h, all) = all

  Grew-IsHanded :
      (s : CollectLoop) (c : Collector)
      → Accounted cfg.buffer_size s
      → Grew s.collector c
      → IsHanded cfg.buffer_size (current c)
  Grew-IsHanded s c is g = record {
    flow_count = omega (arith, g.flow.inside, g.flow.size, is.flow_size);
    flow_size = g.flow.size ∙ is.flow_size;
    cntr_count = omega (arith, g.cntr.inside, g.cntr.size, is.cntr_size);
    cntr_size = g.cntr.size ∙ is.cntr_size;
  }

  Turned-IsHanded :
      (s s' : CollectLoop) (fresh : Fresh)
      → Accounted cfg.buffer_size s
      → All (IsHanded cfg.buffer_size) s.flushed
      → Turned s fresh s'
      → All (IsHanded cfg.buffer_size) s'.flushed
  Turned-IsHanded s s' fresh is all (Turned.kept g same) = rw same all
  Turned-IsHanded s s' fresh is all (Turned.handed c g more taken) = rw more (
      All-append (IsHanded cfg.buffer_size) s.flushed (current c ∷ []) all
        (Grew-IsHanded s c is g, tt))

  module _ (large : 10 < cfg.buffer_size) (small : cfg.buffer_size < 2 ^ 32) where
    pub turned :
        (s : System) (r : Received) (fresh : Fresh) (loop : CollectLoop)
        → IsSystem cfg s
        → collect_one cfg (r, fresh) s.loop ≡ ok loop
        → Turned s.loop fresh loop
    turned s r fresh loop is e =
        collect_one-Turned cfg r fresh s.loop loop
          (IsCollector-Accounted cfg large small s.loop is.accounted) e

    Step-IsSystem : {s u : System} → Step cfg stamp s u → IsSystem cfg s → IsSystem cfg u
    Step-IsSystem (Step.turn s r fresh loop at f e more) is = record {
      accounted = collect_one-Accounted cfg large small s.loop is.accounted r fresh loop f e;
      handed =
          Turned-IsHanded s.loop loop fresh is.accounted is.handed (turned s r fresh loop is e);
      free_flow = is.free_flow;
      free_cntr = is.free_cntr;
      behind = omega (arith, is.behind, more);
    }
    Step-IsSystem (Step.flushes s r fresh loop at f e more) is = record {
      accounted = collect_one-Accounted cfg large small s.loop is.accounted r fresh loop f e;
      handed =
          Turned-IsHanded s.loop loop fresh is.accounted is.handed (turned s r fresh loop is e);
      free_flow = is.free_flow;
      free_cntr = is.free_cntr;
      behind = omega (arith, is.behind, more);
    }
    Step-IsSystem (Step.take_flow s waited fresh free at taken) is = record {
      accounted = is.accounted;
      handed = is.handed;
      free_flow = Taken-IsBlank fresh.flow waited s.free_flow free taken is.free_flow;
      free_cntr = is.free_cntr;
      behind = is.behind;
    }
    Step-IsSystem (Step.take_cntr s waited fresh free at taken) is = record {
      accounted = is.accounted;
      handed = is.handed;
      free_flow = is.free_flow;
      free_cntr = Taken-IsBlank fresh.cntr waited s.free_cntr free taken is.free_cntr;
      behind = is.behind;
    }
    Step-IsSystem (Step.round s granted b st at e) is =
        let h = All-get (IsHanded cfg.buffer_size) s.loop.flushed s.written b is.handed at in
        record {
          accounted = record {
            flow_size = is.accounted.flow_size;
            cntr_size = is.accounted.cntr_size;
            flow_room = is.accounted.flow_room;
            cntr_room = is.accounted.cntr_room;
            flow_total = is.accounted.flow_total;
            cntr_total = is.accounted.cntr_total;
          };
          handed = is.handed;
          free_flow =
              All-append (IsBlank cfg.buffer_size) s.free_flow (emptied b.flow ∷ []) is.free_flow
                (record { count = refl; slots = h.flow_size }, tt);
          free_cntr =
              All-append (IsBlank cfg.buffer_size) s.free_cntr (emptied b.cntr ∷ []) is.free_cntr
                (record { count = refl; slots = h.cntr_size }, tt);
          behind = omega (arith, length_of_get_elem? s.loop.flushed s.written at);
        }

    -- With buffers of more than ten and fewer than 2^32 slots, and from a well-formed state: whatever
    -- is received, whichever thread runs, and whether waits for a free buffer time out, buffers are
    -- allocated or freed, the state stays well formed. Both current buffers keep more than ten free
    -- slots, the totals are the numbers of the samples in all buffers that were ever handed over and
    -- in the current ones, modulo 2^32, all free buffers are empty and have their full size, none that
    -- was handed over holds more than its slots, and no more are written than were handed over.
    pub Reach-IsSystem : {s u : System} → Reach cfg stamp s u → IsSystem cfg s → IsSystem cfg u
    Reach-IsSystem Reach.here is = is
    Reach-IsSystem (Reach.next r st) is = Step-IsSystem st (Reach-IsSystem r is)
