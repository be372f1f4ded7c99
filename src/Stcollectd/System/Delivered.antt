-- ===== src/Stcollectd/System/Delivered.antt =====
-- The samples that the writing thread of src/stcollectd.c writes are those that were collected, in
-- the order in which they came.
use mathlib.Core.List.{append_assoc, append-nil}
use sflow_toolkit.Base.{
  ℕ, zero, suc, ◌+◌, ◌^◌, ◌≤◌, ◌<◌, ◌≡◌, refl, sym, ap, ◌∙◌, some, List, [], ◌∷◌, ◌++◌, length,
  take, drop, take-append_le, get_elem?, arith,
}
use sflow_toolkit.Bytes.{Bytes}
use sflow_toolkit.Configparser.Settings.{StcollectdConfig}
use sflow_toolkit.Parser.Collect.{Buffer, Collector}
use sflow_toolkit.Parser.Kept.{Grew, Extends}
use sflow_toolkit.Stcollectd.Collect.{Fresh, CollectLoop}
use sflow_toolkit.Stcollectd.Collect.Accounts.{IsFresh}
use sflow_toolkit.Stcollectd.System.{System, Step, Reach, store}
use sflow_toolkit.Stcollectd.System.Files.{
  to_files, to_files-append, write_out-Wrote, WritesOn, WritesOn-same, WritesOn-trans,
}
use sflow_toolkit.Stcollectd.System.Pipeline.{
  Turned, current, samples, contents, contents-append, stream, Turned-stream, IsPrefix,
  IsPrefix-refl, IsPrefix-trans, take-drop,
}
use sflow_toolkit.Stcollectd.System.Reachable.{IsSystem, turned, Reach-IsSystem}

take-get :
    {A : Type 0} (i : ℕ) (xs : List A) (x : A)
    → get_elem? xs i ≡ some x
    → take (i + 1) xs ≡ take i xs ++ (x ∷ [])
take-get i [] x e = cc
take-get zero (y ∷ xs) x e = let same : y ≡ x = cc in rw same refl
take-get (suc i) (y ∷ xs) x e =
    let one : suc i + 1 ≡ suc (i + 1) = omega arith in rw one (ap (λ t. y ∷ t) (take-get i xs x e))

-- The samples of one kind: `part` selects their buffers.
module _ {A : Type 0} (part : Fresh → Buffer A) where
  -- What the rounds wrote, in their order.
  abbrev pub written_samples : System → List A
  written_samples s = contents part (take s.written s.loop.flushed)

  -- What stands in the queues to be flushed, and then in the current buffer.
  abbrev pub waiting_samples : System → List A
  waiting_samples s =
      contents part (drop s.written s.loop.flushed) ++ samples (part (current s.loop.collector))

  written-waiting : (s : System) → written_samples s ++ waiting_samples s ≡ stream part s.loop
  written-waiting s =
      sym (
        append_assoc (written_samples s) (contents part (drop s.written s.loop.flushed))
          (samples (part (current s.loop.collector))))
      ∙ ap (λ t. t ++ samples (part (current s.loop.collector)))
          (sym
              (contents-append part (take s.written s.loop.flushed) (drop s.written s.loop.flushed))
            ∙ ap (contents part) (take-drop s.written s.loop.flushed))

  -- From `s` to `u` nothing that was collected is lost, changed or reordered, and what is written
  -- is only added to.
  pub record Delivers (s u : System) : Type 0 where
    pub collected :
        IsPrefix (written_samples s ++ waiting_samples s) (written_samples u ++ waiting_samples u)
    pub written : IsPrefix (written_samples s) (written_samples u)

  Delivers-refl : (s : System) → Delivers s s
  Delivers-refl s = record { collected = IsPrefix-refl _; written = IsPrefix-refl _ }

  Delivers-trans : (s t u : System) → Delivers s t → Delivers t u → Delivers s u
  Delivers-trans s t u p q = record {
    collected = IsPrefix-trans _ _ _ p.collected q.collected;
    written = IsPrefix-trans _ _ _ p.written q.written;
  }

  same_stream :
      (s u : System)
      → IsPrefix (stream part s.loop) (stream part u.loop)
      → IsPrefix (written_samples s ++ waiting_samples s) (written_samples u ++ waiting_samples u)
  same_stream s u (new, e) =
      (new, written-waiting u ∙ e ∙ ap (λ t. t ++ new) (sym (written-waiting s)))

  taken_kept :
      (n : ℕ) (l l' : CollectLoop) (fresh : Fresh)
      → n ≤ length l.flushed
      → Turned l fresh l'
      → take n l'.flushed ≡ take n l.flushed
  taken_kept n l l' fresh le (Turned.kept g same) = ap (take n) same
  taken_kept n l l' fresh le (Turned.handed c g more taken) =
      ap (take n) more ∙ take-append_le n l.flushed (current c ∷ []) le

  module _ (cfg : StcollectdConfig) (stamp : ℕ → Bytes) (large : 10 < cfg.buffer_size)
      (small : cfg.buffer_size < 2 ^ 32)
      (grows : (c c' : Collector) → Grew c c' → Extends (part (current c)) (part (current c')))
      (blank : (b : Fresh) → IsFresh cfg.buffer_size b → (part b).count ≡ 0) where
    Turned-Delivers :
        (s u : System) (fresh : Fresh)
        → u.written ≡ s.written
        → IsFresh cfg.buffer_size fresh
        → s.written ≤ length s.loop.flushed
        → Turned s.loop fresh u.loop
        → Delivers s u
    Turned-Delivers s u fresh same f behind t = record {
      collected = same_stream s u (Turned-stream part grows s.loop u.loop fresh (blank fresh f) t);
      written = (
        [],
        ap (λ k. contents part (take k u.loop.flushed)) same
            ∙ ap (contents part) (taken_kept s.written s.loop u.loop fresh behind t)
            ∙ sym (append-nil (written_samples s)),
      );
    }

    Step-Delivers : {s u : System} → Step cfg stamp s u → IsSystem cfg s → Delivers s u
    Step-Delivers {u} (Step.turn s r fresh loop at f e more) is =
        Turned-Delivers s u fresh refl f is.behind
          (turned cfg stamp large small s r fresh loop is e)
    Step-Delivers {u} (Step.flushes s r fresh loop at f e more) is =
        Turned-Delivers s u fresh refl f is.behind
          (turned cfg stamp large small s r fresh loop is e)
    Step-Delivers (Step.take_flow s waited fresh free at taken) is = record {
      collected = IsPrefix-refl _;
      written = IsPrefix-refl _;
    }
    Step-Delivers (Step.take_cntr s waited fresh free at taken) is = record {
      collected = IsPrefix-refl _;
      written = IsPrefix-refl _;
    }
    Step-Delivers {u} (Step.round s granted b st at e) is = record {
      collected = same_stream s u (IsPrefix-refl (stream part s.loop));
      written = (
        samples (part b),
        ap (contents part) (take-get s.written s.loop.flushed b at)
            ∙ contents-append part (take s.written s.loop.flushed) (b ∷ [])
            ∙ ap (λ t. written_samples s ++ t) (append-nil (samples (part b))),
      );
    }

    pub Reach-Delivers : {s u : System} → Reach cfg stamp s u → IsSystem cfg s → Delivers s u
    Reach-Delivers {s} Reach.here is = Delivers-refl s
    Reach-Delivers {s} {u} (Reach.next {t} r st) is =
        Delivers-trans s t u (Reach-Delivers r is)
          (Step-Delivers st (Reach-IsSystem cfg stamp large small r is))

module _ (cfg : StcollectdConfig) (stamp : ℕ → Bytes) (large : 10 < cfg.buffer_size)
    (small : cfg.buffer_size < 2 ^ 32) where
  Turned-WritesOn :
      (s u : System) (fresh : Fresh)
      → u.written ≡ s.written
      → s.written ≤ length s.loop.flushed
      → record (store s) { agents = u.loop.collector.agents } ≡ store u
      → Turned s.loop fresh u.loop
      → WritesOn stamp s u
  Turned-WritesOn s u fresh same behind others t =
      WritesOn-same stamp s u
        (ap (λ k. take k u.loop.flushed) same
          ∙ taken_kept (λ b. b.flow) s.written s.loop u.loop fresh behind t)
        others

  Step-WritesOn : {s u : System} → Step cfg stamp s u → IsSystem cfg s → WritesOn stamp s u
  Step-WritesOn {u} (Step.turn s r fresh loop at f e more) is =
      Turned-WritesOn s u fresh refl is.behind refl
        (turned cfg stamp large small s r fresh loop is e)
  Step-WritesOn {u} (Step.flushes s r fresh loop at f e more) is =
      Turned-WritesOn s u fresh refl is.behind refl
        (turned cfg stamp large small s r fresh loop is e)
  Step-WritesOn {u} (Step.take_flow s waited fresh free at taken) is =
      WritesOn-same stamp s u refl refl
  Step-WritesOn {u} (Step.take_cntr s waited fresh free at taken) is =
      WritesOn-same stamp s u refl refl
  Step-WritesOn (Step.round s granted b st at e) is = record {
    added = to_files (b ∷ []);
    order =
        ap to_files (take-get s.written s.loop.flushed b at)
        ∙ to_files-append (take s.written s.loop.flushed) (b ∷ []);
    calls = write_out-Wrote cfg stamp s granted b st is at e;
  }

  Reach-WritesOn : {s u : System} → Reach cfg stamp s u → IsSystem cfg s → WritesOn stamp s u
  Reach-WritesOn {s} Reach.here is = WritesOn-same stamp s s refl refl
  Reach-WritesOn {s} {u} (Reach.next {t} r st) is =
      WritesOn-trans stamp s t u (Reach-WritesOn r is)
        (Step-WritesOn st (Reach-IsSystem cfg stamp large small r is))

-- From a well-formed state, whatever is received and whichever thread runs: the samples of the
-- buffers that were taken from the queues to be flushed and those that wait in the buffers are
-- together all that were collected, of flows and likewise of counters, in the order in which they
-- came; later states have the same samples and perhaps more behind them, and what was written stays
-- the beginning of what is written. And the files are what they become by returning calls of
-- addSampleToFile on exactly the samples of the buffers written since, each once, in the order of
-- the buffers and in a buffer first those of flows, while the other thread only changes the agents.
pub Reach-DeliversBoth :
    (cfg : StcollectdConfig) (stamp : ℕ → Bytes)
    → 10 < cfg.buffer_size
    → cfg.buffer_size < 2 ^ 32
    → {s u : System} → Reach cfg stamp s u
    → IsSystem cfg s
    → Delivers (λ b. b.flow) s u × Delivers (λ b. b.cntr) s u × WritesOn stamp s u
Reach-DeliversBoth cfg stamp large small r is = (
  Reach-Delivers (λ b. b.flow) cfg stamp large small (λ c c' g. g.flow) (λ b f. f.flow_count) r is,
  Reach-Delivers (λ b. b.cntr) cfg stamp large small (λ c c' g. g.cntr) (λ b f. f.cntr_count) r is,
  Reach-WritesOn cfg stamp large small r is,
)
