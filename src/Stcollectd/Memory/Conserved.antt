-- ===== src/Stcollectd/Memory/Conserved.antt =====
-- No buffer that allocateMemory of src/stcollectd.c allocated is ever lost.
use mathlib.Core.Path.{subst}
use sflow_toolkit.Base.{
  ℕ, suc, ◌+◌, ◌^◌, ◌<◌, ◌≤◌, ◌≡◌, refl, Option, none, some, List, [], ◌∷◌, length, arith,
}
use sflow_toolkit.Base.Results.{
  Result, ok, Returns, returns, Returns-bind, Returns-weaken, Returns-value,
}
use sflow_toolkit.Configparser.Settings.{StcollectdConfig}
use sflow_toolkit.Bufferqueue.{
  Queue, World, Allocation, granted, no_buffer, no_data, push_each_new, bqueue_init,
}
use sflow_toolkit.Bufferqueue.Wait.{Wake}
use sflow_toolkit.Bufferqueue.Chain.{all_but_last, last, length-all_but_last}
use sflow_toolkit.Bufferqueue.Fifo.{Holds}
use sflow_toolkit.Bufferqueue.Init.{built, bqueue_init-Holds}
use sflow_toolkit.Stcollectd.{Buffers, Collecting, pop_current, both, flush_lists, write_buffers}
use sflow_toolkit.Stcollectd.Rotation.{
  Owns, Apart-nil, Current, pop_current-Owns, BothFlushed, flush_lists-Owns,
}
use sflow_toolkit.Stcollectd.Written.{BothWritten, write_buffers-Owns}
use sflow_toolkit.Stcollectd.Memory.{
  Granted, empty_world, before_pop, allocate_memory, Passes, PassesOn,
}

length-built :
    (outcomes : List Allocation) (top : ℕ) (xs : List ℕ)
    → length (built outcomes top xs) ≤ length xs + length outcomes
length-built [] top xs = omega arith
length-built (granted ∷ outcomes) top xs = omega (arith, length-built outcomes (top + 1) (top ∷ xs))
length-built (no_buffer ∷ outcomes) top xs = omega (arith, length-built outcomes top xs)
length-built (no_data ∷ outcomes) top xs = omega (arith, length-built outcomes (top + 1) xs)

-- The buffers of one kind: `n` of them beside the current one, all different, in two queues.
pub record Owning (n : ℕ) (r : Buffers) : Type 0 where
  pub fs : List ℕ
  pub us : List ℕ
  pub owns : Owns r fs us
  pub all : length fs + length us ≡ n

nonempty :
    (w : World) (q : Queue) (xs : List ℕ)
    → Holds w q xs
    → 0 < q.num
    → (p : ℕ) × (ys : List ℕ) × (xs ≡ p ∷ ys)
nonempty w q [] (num, _, _) some_buffer = absurd (omega arith)
nonempty w q (p ∷ ys) held some_buffer = (p, ys, refl)

-- A pair of sides with `k` and `m` buffers beside the current ones.
abbrev pub OwningBoth : ℕ → ℕ → Collecting → Type 0
OwningBoth k m s = Owning k s.flow × Owning m s.cntr

-- The buffers of one kind after the start: `k` free ones, all different, and none to be written.
pub record Free (k : ℕ) (r : Buffers) : Type 0 where
  pub fs : List ℕ
  pub owns : Owns r fs []
  pub all : length fs ≡ k

abbrev OwningOne : ℕ → Option Buffers → Type 0
OwningOne k none = ⊥
OwningOne k (some r) = Free k r

abbrev pub Allocated : ℕ → ℕ → Option Collecting → Type 0
Allocated k m none = ⊥
Allocated k m (some s) = Free k s.flow × Free m s.cntr

pop_first :
    (n : ℕ) (o : Allocation) (wakes : List Wake) (free flush : Queue) (w : World) (bs : List ℕ)
    (k : ℕ)
    → Holds w free bs
    → Holds w flush []
    → length bs ≡ suc k
    → suc k ≤ n
    → Returns (OwningOne k) (pop_current n o wakes (before_pop free flush w))
pop_first n o wakes free flush w [] k held empty some_buffer few = absurd (omega arith)
pop_first n o wakes free flush w (p ∷ xs) k held empty some_buffer few =
    Returns-weaken
      (pop_current-Owns n o wakes (before_pop free flush w) p xs [] held empty (Apart-nil (p ∷ xs))
        (omega arith))
      owning
  where
    owning : (o : Option Buffers) → Current p xs [] o → OwningOne k o
    owning none h = h
    owning (some r) (at_end, owns) = record {
      fs = all_but_last p xs;
      owns = owns;
      all = omega (arith, length-all_but_last p xs);
    }

module _ (cfg : StcollectdConfig) (flow_size cntr_size : ℕ) (small : cfg.buffer_num < 2 ^ 32) where
  -- If at least one buffer of each kind is granted, of the configured number, then allocateMemory
  -- returns without a wait. One buffer of each kind is current, the free queues hold all others
  -- that were granted, and the queues to be flushed are empty.
  pub allocate_memory-Allocated :
      (f c : Granted) (k m : ℕ)
      → length f.buffers ≡ cfg.buffer_num
      → length c.buffers ≡ cfg.buffer_num
      → length (built f.buffers 0 []) ≡ suc k
      → length (built c.buffers 0 []) ≡ suc m
      → Returns (Allocated k m) (allocate_memory cfg flow_size cntr_size f c)
  unfolding allocate_memory bqueue_init push_each_new both
  allocate_memory-Allocated f c k m all_flow all_cntr some_flow some_cntr =
      Returns-bind (bqueue_init-Holds f.buffers cfg.buffer_size flow_size empty_world (omega arith))
        λ (free_flow, w) held₁.
          Returns-bind
            (bqueue_init-Holds c.buffers cfg.buffer_size cntr_size empty_world (omega arith))
            λ (free_cntr, v) held₂.
              Returns-bind {P = OwningOne k}
                (pop_first cfg.buffer_num f.pop f.wakes free_flow _ w (built f.buffers 0 []) k held₁
                  (refl, refl, refl) some_flow (omega (arith, length-built f.buffers 0 [])))
                λ r h.
                  Returns-bind {P = OwningOne m}
                    (pop_first cfg.buffer_num c.pop c.wakes free_cntr _ v (built c.buffers 0 []) m
                      held₂ (refl, refl, refl) some_cntr
                      (omega (arith, length-built c.buffers 0 [])))
                    λ r' h'. returns (join r r' h h')
    where
      join : (r r' : Option Buffers) → OwningOne k r → OwningOne m r' → Allocated k m (both r r')
      join none r' h h' = elim h [ ]
      join (some r) none h h' = elim h' [ ]
      join (some r) (some r') h h' = (h, h')

Returns-of : {A : Type 0} {P : A → Type 0} (r : Result A) (a : A) → Returns P r → r ≡ ok a → P a
Returns-of {A} {P} r a h e =
    let (b, at, p) = Returns-value h in let same : b ≡ a = cc in subst P same p

module _ (cfg : StcollectdConfig) (k m : ℕ) (few_flow : k < cfg.buffer_num)
    (few_cntr : m < cfg.buffer_num) (small : cfg.buffer_num < 2 ^ 32) where
  Passes-OwningBoth : {s u : Collecting} → Passes cfg s u → OwningBoth k m s → OwningBoth k m u
  Passes-OwningBoth (Passes.flushes s s' (o₁, w₁) (o₂, w₂) some_flow some_cntr e) (f, c) =
      let (p, xs, fs) = nonempty s.flow.world s.flow.free f.fs f.owns.free some_flow in
      let (q, ys, gs) = nonempty s.cntr.world s.cntr.free c.fs c.owns.free some_cntr in
      let all₁ : suc (length xs) + length f.us ≡ k =
        subst (λ l. length l + length f.us ≡ k) fs f.all in
      let all₂ : suc (length ys) + length c.us ≡ m =
        subst (λ l. length l + length c.us ≡ m) gs c.all in
      let ((_, owns₁), (_, owns₂)) =
        Returns-of {P = BothFlushed s p xs f.us q ys c.us}
          (flush_lists cfg.buffer_num (o₁, w₁) (o₂, w₂) s) (some s')
          (flush_lists-Owns cfg.buffer_num o₁ o₂ w₁ w₂ s p xs f.us q ys c.us
            (subst (λ l. Owns s.flow l f.us) fs f.owns) (subst (λ l. Owns s.cntr l c.us) gs c.owns)
            (omega arith) (omega arith) (omega arith) (omega arith))
          e in
      (
        record {
          fs = all_but_last p xs;
          us = s.flow.current ∷ f.us;
          owns = owns₁;
          all = omega (arith, length-all_but_last p xs);
        },
        record {
          fs = all_but_last q ys;
          us = s.cntr.current ∷ c.us;
          owns = owns₂;
          all = omega (arith, length-all_but_last q ys);
        },
      )
  Passes-OwningBoth (Passes.writes s s' w₁ w₂ i j some_flow some_cntr e) (f, c) =
      let (p, us, e₁) = nonempty s.flow.world s.flow.flush f.us f.owns.flush some_flow in
      let (q, vs, e₂) = nonempty s.cntr.world s.cntr.flush c.us c.owns.flush some_cntr in
      let all₁ : length f.fs + suc (length us) ≡ k =
        subst (λ l. length f.fs + length l ≡ k) e₁ f.all in
      let all₂ : length c.fs + suc (length vs) ≡ m =
        subst (λ l. length c.fs + length l ≡ m) e₂ c.all in
      let ((_, owns₁), (_, owns₂)) =
        Returns-of {P = BothWritten s f.fs p us c.fs q vs} (write_buffers w₁ w₂ s) (some (i, j, s'))
          (write_buffers-Owns w₁ w₂ s f.fs p us c.fs q vs
            (subst (λ l. Owns s.flow f.fs l) e₁ f.owns) (subst (λ l. Owns s.cntr c.fs l) e₂ c.owns)
            (omega arith) (omega arith))
          e in
      (
        record {
          fs = last p us ∷ f.fs;
          us = all_but_last p us;
          owns = owns₁;
          all = omega (arith, length-all_but_last p us);
        },
        record {
          fs = last q vs ∷ c.fs;
          us = all_but_last q vs;
          owns = owns₂;
          all = omega (arith, length-all_but_last q vs);
        },
      )

  -- From a state with fewer buffers of each kind than the configured number beside the current ones,
  -- as allocateMemory leaves it: in whatever order flushLists and the rounds of writeBufferToDisk
  -- come, each at a time when its queues have buffers, the buffers stay all different, each is in
  -- one queue or current, and their numbers stay the same.
  pub PassesOn-OwningBoth :
      {s u : Collecting} → PassesOn cfg s u → OwningBoth k m s → OwningBoth k m u
  PassesOn-OwningBoth PassesOn.here owning = owning
  PassesOn-OwningBoth (PassesOn.next r st) owning =
      Passes-OwningBoth st (PassesOn-OwningBoth r owning)
