-- ===== src/Stcollectd/Written.antt =====
-- The writing thread's rounds, writeBufferToDisk of src/stcollectd.c.
use sflow_toolkit.Base.{
  ℕ, suc, ◌^◌, ◌<◌, Option, none, some, List, ◌∷◌, ◌≡◌, ◌≢◌, refl, sym, ◌∙◌, length, ltb, Bool,
  true, false, if◌then◌else◌,
}
use mathlib.Core.Path.{subst}
use sflow_toolkit.Base.Results.{and_then, Returns, returns, Returns-bind}
use sflow_toolkit.Bufferqueue.{Buffer, Queue, World, write}
use sflow_toolkit.Bufferqueue.Wait.{Wake}
use sflow_toolkit.Bufferqueue.Chain.{
  Absent, AreDistinct, all_but_last, last, update_other, update_self, Absent-all_but_last,
}
use sflow_toolkit.Bufferqueue.Fifo.{IsLoose, Keeps, Holds-update, bqueue_push-Holds}
use sflow_toolkit.Bufferqueue.Pop.{Popped, bqueue_pop_wait-Holds}
use sflow_toolkit.Bufferqueue.Destroy.{last-ne, Absent-last}
use sflow_toolkit.Stcollectd.{
  Buffers, Collecting, put_written, pop_flush, write_samples, push_free, write_popped,
  write_buffers,
}
use sflow_toolkit.Stcollectd.Rotation.{
  Apart-sym, Apart-cons, Holds-Keeps, last-All, all_but_last-All, Owns,
}

IsLoose-Keeps :
    (w w' : World) (c : ℕ) (ys : List ℕ) → Keeps ys w w' → Absent c ys → IsLoose w c → IsLoose w' c
IsLoose-Keeps w w' c ys keeps out (b, at, on) = (b, keeps c out ∙ at, on)

-- A buffer is outside the queues while it is written.
record Writing (r : Buffers) (b : ℕ) (fs us : List ℕ) : Type 0 where
  owns : Owns r fs us
  loose : IsLoose r.world b
  out_free : Absent b fs
  out_flush : Absent b us
  other : r.current ≢ b

abbrev Popping : Buffers → List ℕ → ℕ → List ℕ → Option (ℕ × Buffers) → Type 0
Popping r fs p us none = ⊥
Popping r fs p us (some (b, r')) =
    (b ≡ last p us) × (r'.current ≡ r.current) × Writing r' b fs (all_but_last p us)

pop_flush-Writing :
    (wakes : List Wake) (r : Buffers) (fs : List ℕ) (p : ℕ) (us : List ℕ)
    → Owns r fs (p ∷ us)
    → Returns (Popping r fs p us) (pop_flush wakes r)
unfolding pop_flush put_written
pop_flush-Writing wakes r fs p us owns =
    let (_, _, _, _, distinct, _) = owns.flush in
    Returns-bind {P = Popped r.world p us}
      (bqueue_pop_wait-Holds wakes r.flush r.world p us (owns.flush))
      (λ popped h. returns (taken popped distinct h))
  where
    taken :
        (popped : Option (ℕ × Queue × World))
        → AreDistinct (p ∷ us)
        → Popped r.world p us popped
        → Popping r fs p us (put_written popped r)
    taken none distinct h = elim h [ ]
    taken (some (b, q, w)) distinct (at_end, held, loose, keeps, top) =
        let behind = Apart-sym fs (p ∷ us) owns.apart in
        (
          at_end,
          refl,
          record {
            owns = record {
              free = Holds-Keeps r.world w r.free fs (p ∷ us) keeps owns.apart owns.free;
              flush = held;
              loose = IsLoose-Keeps r.world w r.current (p ∷ us) keeps owns.out_flush owns.loose;
              out_free = owns.out_free;
              out_flush = Absent-all_but_last p us owns.out_flush;
              apart =
                  Apart-sym (all_but_last p us) fs
                    (all_but_last-All (λ k. Absent k fs) p us behind);
            };
            loose = loose;
            out_free =
                subst (λ k. Absent k fs) (sym at_end) (last-All (λ k. Absent k fs) p us behind);
            out_flush =
                subst (λ k. Absent k (all_but_last p us)) (sym at_end) (Absent-last p us distinct);
            other = λ e. last-ne r.current p us owns.out_flush (e ∙ at_end);
          },
        )

abbrev WroteOut : Buffers → ℕ → List ℕ → List ℕ → ℕ × Buffers → Type 0
WroteOut r b fs us (n, r') = (r'.current ≡ r.current) × Writing r' b fs us

write_samples-Writing :
    (r : Buffers) (b : ℕ) (fs us : List ℕ)
    → Writing r b fs us
    → Returns (WroteOut r b fs us) (write_samples b r)
unfolding write_samples write
write_samples-Writing r b fs us writing =
    let (buf, at, on) = writing.loose in
    rw (at, and_then) (returns (outcome buf at on (ltb 0 buf.count)))
  where
    emptied : Buffer → Buffers
    emptied buf = record r { world = write r.world b (record buf { count = 0 }) }

    emptied-Writing : (buf : Buffer) → buf.next ≡ none → Writing (emptied buf) b fs us
    emptied-Writing buf on =
        let owns = writing.owns in
        let (cur, at, last_one) = owns.loose in
        record {
          owns = record {
            free = Holds-update r.world r.free b _ fs writing.out_free owns.free;
            flush = Holds-update r.world r.flush b _ us writing.out_flush owns.flush;
            loose = (cur, update_other r.world.buffers _ writing.other ∙ at, last_one);
            out_free = owns.out_free;
            out_flush = owns.out_flush;
            apart = owns.apart;
          };
          loose = (_, update_self r.world.buffers b _, on);
          out_free = writing.out_free;
          out_flush = writing.out_flush;
          other = writing.other;
        }

    outcome :
        (buf : Buffer)
        → r.world.buffers b ≡ some buf
        → buf.next ≡ none
        → (t : Bool) → WroteOut r b fs us (buf.count, if t then emptied buf else r)
    outcome buf at on true = (refl, emptied-Writing buf on)
    outcome buf at on false = (refl, writing)

abbrev Freed : Buffers → ℕ → List ℕ → List ℕ → Buffers → Type 0
Freed r b fs us r' = (r'.current ≡ r.current) × Owns r' (b ∷ fs) us

push_free-Owns :
    (r : Buffers) (b : ℕ) (fs us : List ℕ)
    → Writing r b fs us
    → suc (length fs) < 2 ^ 32
    → Returns (Freed r b fs us) (push_free b r)
unfolding push_free
push_free-Owns r b fs us writing small =
    let owns = writing.owns in
    let behind = Apart-cons b us fs writing.out_flush (Apart-sym fs us owns.apart) in
    Returns-bind
      (bqueue_push-Holds r.world r.free b fs owns.free writing.loose writing.out_free small)
      (λ (q, w) (held, keeps, top). returns (
        refl,
        record {
          free = held;
          flush = Holds-Keeps r.world w r.flush us (b ∷ fs) keeps behind owns.flush;
          loose =
              IsLoose-Keeps r.world w r.current (b ∷ fs) keeps (writing.other, owns.out_free)
                owns.loose;
          out_free = (writing.other, owns.out_free);
          out_flush = owns.out_flush;
          apart = (writing.out_flush, owns.apart);
        },
      ))

abbrev pub RoundOf : Buffers → List ℕ → ℕ → List ℕ → Buffers → Type 0
RoundOf r fs p us r' = (r'.current ≡ r.current) × Owns r' (last p us ∷ fs) (all_but_last p us)

abbrev pub BothWritten :
    Collecting → List ℕ → ℕ → List ℕ → List ℕ → ℕ → List ℕ → Option (ℕ × ℕ × Collecting) → Type 0
BothWritten s fs p us gs q vs none = ⊥
BothWritten s fs p us gs q vs (some (n, m, s')) =
    RoundOf s.flow fs p us s'.flow × RoundOf s.cntr gs q vs s'.cntr

-- If there is a buffer of each kind to be written, a round of writeBufferToDisk does not wait. It
-- moves the last buffers of the queues to be written in front of the free ones, and every other
-- buffer, the current ones included, stays where it was: none is lost, and none is held twice.
pub write_buffers-Owns :
    (wakes₁ wakes₂ : List Wake) (s : Collecting) (fs : List ℕ) (p : ℕ) (us gs : List ℕ) (q : ℕ)
    (vs : List ℕ)
    → Owns s.flow fs (p ∷ us)
    → Owns s.cntr gs (q ∷ vs)
    → suc (length fs) < 2 ^ 32
    → suc (length gs) < 2 ^ 32
    → Returns (BothWritten s fs p us gs q vs) (write_buffers wakes₁ wakes₂ s)
unfolding write_buffers write_popped
write_buffers-Owns wakes₁ wakes₂ s fs p us gs q vs owns₁ owns₂ small₁ small₂ =
    Returns-bind {P = Popping s.flow fs p us} (pop_flush-Writing wakes₁ s.flow fs p us owns₁) λ f h.
      Returns-bind {P = Popping s.cntr gs q vs} (pop_flush-Writing wakes₂ s.cntr gs q vs owns₂)
        λ c k. finish f c h k
  where
    finish :
        (f c : Option (ℕ × Buffers))
        → Popping s.flow fs p us f
        → Popping s.cntr gs q vs c
        → Returns (BothWritten s fs p us gs q vs) (write_popped f c)
    finish none c h k = elim h [ ]
    finish (some f) none h k = elim k [ ]
    finish (some (a, f)) (some (b, c)) (end₁, cur₁, w₁) (end₂, cur₂, w₂) =
        Returns-bind {P = WroteOut f a fs (all_but_last p us)}
          (write_samples-Writing f a fs (all_but_last p us) w₁)
          λ (n, f₁) (cur₃, w₃).
            Returns-bind {P = WroteOut c b gs (all_but_last q vs)}
              (write_samples-Writing c b gs (all_but_last q vs) w₂)
              λ (m, c₁) (cur₄, w₄).
                Returns-bind (push_free-Owns f₁ a fs (all_but_last p us) w₃ small₁) λ f₂ (cur₅, o₁).
                  Returns-bind (push_free-Owns c₁ b gs (all_but_last q vs) w₄ small₂)
                    λ c₂ (cur₆, o₂). returns (
                      (
                        cur₅ ∙ cur₃ ∙ cur₁,
                        subst (λ x. Owns f₂ (x ∷ fs) (all_but_last p us)) end₁ o₁,
                      ),
                      (
                        cur₆ ∙ cur₄ ∙ cur₂,
                        subst (λ x. Owns c₂ (x ∷ gs) (all_but_last q vs)) end₂ o₂,
                      ),
                    )
