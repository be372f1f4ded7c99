-- ===== src/Stcollectd/Rotation.antt =====
-- No buffer of src/stcollectd.c is lost or held twice while the two threads pass them around.
use sflow_toolkit.Base.{
  ℕ, suc, ◌^◌, ◌<◌, ◌≤◌, Option, none, some, List, [], ◌∷◌, ◌≡◌, sym, ◌∙◌, length, All,
}
use mathlib.Core.Path.{subst}
use sflow_toolkit.Base.Results.{Returns, returns, Returns-bind}
use sflow_toolkit.Bufferqueue.{Buffer, Queue, World, Allocation}
use sflow_toolkit.Bufferqueue.Wait.{Wake}
use sflow_toolkit.Bufferqueue.Chain.{Absent, AreDistinct, all_but_last, last, IsChain}
use sflow_toolkit.Bufferqueue.Fifo.{Holds, IsLoose, Keeps, bqueue_push-Holds}
use sflow_toolkit.Bufferqueue.Pop.{Popped, bqueue_pop-Holds}
use sflow_toolkit.Bufferqueue.Destroy.{Absent-last}
use sflow_toolkit.Stcollectd.{
  Buffers, Collecting, push_current, pop_current, put_current, both, flush_lists,
}

abbrev pub Apart : List ℕ → List ℕ → Type 0
Apart xs ys = All (λ x. Absent x ys) xs

pub Apart-cons : (c : ℕ) (xs ys : List ℕ) → Absent c xs → Apart xs ys → Apart xs (c ∷ ys)
Apart-cons c [] ys out apart = tt
Apart-cons c (x ∷ xs) ys (ne, out) (here, apart) =
    ((λ e. ne (sym e), here), Apart-cons c xs ys out apart)

pub Apart-nil : (xs : List ℕ) → Apart xs []
Apart-nil [] = tt
Apart-nil (x ∷ xs) = (tt, Apart-nil xs)

pub Apart-sym : (xs ys : List ℕ) → Apart xs ys → Apart ys xs
Apart-sym [] ys apart = Apart-nil ys
Apart-sym (x ∷ xs) ys (here, apart) = Apart-cons x ys xs here (Apart-sym xs ys apart)

module _ (P : ℕ → Type 0) where
  pub last-All : (p : ℕ) (xs : List ℕ) → All P (p ∷ xs) → P (last p xs)
  last-All p [] (h, _) = h
  last-All p (x ∷ xs) (h, all) = last-All x xs all

  pub all_but_last-All : (p : ℕ) (xs : List ℕ) → All P (p ∷ xs) → All P (all_but_last p xs)
  all_but_last-All p [] all = tt
  all_but_last-All p (x ∷ xs) (h, all) = (h, all_but_last-All x xs all)

-- Queues of buffers that did not change.
IsChain-Keeps :
    (h h' : ℕ → Option Buffer) (v : Option ℕ) (p : ℕ) (xs : List ℕ)
    → All (λ r. h' r ≡ h r) (p ∷ xs)
    → IsChain h v p xs
    → IsChain h' v p xs
IsChain-Keeps h h' v p [] (e, _) (b, at, back, on) = (b, e ∙ at, back, on)
IsChain-Keeps h h' v p (x ∷ xs) (e, more) ((b, at, back, on), links) =
    ((b, e ∙ at, back, on), IsChain-Keeps h h' (some p) x xs more links)

Keeps-Apart :
    (w w' : World) (xs ys : List ℕ)
    → Keeps ys w w'
    → Apart xs ys
    → All (λ r. w'.buffers r ≡ w.buffers r) xs
Keeps-Apart w w' [] ys keeps apart = tt
Keeps-Apart w w' (x ∷ xs) ys keeps (out, apart) = (keeps x out, Keeps-Apart w w' xs ys keeps apart)

pub Holds-Keeps :
    (w w' : World) (q : Queue) (xs ys : List ℕ)
    → Keeps ys w w'
    → Apart xs ys
    → Holds w q xs
    → Holds w' q xs
Holds-Keeps w w' q [] ys keeps apart held = held
Holds-Keeps w w' q (x ∷ xs) ys keeps apart (num, lt, start, end, distinct, (before, links)) = (
  num,
  lt,
  start,
  end,
  distinct,
  (
    before,
    IsChain-Keeps w.buffers w'.buffers before x xs (Keeps-Apart w w' (x ∷ xs) ys keeps apart) links,
  ),
)

-- The free buffers, those to be written, and the current one are different buffers, and the queues
-- hold them.
pub record Owns (r : Buffers) (fs us : List ℕ) : Type 0 where
  pub free : Holds r.world r.free fs
  pub flush : Holds r.world r.flush us
  pub loose : IsLoose r.world r.current
  pub out_free : Absent r.current fs
  pub out_flush : Absent r.current us
  pub apart : Apart fs us

abbrev PushedCurrent : Buffers → List ℕ → List ℕ → Buffers → Type 0
PushedCurrent r fs us r' =
    Holds r'.world r'.free fs × Holds r'.world r'.flush (r.current ∷ us) × Apart fs (r.current ∷ us)

push_current-Owns :
    (r : Buffers) (fs us : List ℕ)
    → Owns r fs us
    → suc (length us) < 2 ^ 32
    → Returns (PushedCurrent r fs us) (push_current r)
unfolding push_current
push_current-Owns r fs us owns small =
    let apart = Apart-cons r.current fs us owns.out_free owns.apart in
    Returns-bind
      (bqueue_push-Holds r.world r.flush r.current us owns.flush owns.loose owns.out_flush small)
      (λ (q, w) (held, keeps, top).
        returns
          (Holds-Keeps r.world w r.free fs (r.current ∷ us) keeps apart owns.free, held, apart))

abbrev pub Current : ℕ → List ℕ → List ℕ → Option Buffers → Type 0
Current p xs us none = ⊥
Current p xs us (some r) = (r.current ≡ last p xs) × Owns r (all_but_last p xs) us

pub pop_current-Owns :
    (n : ℕ) (outcome : Allocation) (wakes : List Wake) (r : Buffers) (p : ℕ) (xs us : List ℕ)
    → Holds r.world r.free (p ∷ xs)
    → Holds r.world r.flush us
    → Apart (p ∷ xs) us
    → suc (length xs) ≤ n
    → Returns (Current p xs us) (pop_current n outcome wakes r)
unfolding pop_current put_current
pop_current-Owns n outcome wakes r p xs us free flush apart few =
    let (_, _, _, _, distinct, _) = free in
    Returns-bind {P = Popped r.world p xs}
      (bqueue_pop-Holds n outcome wakes r.free r.world p xs free few)
      (λ popped h. returns (taken popped distinct h))
  where
    taken :
        (popped : Option (ℕ × Queue × World))
        → AreDistinct (p ∷ xs)
        → Popped r.world p xs popped
        → Current p xs us (put_current popped r)
    taken none distinct h = elim h [ ]
    taken (some (b, q, w)) distinct (at_end, held, loose, keeps, top) = (
      at_end,
      record {
        free = held;
        flush = Holds-Keeps r.world w r.flush us (p ∷ xs) keeps (Apart-sym (p ∷ xs) us apart) flush;
        loose = loose;
        out_free =
            subst (λ k. Absent k (all_but_last p xs)) (sym at_end) (Absent-last p xs distinct);
        out_flush = subst (λ k. Absent k us) (sym at_end) (last-All (λ k. Absent k us) p xs apart);
        apart = all_but_last-All (λ k. Absent k us) p xs apart;
      },
    )

-- After a flush of one kind: the current buffer is the one that will be written last, the last free
-- one is current.
abbrev pub Flushed : Buffers → ℕ → List ℕ → List ℕ → Buffers → Type 0
Flushed r p xs us r' = (r'.current ≡ last p xs) × Owns r' (all_but_last p xs) (r.current ∷ us)

abbrev pub BothFlushed :
    Collecting → ℕ → List ℕ → List ℕ → ℕ → List ℕ → List ℕ → Option Collecting → Type 0
BothFlushed s p xs us q ys vs none = ⊥
BothFlushed s p xs us q ys vs (some s') =
    Flushed s.flow p xs us s'.flow × Flushed s.cntr q ys vs s'.cntr

-- If there is a free buffer of each kind, and not more of them than the configured number, then
-- flushLists does not wait. The two current buffers are put in front of the queues to be written,
-- the last free ones become current, and every other buffer stays where it was: none is lost, and
-- none is held twice.
pub flush_lists-Owns :
    (n : ℕ) (o₁ o₂ : Allocation) (wakes₁ wakes₂ : List Wake) (s : Collecting) (p : ℕ)
    (xs us : List ℕ) (q : ℕ) (ys vs : List ℕ)
    → Owns s.flow (p ∷ xs) us
    → Owns s.cntr (q ∷ ys) vs
    → suc (length xs) ≤ n
    → suc (length ys) ≤ n
    → suc (length us) < 2 ^ 32
    → suc (length vs) < 2 ^ 32
    → Returns (BothFlushed s p xs us q ys vs) (flush_lists n (o₁, wakes₁) (o₂, wakes₂) s)
unfolding flush_lists both
flush_lists-Owns n o₁ o₂ wakes₁ wakes₂ s p xs us q ys vs owns₁ owns₂ few₁ few₂ small₁ small₂ =
    Returns-bind (push_current-Owns s.flow (p ∷ xs) us owns₁ small₁) λ f (free₁, flush₁, apart₁).
      Returns-bind (push_current-Owns s.cntr (q ∷ ys) vs owns₂ small₂) λ c (free₂, flush₂, apart₂).
        Returns-bind {P = Current p xs (s.flow.current ∷ us)}
          (pop_current-Owns n o₁ wakes₁ f p xs (s.flow.current ∷ us) free₁ flush₁ apart₁ few₁)
          λ f' h.
            Returns-bind {P = Current q ys (s.cntr.current ∷ vs)}
              (pop_current-Owns n o₂ wakes₂ c q ys (s.cntr.current ∷ vs) free₂ flush₂ apart₂ few₂)
              λ c' k. returns (join f' c' h k)
  where
    join :
        (f c : Option Buffers)
        → Current p xs (s.flow.current ∷ us) f
        → Current q ys (s.cntr.current ∷ vs) c
        → BothFlushed s p xs us q ys vs (both f c)
    join none c h k = elim h [ ]
    join (some f) none h k = elim k [ ]
    join (some f) (some c) h k = (h, k)
