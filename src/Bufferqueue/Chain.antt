-- ===== src/Bufferqueue/Chain.antt =====
-- Chains of buffers, as the queues of src/bufferqueue.c link them: `next` leads to the end, `prev`
-- back; in the buffer in front `prev` may hold anything, since bqueue_push does not reset it there.
use sflow_toolkit.Base.{
  suc, length, sym, ap, ◌∙◌, ℕ, Option, none, some, List, [], ◌∷◌, ◌≡◌, ◌≢◌, refl, ◌==◌, arith,
  false, true,
}
use sflow_toolkit.Base.Heap.{update}
use sflow_toolkit.Bufferqueue.{Buffer}

abbrev pub Absent : ℕ → List ℕ → Type 0
Absent p [] = Unit {0}
Absent p (x ∷ xs) = (p ≢ x) × Absent p xs

abbrev pub AreDistinct : List ℕ → Type 0
AreDistinct [] = Unit {0}
AreDistinct (x ∷ xs) = Absent x xs × AreDistinct xs

abbrev pub all_but_last : ℕ → List ℕ → List ℕ
all_but_last p [] = []
all_but_last p (x ∷ xs) = p ∷ all_but_last x xs

abbrev pub last : ℕ → List ℕ → ℕ
last p [] = p
last p (x ∷ xs) = last x xs

-- The buffers at `p` and then at `xs` are linked, the first with `prev` equal to `before`.
abbrev pub IsChain : (ℕ → Option Buffer) → Option ℕ → ℕ → List ℕ → Type 0
IsChain h before p [] = (b : Buffer) × (h p ≡ some b) × (b.prev ≡ before) × (b.next ≡ none)
IsChain h before p (x ∷ xs) =
    ((b : Buffer) × (h p ≡ some b) × (b.prev ≡ before) × (b.next ≡ some x))
    × IsChain h (some p) x xs

module _ (h : ℕ → Option Buffer) where
  pub update_self : (p : ℕ) (b : Buffer) → update h p (some b) p ≡ some b
  update_self p b = let same : (p == p) ≡ true = ground arith in rw same refl

  pub update_other : {p r : ℕ} (o : Option Buffer) → r ≢ p → update h p o r ≡ h r
  update_other {p} {r} o ne = let differs : (r == p) ≡ false = ground arith in rw differs refl

pub head-IsChain :
    (h : ℕ → Option Buffer) (before : Option ℕ) (p : ℕ) (xs : List ℕ)
    → IsChain h before p xs
    → (b : Buffer) × (h p ≡ some b)
head-IsChain h v p [] (b, at, _, _) = (b, at)
head-IsChain h v p (x ∷ xs) ((b, at, _, _), _) = (b, at)

-- A write to a buffer outside the chain.
pub IsChain-update :
    (h : ℕ → Option Buffer) (before : Option ℕ) {q : ℕ} (o : Option Buffer) (p : ℕ) (xs : List ℕ)
    → p ≢ q
    → Absent q xs
    → IsChain h before p xs
    → IsChain (update h q o) before p xs
IsChain-update h v o p [] ne out (b, at, back, on) = (b, update_other h o ne ∙ at, back, on)
IsChain-update h v o p (x ∷ xs) ne (head, out) ((b, at, back, on), links) = (
  (b, update_other h o ne ∙ at, back, on),
  IsChain-update h (some p) o x xs (λ e. head (sym e)) out links,
)

abbrev next_of : Option Buffer → Option ℕ
next_of none = none
next_of (some b) = b.next

-- `prev` of the buffer in front is written.
pub IsChain-set_prev :
    (h : ℕ → Option Buffer) (before : Option ℕ) {b : Buffer} (v : Option ℕ) (p : ℕ) (xs : List ℕ)
    → Absent p xs
    → h p ≡ some b
    → IsChain h before p xs
    → IsChain (update h p (some (record b { prev = v }))) v p xs
IsChain-set_prev h before {b} v p [] out at (b', at', back, on) =
    let same : b.next ≡ b'.next = ap next_of (sym at ∙ at') in
    (record b { prev = v }, update_self h p _, refl, same ∙ on)
IsChain-set_prev h before {b} v p (x ∷ xs) (ne, out) at ((b', at', back, on), links) =
    let same : b.next ≡ b'.next = ap next_of (sym at ∙ at') in
    (
      (record b { prev = v }, update_self h p _, refl, same ∙ on),
      IsChain-update h (some p) _ x xs (λ e. ne (sym e)) out links,
    )

pub length-all_but_last : (p : ℕ) (xs : List ℕ) → length (all_but_last p xs) ≡ length xs
length-all_but_last p [] = refl
length-all_but_last p (x ∷ xs) = ap suc (length-all_but_last x xs)

pub Absent-all_but_last :
    {r : ℕ} (p : ℕ) (xs : List ℕ) → Absent r (p ∷ xs) → Absent r (all_but_last p xs)
Absent-all_but_last p [] out = tt
Absent-all_but_last p (x ∷ xs) (ne, out) = (ne, Absent-all_but_last x xs out)

pub AreDistinct-all_but_last :
    (p : ℕ) (xs : List ℕ) → AreDistinct (p ∷ xs) → AreDistinct (all_but_last p xs)
AreDistinct-all_but_last p [] distinct = tt
AreDistinct-all_but_last p (x ∷ xs) (out, distinct) =
    (Absent-all_but_last x xs out, AreDistinct-all_but_last x xs distinct)

-- The buffer at the end of a chain of at least two, the one before it, and the chain that is left
-- when `next` of the latter is cleared.
pub record Cut (h : ℕ → Option Buffer) (before : Option ℕ) (p x : ℕ) (xs : List ℕ) : Type 0 where
  pub final : Buffer
  pub final-at : h (last x xs) ≡ some final
  pub final-next : final.next ≡ none
  pub prior : ℕ
  pub prior-prev : final.prev ≡ some prior
  pub new_end : Buffer
  pub new_end-at : h prior ≡ some new_end
  pub prior-last : last p (all_but_last x xs) ≡ prior
  pub last-prior : last x xs ≢ prior
  pub prior-Mem : (r : ℕ) → r ≢ p → Absent r (x ∷ xs) → r ≢ prior
  pub rest :
      IsChain (update h prior (some (record new_end { next = none }))) before p (all_but_last x xs)

pub Cut-IsChain :
    (h : ℕ → Option Buffer) (before : Option ℕ) (p x : ℕ) (xs : List ℕ)
    → AreDistinct (p ∷ x ∷ xs)
    → IsChain h before p (x ∷ xs)
    → Cut h before p x xs
Cut-IsChain h v p x [] ((ne, _), _) ((b, at, back, on), (c, c-at, c-back, c-on)) = record {
  final = c;
  final-at = c-at;
  final-next = c-on;
  prior = p;
  prior-prev = c-back;
  new_end = b;
  new_end-at = at;
  prior-last = refl;
  prior-Mem = λ r r≢p out. r≢p;
  last-prior = λ e. ne (sym e);
  rest = (record b { next = none }, update_self h p _, back, refl);
}
Cut-IsChain h v p x (y ∷ ys) ((ne, out), distinct) ((b, at, back, on), links) =
    let cut = Cut-IsChain h (some p) x y ys distinct links in
    let apart : p ≢ cut.prior = cut.prior-Mem p ne out in
    record {
      final = cut.final;
      final-at = cut.final-at;
      final-next = cut.final-next;
      prior = cut.prior;
      prior-prev = cut.prior-prev;
      new_end = cut.new_end;
      new_end-at = cut.new_end-at;
      prior-last = cut.prior-last;
      prior-Mem = λ r _ (e, o). cut.prior-Mem r e o;
      last-prior = cut.last-prior;
      rest = ((b, update_other h _ apart ∙ at, back, on), cut.rest);
    }
