-- ===== src/Bufferqueue/Fifo.antt =====
-- The operations of src/bufferqueue.c on a queue as a list of buffers, the start in front: a push
-- puts a buffer in front, a pop takes the last one.
use sflow_toolkit.Base.{
  ℕ, suc, ◌+◌, ◌-◌, ◌%◌, ◌^◌, ◌<◌, Option, none, some, List, [], ◌∷◌, ◌≡◌, ◌≢◌, refl, sym, ap, ◌∙◌,
  ◌==◌, arith, false, true, length,
}
use sflow_toolkit.Base.Results.{and_then, Returns, returns}
use sflow_toolkit.Base.Heap.{update}
use sflow_toolkit.Bufferqueue.{
  Buffer, Queue, World, write, set_next, set_prev, non_null, inc32, dec32, link_front, bqueue_push,
  take_last,
}
use sflow_toolkit.Bufferqueue.Chain.{
  Absent, AreDistinct, all_but_last, last, IsChain, update_self, update_other, head-IsChain,
  length-all_but_last, Absent-all_but_last, AreDistinct-all_but_last, IsChain-update,
  IsChain-set_prev, Cut-IsChain,
}

-- The queue holds the buffers of the list, the start in front.
abbrev pub Holds : World → Queue → List ℕ → Type 0
Holds w q [] = (q.num ≡ 0) × (q.start ≡ none) × (q.end ≡ none)
Holds w q (p ∷ xs) =
    (q.num ≡ suc (length xs))
    × (suc (length xs) < 2 ^ 32)
    × (q.start ≡ some p)
    × (q.end ≡ some (last p xs))
    × AreDistinct (p ∷ xs)
    × ((before : Option ℕ) × IsChain w.buffers before p xs)

-- A buffer outside the queues, as a pop leaves it: `next` is cleared.
abbrev pub IsLoose : World → ℕ → Type 0
IsLoose w p = (b : Buffer) × (w.buffers p ≡ some b) × (b.next ≡ none)

-- Buffers outside the list are as they were.
abbrev pub Keeps : List ℕ → World → World → Type 0
Keeps xs w w' = (r : ℕ) → Absent r xs → w'.buffers r ≡ w.buffers r

-- A write to a buffer outside the queue.
pub Holds-update :
    (w : World) (q : Queue) (p : ℕ) (o : Option Buffer) (xs : List ℕ)
    → Absent p xs
    → Holds w q xs
    → Holds (record w { buffers = update w.buffers p o }) q xs
Holds-update w q p o [] out held = held
Holds-update w q p o (x ∷ xs) (ne, out) (num, lt, start, end, distinct, (before, links)) = (
  num,
  lt,
  start,
  end,
  distinct,
  (before, IsChain-update w.buffers before o x xs (λ e. ne (sym e)) out links),
)

abbrev pub Pushed : World → Queue → ℕ → List ℕ → Queue × World → Type 0
Pushed w q p xs (q', w') = Holds w' q' (p ∷ xs) × Keeps (p ∷ xs) w w' × (w'.top ≡ w.top)

-- A push of a buffer that is not in the queue and has no successor puts it in front of the queue,
-- if the count has room. The others keep their order, and no buffer outside the queue changes.
pub bqueue_push-Holds :
    (w : World) (q : Queue) (p : ℕ) (xs : List ℕ)
    → Holds w q xs
    → IsLoose w p
    → Absent p xs
    → suc (length xs) < 2 ^ 32
    → Returns (Pushed w q p xs) (bqueue_push q p w)
unfolding bqueue_push link_front set_prev set_next non_null write inc32
bqueue_push-Holds w q p [] (num, start, end) (b, at, on) out small =
    let count : (0 + 1) % 2 ^ 32 ≡ 1 = refl in
    rw num (
      returns (
        ((refl, omega arith, refl, refl, (_, _), (b.prev, (b, at, refl, on)))),
        (λ r o. refl),
        refl,
      ))
bqueue_push-Holds w q p (x ∷ xs) (num, lt, start, end, distinct, (before, links)) (b, at, on) out
      small =
    let (c, c-at) = head-IsChain w.buffers before x xs links in
    let (ne, absent) = out in
    let (head, rest) = distinct in
    let full : (q.num == 0) ≡ false = ground arith in
    let differs : (p == x) ≡ false = ground arith in
    let same : (p == p) ≡ true = ground arith in
    let count : (suc (length xs) + 1) % 2 ^ 32 ≡ suc (suc (length xs)) = omega arith in
    let h₁ : ℕ → Option Buffer = update w.buffers x (some (record c { prev = some p })) in
    let h₂ : ℕ → Option Buffer = update h₁ p (some (record b { next = some x })) in
    let b' : Buffer = record b { next = some x; prev = none } in
    let h₃ : ℕ → Option Buffer = update h₂ p (some b') in
    let links₁ : IsChain h₁ (some p) x xs =
      IsChain-set_prev w.buffers before (some p) x xs head c-at links in
    let back : x ≢ p = λ e. ne (sym e) in
    let links₃ : IsChain h₃ (some p) x xs =
      IsChain-update h₂ (some p) _ x xs back absent
        (IsChain-update h₁ (some p) _ x xs back absent links₁) in
    let kept : (r : ℕ) → Absent r (p ∷ x ∷ xs) → h₃ r ≡ w.buffers r = λ r (r≢p, (r≢x, o)).
      update_other h₂ _ r≢p ∙ update_other h₁ _ r≢p ∙ update_other w.buffers _ r≢x in
    rw full (
      rw (start, and_then)
        (rw (c-at, and_then)
          (rw (differs, and_then)
            (rw (at, and_then)
              (rw (same, and_then)
                (rw (num, count)
                  (returns (
                    (
                      refl,
                      small,
                      refl,
                      end,
                      (out, distinct),
                      (none, ((b', update_self h₂ p b', refl, refl), links₃)),
                    ),
                    kept,
                    refl,
                  ))))))))

abbrev pub Taken : World → ℕ → List ℕ → ℕ × Queue × World → Type 0
Taken w p xs (b, q', w') =
    (b ≡ last p xs)
    × Holds w' q' (all_but_last p xs)
    × IsLoose w' b
    × Keeps (p ∷ xs) w w'
    × (w'.top ≡ w.top)

-- From a queue with at least one buffer a pop takes the last one. The others stay, in their order,
-- what was taken has no successor, so that it can be pushed onto any queue, and no buffer outside
-- the queue changes.
pub take_last-Holds :
    (w : World) (q : Queue) (p : ℕ) (xs : List ℕ)
    → Holds w q (p ∷ xs)
    → Returns (Taken w p xs) (take_last q w)
unfolding take_last non_null set_next write dec32
take_last-Holds w q p [] (num, lt, start, end, distinct, (before, (b, at, back, on))) =
    rw num (rw start (returns (refl, (refl, refl, refl), (b, at, on), (λ r o. refl), refl)))
take_last-Holds w q p (x ∷ xs) (num, lt, start, end, ((ne, out), distinct), (before, links)) =
    let cut = Cut-IsChain w.buffers before p x xs ((ne, out), distinct) links in
    let shorter = length-all_but_last x xs in
    let several : (q.num == 1) ≡ false = ground arith in
    let count : (suc (suc (length xs)) + 2 ^ 32 - 1) % 2 ^ 32 ≡ suc (length xs) = omega arith in
    rw several (
      rw (end, and_then)
        (rw (cut.final-at, and_then)
          (rw (cut.prior-prev, and_then)
            (rw (cut.new_end-at, and_then)
              (rw (num, count)
                (returns (
                  refl,
                  (
                    sym (ap suc shorter),
                    omega (arith, shorter),
                    start,
                    ap some (sym (cut.prior-last)),
                    (Absent-all_but_last x xs (ne, out), AreDistinct-all_but_last x xs distinct),
                    (before, cut.rest),
                  ),
                  (
                    cut.final,
                    update_other w.buffers _ (cut.last-prior) ∙ cut.final-at,
                    cut.final-next,
                  ),
                  (λ r (r≢p, o). update_other w.buffers _ (cut.prior-Mem r r≢p o)),
                  refl,
                )))))))
