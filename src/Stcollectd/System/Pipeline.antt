-- ===== src/Stcollectd/System/Pipeline.antt =====
-- The samples on their way through the collector of src/stcollectd.c: what a turn of the loop of
-- `collect` does with the buffers.
use mathlib.Core.List.{append_assoc, append-nil}
use mathlib.Core.Path.{subst}
use sflow_toolkit.Base.{
  ℕ, zero, suc, ◌+◌, ◌-◌, ◌%◌, ◌^◌, ◌≤◌, ◌<◌, ◌≡◌, refl, sym, ap, ◌∙◌, Bool, true, false, List, [],
  ◌∷◌, ◌++◌, length, ◌==◌, if◌then◌else◌, take, drop, get_elem?, arith,
}
use sflow_toolkit.Base.Results.{ok, >>=-eq_ok}
use sflow_toolkit.Configparser.Settings.{StcollectdConfig}
use sflow_toolkit.Parser.Collect.{Buffer, Collector, parse_datagram}
use sflow_toolkit.Parser.Kept.{IsCollector, Grew, Extends}
use sflow_toolkit.Parser.Kept.Received.{HoldsValue, parse_datagram-Grew}
use sflow_toolkit.Stcollectd.Collect.{
  Received, Fresh, CollectLoop, wants_flush, flush, remainder, collect_one,
}

-- The current buffers as a pair.
abbrev pub current : Collector → Fresh
current c = record { flow = c.flow; cntr = c.cntr }

-- What a turn of the loop does: the buffers grow, and are handed over or not.
pub data Turned (s : CollectLoop) (fresh : Fresh) (s' : CollectLoop) : Type 0 where
  kept : Grew s.collector s'.collector → s'.flushed ≡ s.flushed → Turned s fresh s'
  handed :
      (c : Collector)
      → Grew s.collector c
      → s'.flushed ≡ s.flushed ++ (current c ∷ [])
      → current s'.collector ≡ fresh
      → Turned s fresh s'

pub collect_one-Turned :
    (cfg : StcollectdConfig) (r : Received) (fresh : Fresh) (s s' : CollectLoop)
    → IsCollector s.collector
    → collect_one cfg (r, fresh) s ≡ ok s'
    → Turned s fresh s'
unfolding collect_one flush
collect_one-Turned cfg r fresh s s' is e =
    let (c, parsed, e₁) =
      >>=-eq_ok (parse_datagram r.bytes r.bytes_received r.now r.s_addr s.collector) _ e in
    let (rest, divided, e₂) =
      >>=-eq_ok (remainder ((s.total_datagrams + 1) % 2 ^ 64) cfg.print_interval) _ e₁ in
    let g = parse_datagram-Grew r.bytes r.bytes_received r.now r.s_addr s.collector c is parsed in
    let t = if s.t == 0 then r.time_current else s.t in
    let total = (s.total_datagrams + 1) % 2 ^ 64 in
    subst (HoldsValue (Turned s fresh)) e₂
      (turned c total t g (wants_flush cfg (r.time_current + 2 ^ 64 - t) c))
  where
    turned :
        (c : Collector) (total t : ℕ)
        → Grew s.collector c
        → (b : Bool)
        → (let s₁ = record s { collector = c; total_datagrams = total; t = t } in
            Turned s fresh (if b then flush fresh r.time_current s₁ else s₁))
    turned c total t g true = handed c g refl refl
    turned c total t g false = kept g refl

take_ext :
    {A : Type 0} (n : ℕ) (xs ys : List A)
    → n ≤ length ys
    → ((i : ℕ) → i < n → get_elem? ys i ≡ get_elem? xs i)
    → take n xs ≡ take n ys
take_ext zero xs ys le h = refl
take_ext (suc n) [] [] le h = refl
take_ext (suc n) [] (y ∷ ys) le h = let e = h 0 (omega arith) in cc
take_ext (suc n) (x ∷ xs) [] le h = absurd (omega arith)
take_ext (suc n) (x ∷ xs) (y ∷ ys) le h =
    let same = h 0 (omega arith) in
    let rest = take_ext n xs ys (omega arith) (λ i lt. h (suc i) (omega arith)) in cc

take-take : {A : Type 0} (n m : ℕ) (xs : List A) → n ≤ m → take n (take m xs) ≡ take n xs
take-take zero m xs le = refl
take-take (suc n) zero xs le = absurd (omega arith)
take-take (suc n) (suc m) [] le = refl
take-take (suc n) (suc m) (x ∷ xs) le = ap (λ t. x ∷ t) (take-take n m xs (omega arith))

pub take-drop : {A : Type 0} (n : ℕ) (xs : List A) → take n xs ++ drop n xs ≡ xs
take-drop zero xs = refl
take-drop (suc n) [] = refl
take-drop (suc n) (x ∷ xs) = ap (λ t. x ∷ t) (take-drop n xs)

-- The first list is the beginning of the second.
abbrev pub IsPrefix : {A : Type 0} → List A → List A → Type 0
IsPrefix {A} xs ys = (new : List A) × (ys ≡ xs ++ new)

pub IsPrefix-refl : {A : Type 0} (xs : List A) → IsPrefix xs xs
IsPrefix-refl xs = ([], sym (append-nil xs))

pub IsPrefix-trans :
    {A : Type 0} (xs ys zs : List A) → IsPrefix xs ys → IsPrefix ys zs → IsPrefix xs zs
IsPrefix-trans xs ys zs (u, p) (v, q) = (u ++ v, q ∙ ap (λ t. t ++ v) p ∙ append_assoc xs u v)

-- The samples in a buffer.
abbrev pub samples : {A : Type 0} → Buffer A → List A
samples b = take b.count b.items

Extends-samples : {A : Type 0} (b b' : Buffer A) → Extends b b' → IsPrefix (samples b) (samples b')
Extends-samples b b' x = (
  drop b.count (samples b'),
  sym (take-drop b.count (samples b'))
      ∙ ap (λ t. t ++ drop b.count (samples b'))
          (take-take b.count b'.count b'.items x.count
            ∙ sym (take_ext b.count b.items b'.items (omega (arith, x.count, x.inside)) x.kept)),
)

-- The buffers of one kind: `part` selects them.
module _ {A : Type 0} (part : Fresh → Buffer A) where
  abbrev pub contents : List Fresh → List A
  contents [] = []
  contents (b ∷ bs) = samples (part b) ++ contents bs

  pub contents-append : (bs cs : List Fresh) → contents (bs ++ cs) ≡ contents bs ++ contents cs
  contents-append [] cs = refl
  contents-append (b ∷ bs) cs =
      ap (λ t. samples (part b) ++ t) (contents-append bs cs)
      ∙ sym (append_assoc (samples (part b)) (contents bs) (contents cs))

  -- Every sample that was collected, in the order in which it came.
  abbrev pub stream : CollectLoop → List A
  stream s = contents s.flushed ++ samples (part (current s.collector))

  module _
      (grows : (c c' : Collector)
        → Grew c c'
        → Extends (part (current c)) (part (current c'))) where
    pub Turned-stream :
        (s s' : CollectLoop) (fresh : Fresh)
        → (part fresh).count ≡ 0
        → Turned s fresh s'
        → IsPrefix (stream s) (stream s')
    Turned-stream s s' fresh blank (kept g same) =
        let (new, e) = Extends-samples _ _ (grows s.collector s'.collector g) in
        (
          new,
          ap (λ bs. contents bs ++ samples (part (current s'.collector))) same
              ∙ ap (λ t. contents s.flushed ++ t) e
              ∙ sym (append_assoc (contents s.flushed) (samples (part (current s.collector))) new),
        )
    Turned-stream s s' fresh blank (handed c g more taken) =
        let (new, e) = Extends-samples _ _ (grows s.collector c g) in
        (
          new,
          ap (λ bs. contents bs ++ samples (part (current s'.collector))) more
              ∙ ap (λ t. contents (s.flushed ++ (current c ∷ [])) ++ t) none_left
              ∙ append-nil (contents (s.flushed ++ (current c ∷ [])))
              ∙ contents-append s.flushed (current c ∷ [])
              ∙ ap (λ t. contents s.flushed ++ t) (append-nil (samples (part (current c))) ∙ e)
              ∙ sym (append_assoc (contents s.flushed) (samples (part (current s.collector))) new),
        )
      where
        none_left : samples (part (current s'.collector)) ≡ []
        none_left = ap (λ b. samples (part b)) taken ∙ ap (λ n. take n (part fresh).items) blank
