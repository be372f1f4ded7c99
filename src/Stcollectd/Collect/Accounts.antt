-- ===== src/Stcollectd/Collect/Accounts.antt =====
-- What the loop of `collect` in src/stcollectd.c keeps: room in the current buffers, and an account
-- of every sample.
use mathlib.Core.Bool.{false≢true}
use mathlib.Core.Path.{subst}
use sflow_toolkit.Base.{
  ℕ, ◌+◌, ◌-◌, ◌%◌, ◌^◌, ◌≤◌, ◌<◌, ◌≡◌, ◌≢◌, refl, sym, ◌∙◌, Bool, true, false, List, [], ◌∷◌, ◌++◌,
  length, ◌==◌, leb, ◌||◌, if◌then◌else◌, arith, All,
}
use sflow_toolkit.Base.Results.{
  Fault, Result, ok, fault, overrun, division_by_zero, and_then, >>=-eq_ok,
}
use sflow_toolkit.Configparser.Settings.{StcollectdConfig}
use sflow_toolkit.Parser.Collect.{
  Collector, DatagramHeader, parse_datagram, parse_datagram_header, start_datagram,
}
use sflow_toolkit.Parser.Readers.{Datagram}
use sflow_toolkit.Parser.Room.Received.{parse_datagram-spares}
use sflow_toolkit.Parser.Kept.{IsCollector, Grew}
use sflow_toolkit.Parser.Kept.Received.{HoldsValue, parse_datagram-Grew}
use sflow_toolkit.Stcollectd.Collect.{
  Received, Fresh, CollectLoop, wants_flush, flush, remainder, collect_one, collect,
}

-- The samples in the buffers that were handed over.
abbrev pub flushed_flow : List Fresh → ℕ
flushed_flow [] = 0
flushed_flow (b ∷ bs) = b.flow.count + flushed_flow bs

abbrev pub flushed_cntr : List Fresh → ℕ
flushed_cntr [] = 0
flushed_cntr (b ∷ bs) = b.cntr.count + flushed_cntr bs

flushed_flow-append :
    (bs : List Fresh) (b : Fresh) → flushed_flow (bs ++ (b ∷ [])) ≡ flushed_flow bs + b.flow.count
flushed_flow-append [] b = omega arith
flushed_flow-append (a ∷ bs) b = omega (arith, flushed_flow-append bs b)

flushed_cntr-append :
    (bs : List Fresh) (b : Fresh) → flushed_cntr (bs ++ (b ∷ [])) ≡ flushed_cntr bs + b.cntr.count
flushed_cntr-append [] b = omega arith
flushed_cntr-append (a ∷ bs) b = omega (arith, flushed_cntr-append bs b)

-- A pair of free buffers: empty, and of the configured size.
pub record IsFresh (size : ℕ) (b : Fresh) : Type 0 where
  pub flow_count : b.flow.count ≡ 0
  pub flow_size : length b.flow.items ≡ size
  pub cntr_count : b.cntr.count ≡ 0
  pub cntr_size : length b.cntr.items ≡ size

-- Both current buffers have the configured size, and more than ten free slots; the totals are the
-- numbers of the samples that were handed over or are in the current buffers, modulo 2^32.
pub record Accounted (size : ℕ) (s : CollectLoop) : Type 0 where
  pub flow_size : length s.collector.flow.items ≡ size
  pub cntr_size : length s.collector.cntr.items ≡ size
  pub flow_room : s.collector.flow.count + 10 < size
  pub cntr_room : s.collector.cntr.count + 10 < size
  pub flow_total :
      s.collector.total_samples_flow % 2 ^ 32
      ≡ (flushed_flow s.flushed + s.collector.flow.count) % 2 ^ 32
  pub cntr_total :
      s.collector.total_samples_cntr % 2 ^ 32
      ≡ (flushed_cntr s.flushed + s.collector.cntr.count) % 2 ^ 32

-- No more samples are announced than a buffer keeps free.
abbrev pub IsSmall : Received → Type 0
IsSmall r =
    (hdr : DatagramHeader) (d : Datagram)
    → parse_datagram_header (start_datagram r.bytes r.bytes_received r.now) ≡ ok (hdr, d)
    → hdr.num_records ≤ 10

-- The run does not write behind an array, and if it ends its value satisfies `P`.
abbrev pub Safe : {A : Type 0} → (A → Type 0) → Result A → Type 0
Safe P (ok a) = P a
Safe P (fault Fault.overrun) = ⊥
Safe P (fault other) = Unit {0}

Safe-both :
    {A : Type 0} {P : A → Type 0} (r : Result A)
    → r ≢ fault overrun
    → ((a : A) → r ≡ ok a → P a)
    → Safe P r
Safe-both (ok a) h k = k a refl
Safe-both (fault Fault.overrun) h k = h refl
Safe-both (fault other) h k = tt

Safe-bind :
    {A B : Type 0} {P : A → Type 0} (Q : B → Type 0) (r : Result A) (f : A → Result B)
    → Safe P r
    → ((a : A) → P a → Safe Q (f a))
    → Safe Q (and_then r f)
Safe-bind Q (ok a) f h k = k a h
Safe-bind Q (fault Fault.overrun) f h k = h
Safe-bind Q (fault other) f h k = tt

and_then-spares :
    {A B : Type 0} (r : Result A) (f : A → Result B)
    → r ≢ fault overrun
    → ((a : A) → f a ≢ fault overrun)
    → and_then r f ≢ fault overrun
and_then-spares (ok a) f h k e = k a e
and_then-spares (fault Fault.overrun) f h k e = h refl
and_then-spares (fault other) f h k e = cc

if-spares : (b : Bool) (n : ℕ) → (if b then fault division_by_zero else ok n) ≢ fault overrun
if-spares true n e = cc
if-spares false n e = cc

or-false : (a b : Bool) → (a || b) ≡ false → (a ≡ false) × (b ≡ false)
or-false true b e = absurd (false≢true (sym e))
or-false false b e = (refl, e)

leb-false : (a b : ℕ) → leb a b ≡ false → b < a
leb-false a b e = ground arith

module _ (cfg : StcollectdConfig) (large : 10 < cfg.buffer_size)
    (small : cfg.buffer_size < 2 ^ 32) where
  -- A flush that is not wanted leaves both buffers with room.
  room_left :
      (d_t : ℕ) (c : Collector)
      → wants_flush cfg d_t c ≡ false
      → (c.flow.count + 10 < cfg.buffer_size) × (c.cntr.count + 10 < cfg.buffer_size)
  unfolding wants_flush
  room_left d_t c e =
      let limit : (cfg.buffer_size + 2 ^ 32 - 10) % 2 ^ 32 ≡ cfg.buffer_size - 10 = omega arith in
      let (_, nearly_full) = or-false (leb cfg.flush_interval (d_t % 2 ^ 32)) _ e in
      let (flow, cntr) = or-false (leb _ c.flow.count) (leb _ c.cntr.count) nearly_full in
      (omega (arith, leb-false _ _ flow), omega (arith, leb-false _ _ cntr))

  module _ (s : CollectLoop) (is : Accounted cfg.buffer_size s) where
    pub IsCollector-Accounted : IsCollector s.collector
    IsCollector-Accounted = omega (arith, is.flow_size, is.cntr_size, is.flow_room, is.cntr_room)

    Accounted-kept :
        (c : Collector) (total t : ℕ)
        → Grew s.collector c
        → (c.flow.count + 10 < cfg.buffer_size) × (c.cntr.count + 10 < cfg.buffer_size)
        → Accounted cfg.buffer_size (record s { collector = c; total_datagrams = total; t = t })
    Accounted-kept c total t g (flow_room, cntr_room) = record {
      flow_size = g.flow.size ∙ is.flow_size;
      cntr_size = g.cntr.size ∙ is.cntr_size;
      flow_room = flow_room;
      cntr_room = cntr_room;
      flow_total = omega (arith, g.total_flow, is.flow_total);
      cntr_total = omega (arith, g.total_cntr, is.cntr_total);
    }

    Accounted-flush :
        (c : Collector) (total t time_current : ℕ) (fresh : Fresh)
        → Grew s.collector c
        → IsFresh cfg.buffer_size fresh
        → Accounted cfg.buffer_size
            (flush fresh time_current (record s { collector = c; total_datagrams = total; t = t }))
    unfolding flush
    Accounted-flush c total t time_current fresh g f = record {
      flow_size = f.flow_size;
      cntr_size = f.cntr_size;
      flow_room = omega (arith, f.flow_count);
      cntr_room = omega (arith, f.cntr_count);
      flow_total = omega (
        arith,
        g.total_flow,
        is.flow_total,
        f.flow_count,
        flushed_flow-append s.flushed (record { flow = c.flow; cntr = c.cntr }),
      );
      cntr_total = omega (
        arith,
        g.total_cntr,
        is.cntr_total,
        f.cntr_count,
        flushed_cntr-append s.flushed (record { flow = c.flow; cntr = c.cntr }),
      );
    }

    Accounted-turn :
        (c : Collector) (total t d_t time_current : ℕ) (fresh : Fresh)
        → Grew s.collector c
        → IsFresh cfg.buffer_size fresh
        → (b : Bool) → wants_flush cfg d_t c ≡ b
        → (let s₁ = record s { collector = c; total_datagrams = total; t = t } in
            Accounted cfg.buffer_size (if b then flush fresh time_current s₁ else s₁))
    Accounted-turn c total t d_t time_current fresh g f true e =
        Accounted-flush c total t time_current fresh g f
    Accounted-turn c total t d_t time_current fresh g f false e =
        Accounted-kept c total t g (room_left d_t c e)

    -- A turn of the loop that ends without a fault.
    pub collect_one-Accounted :
        (r : Received) (fresh : Fresh) (s' : CollectLoop)
        → IsFresh cfg.buffer_size fresh
        → collect_one cfg (r, fresh) s ≡ ok s'
        → Accounted cfg.buffer_size s'
    unfolding collect_one
    collect_one-Accounted r fresh s' f e =
        let (c, parsed, e₁) =
          >>=-eq_ok (parse_datagram r.bytes r.bytes_received r.now r.s_addr s.collector) _ e in
        let (rest, divided, e₂) =
          >>=-eq_ok (remainder ((s.total_datagrams + 1) % 2 ^ 64) cfg.print_interval) _ e₁ in
        let g =
          parse_datagram-Grew r.bytes r.bytes_received r.now r.s_addr s.collector c
            IsCollector-Accounted parsed in
        let t = if s.t == 0 then r.time_current else s.t in
        let total = (s.total_datagrams + 1) % 2 ^ 64 in
        let d_t = r.time_current + 2 ^ 64 - t in
        subst (HoldsValue (Accounted cfg.buffer_size)) e₂
          (Accounted-turn c total t d_t r.time_current fresh g f (wants_flush cfg d_t c) refl)

  module _ (s : CollectLoop) (is : Accounted cfg.buffer_size s) where
    parse_datagram-room :
        (r : Received)
        → IsSmall r
        → parse_datagram r.bytes r.bytes_received r.now r.s_addr s.collector ≢ fault overrun
    parse_datagram-room r few =
        parse_datagram-spares r.bytes r.bytes_received r.now r.s_addr s.collector λ hdr d e.
          record {
            flow = omega (arith, few hdr d e, is.flow_room, is.flow_size);
            cntr = omega (arith, few hdr d e, is.cntr_room, is.cntr_size);
            flow_size = omega (arith, is.flow_size);
            cntr_size = omega (arith, is.cntr_size);
          }

    collect_one-Safe :
        (r : Received) (fresh : Fresh)
        → IsSmall r
        → IsFresh cfg.buffer_size fresh
        → Safe (Accounted cfg.buffer_size) (collect_one cfg (r, fresh) s)
    unfolding collect_one remainder
    collect_one-Safe r fresh few f =
        Safe-both (collect_one cfg (r, fresh) s)
          (and_then-spares (parse_datagram r.bytes r.bytes_received r.now r.s_addr s.collector) _
            (parse_datagram-room r few)
            λ c.
              and_then-spares (remainder _ cfg.print_interval) _
                (if-spares (cfg.print_interval == 0) _) λ _ e. cc)
          (λ s'. collect_one-Accounted s is r fresh s' f)

  -- Whatever bytes are received, in datagrams that announce at most ten samples each: the loop never
  -- writes behind the current buffers, and if it ends without another fault, then both current
  -- buffers have more than ten free slots, and no sample is lost or counted twice: the totals are
  -- the numbers of the samples in the buffers that were handed over and in the current ones, modulo
  -- 2^32. Conditions: the buffers have more than ten slots and fewer than 2^32, and the free buffers
  -- that are taken are empty.
  pub collect-Safe :
      (rs : List (Received × Fresh)) (s : CollectLoop)
      → All (λ r. IsSmall r.0 × IsFresh cfg.buffer_size r.1) rs
      → Accounted cfg.buffer_size s
      → Safe (Accounted cfg.buffer_size) (collect cfg rs s)
  unfolding collect
  collect-Safe [] s all is = is
  collect-Safe ((r, fresh) ∷ rs) s ((few, f), all) is =
      Safe-bind (Accounted cfg.buffer_size) (collect_one cfg (r, fresh) s) (collect cfg rs)
        (collect_one-Safe s is r fresh few f) λ s₁ is₁. collect-Safe rs s₁ all is₁
