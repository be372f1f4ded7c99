-- ===== src/Parser/RoundTrip/Samples.antt =====
-- Whole samples: what `parseSample` and its loop do to the collector when they read what an agent
-- sent, as functions on the collector that do not parse.
use sflow_toolkit.Base.{
  ℕ, zero, suc, ◌+◌, ◌%◌, ◌^◌, ◌≤◌, ◌<◌, ◌≡◌, refl, ap, some, List, [], ◌∷◌, length, Bool, true,
  false, arith, ◌==◌, All, get_elem?, set,
}
use sflow_toolkit.Base.Results.{ok}
use sflow_toolkit.Bytes.{Bytes, put32, IsU32}
use sflow_toolkit.Parser.Readers.{Datagram, at}
use sflow_toolkit.Parser.Samples.{Sample, FlowSample, CntrSample}
use sflow_toolkit.Parser.Counters.{parse_counter_sample}
use sflow_toolkit.Parser.Collect.{
  Buffer, Collector, slot, collect_flow, collect_cntr, parse_sample, parse_samples,
}
use sflow_toolkit.Parser.Encode.{put_opaque, CounterRecord, IsCounterRecord}
use sflow_toolkit.Parser.Encode.Samples.{
  FlowHeader, FlowRecord, CounterHeader, IsFlowHeader, IsFlowRecord, IsCounterHeader,
  put_flow_sample, put_counter_sample, fill_flow, Sent, flow, cntr, unknown, IsSent, put_sample,
  put_samples,
}
use sflow_toolkit.Parser.RoundTrip.{get_data32-put32, skip_bytes-put_opaque}
use sflow_toolkit.Parser.RoundTrip.Counters.{fill_all, parse_counter_records-put}
use sflow_toolkit.Parser.RoundTrip.Flow.{parse_source_id-put_pair, parse_flow_sample-put}

module _ {A : Type 0} where
  unfoldable pub modify : List A → ℕ → (A → A) → List A
  modify [] i f = []
  modify (x ∷ xs) zero f = f x ∷ xs
  modify (x ∷ xs) (suc i) f = x ∷ modify xs i f

  pub length-modify : (xs : List A) (i : ℕ) (f : A → A) → length (modify xs i f) ≡ length xs
  unfolding modify
  length-modify [] i f = refl
  length-modify (x ∷ xs) zero f = refl
  length-modify (x ∷ xs) (suc i) f = ap suc (length-modify xs i f)

  pub modify-some :
      (xs : List A) (i : ℕ) (f : A → A)
      → i < length xs
      → (x : A) × (get_elem? xs i ≡ some x) × (set xs i (f x) ≡ modify xs i f)
  unfolding modify
  modify-some [] i f h = absurd (omega arith)
  modify-some (x ∷ xs) zero f h = (x, refl, refl)
  modify-some (x ∷ xs) (suc i) f h =
      let (y, e, m) = modify-some xs i f (omega arith) in (y, e, ap (λ t. x ∷ t) m)

  -- A sample is written over what the next free slot of the buffer held.
  unfoldable pub store : (A → A) → Buffer A → Buffer A
  store f b = record b { count = b.count + 1; items = modify b.items b.count f }

abbrev pub HasRoom {ℓ} : {A : Type ℓ} → ℕ → Buffer A → Type 0
HasRoom n b = (b.count + n ≤ length b.items) × (length b.items < 2 ^ 32)

unfoldable pub stamp_flow : Sample → FlowSample → FlowSample
stamp_flow t s = record s {
  timestamp = t.timestamp;
  agent_address = t.agent_address;
  sub_agent_id = t.sub_agent_id;
}

unfoldable pub stamp_cntr : Sample → CntrSample → CntrSample
stamp_cntr t s = record s {
  timestamp = t.timestamp;
  agent_address = t.agent_address;
  sub_agent_id = t.sub_agent_id;
}

unfoldable pub fill_cntr : CounterHeader → List CounterRecord → CntrSample → CntrSample
fill_cntr h rs s = fill_all rs (record s {
  sequence_number = h.sequence_number;
  source_id_type = h.source_id_type;
  source_id_index = h.source_id_index;
})

-- What one sample that was sent adds to the collector.
unfoldable pub collected : Sample → Sent → Collector → Collector
unfolding store stamp_flow stamp_cntr fill_cntr
collected t (flow _ _ h r) c = record c {
  flow = store (λ s. fill_flow h r (stamp_flow t s)) c.flow;
  total_samples_flow = (c.total_samples_flow + 1) % 2 ^ 64;
}
collected t (cntr _ _ h rs) c = record c {
  cntr = store (λ s. fill_cntr h rs (stamp_cntr t s)) c.cntr;
  total_samples_cntr = (c.total_samples_cntr + 1) % 2 ^ 64;
}
collected t (unknown _ _) c = c

unfoldable pub collected_all : Sample → List Sent → Collector → Collector
unfolding collected
collected_all t [] c = c
collected_all t (s ∷ ss) c = collected_all t ss (collected t s c)

unfoldable pub flows : List Sent → ℕ
flows [] = 0
flows (flow _ _ _ _ ∷ ss) = flows ss + 1
flows (cntr _ _ _ _ ∷ ss) = flows ss
flows (unknown _ _ ∷ ss) = flows ss

unfoldable pub cntrs : List Sent → ℕ
cntrs [] = 0
cntrs (flow _ _ _ _ ∷ ss) = cntrs ss
cntrs (cntr _ _ _ _ ∷ ss) = cntrs ss + 1
cntrs (unknown _ _ ∷ ss) = cntrs ss

slot-some :
    {A : Type 0} (b : Buffer A) (s : A) (d : Datagram)
    → get_elem? b.items b.count ≡ some s
    → slot b d ≡ ok (s, d)
unfolding slot
slot-some b s d e = ground arith

module _ (d : Datagram) where
  parse_counter_sample-put :
      (s : CntrSample) (expanded : Bool) (h : CounterHeader) (rs : List CounterRecord)
      (rest : Bytes)
      → IsCounterHeader expanded h
      → All IsCounterRecord rs
      → IsU32 (length rs)
      → parse_counter_sample s expanded (at d (put_counter_sample expanded h rs rest))
        ≡ ok (fill_cntr h rs s, at d rest)
  unfolding parse_counter_sample put_counter_sample fill_cntr
  parse_counter_sample-put s expanded h rs rest is records few = simp (
    get_data32-put32, parse_source_id-put_pair, parse_counter_records-put, is.sequence_number,
    is.source_id, records, few,
  )

  collect_flow-put :
      (t : Sample) (c : Collector) (size : ℕ) (expanded : Bool) (h : FlowHeader) (r : FlowRecord)
      (rest : Bytes)
      → HasRoom 1 c.flow
      → IsFlowHeader expanded h
      → IsFlowRecord r
      → collect_flow t c expanded (at d (put_flow_sample expanded h r rest))
        ≡ ok (collected t (flow size expanded h r) c, at d rest)
  unfolding collect_flow collected
  collect_flow-put t c size expanded h r rest (room, small) is record_is =
      let (s, there, written) =
        modify-some c.flow.items c.flow.count (λ s. fill_flow h r (stamp_flow t s)) (omega arith) in
      let count : (c.flow.count + 1) % 2 ^ 32 ≡ c.flow.count + 1 = omega arith in
      rw (slot-some c.flow s _ there) (
        rw (parse_flow_sample-put d (stamp_flow t s) expanded h r rest is record_is) (λ i. ok (
          record c {
            flow = record { count = count i; items = written i };
            total_samples_flow = (c.total_samples_flow + 1) % 2 ^ 64;
          },
          at d rest,
        )))

  collect_cntr-put :
      (t : Sample) (c : Collector) (size : ℕ) (expanded : Bool) (h : CounterHeader)
      (rs : List CounterRecord) (rest : Bytes)
      → HasRoom 1 c.cntr
      → IsCounterHeader expanded h
      → All IsCounterRecord rs
      → IsU32 (length rs)
      → collect_cntr t c expanded (at d (put_counter_sample expanded h rs rest))
        ≡ ok (collected t (cntr size expanded h rs) c, at d rest)
  unfolding collect_cntr collected
  collect_cntr-put t c size expanded h rs rest (room, small) is records few =
      let (s, there, written) =
        modify-some c.cntr.items c.cntr.count (λ s. fill_cntr h rs (stamp_cntr t s))
          (omega arith) in
      let count : (c.cntr.count + 1) % 2 ^ 32 ≡ c.cntr.count + 1 = omega arith in
      rw (slot-some c.cntr s _ there) (
        rw (parse_counter_sample-put (stamp_cntr t s) expanded h rs rest is records few) (λ i. ok (
          record c {
            cntr = record { count = count i; items = written i };
            total_samples_cntr = (c.total_samples_cntr + 1) % 2 ^ 64;
          },
          at d rest,
        )))

  parse_sample-put_flow :
      (t : Sample) (c : Collector) (size : ℕ) (expanded : Bool) (h : FlowHeader) (r : FlowRecord)
      (rest : Bytes)
      → HasRoom 1 c.flow
      → IsSent (flow size expanded h r)
      → parse_sample t c (at d (put_sample (flow size expanded h r) rest))
        ≡ ok (collected t (flow size expanded h r) c, at d rest)
  unfolding parse_sample put_sample
  parse_sample-put_flow t c size true h r rest room (small, is, record_is, one) =
      rw (get_data32-put32 d 3 (put32 size (put_flow_sample true h r rest)) (omega arith)) (
        rw (get_data32-put32 d size (put_flow_sample true h r rest) small)
          (collect_flow-put t c size true h r rest room is record_is))
  parse_sample-put_flow t c size false h r rest room (small, is, record_is, one) =
      rw (get_data32-put32 d 1 (put32 size (put_flow_sample false h r rest)) (omega arith)) (
        rw (get_data32-put32 d size (put_flow_sample false h r rest) small)
          (collect_flow-put t c size false h r rest room is record_is))

  parse_sample-put_cntr :
      (t : Sample) (c : Collector) (size : ℕ) (expanded : Bool) (h : CounterHeader)
      (rs : List CounterRecord) (rest : Bytes)
      → HasRoom 1 c.cntr
      → IsSent (cntr size expanded h rs)
      → parse_sample t c (at d (put_sample (cntr size expanded h rs) rest))
        ≡ ok (collected t (cntr size expanded h rs) c, at d rest)
  unfolding parse_sample put_sample
  parse_sample-put_cntr t c size true h rs rest room (small, is, records, few) =
      rw (get_data32-put32 d 4 (put32 size (put_counter_sample true h rs rest)) (omega arith)) (
        rw (get_data32-put32 d size (put_counter_sample true h rs rest) small)
          (collect_cntr-put t c size true h rs rest room is records few))
  parse_sample-put_cntr t c size false h rs rest room (small, is, records, few) =
      rw (get_data32-put32 d 2 (put32 size (put_counter_sample false h rs rest)) (omega arith)) (
        rw (get_data32-put32 d size (put_counter_sample false h rs rest) small)
          (collect_cntr-put t c size false h rs rest room is records few))

  parse_sample-put_unknown :
      (t : Sample) (c : Collector) (tag : ℕ) (body rest : Bytes)
      → IsSent (unknown tag body)
      → parse_sample t c (at d (put_sample (unknown tag body) rest)) ≡ ok (c, at d rest)
  unfolding parse_sample put_sample
  parse_sample-put_unknown t c tag body rest (small, beyond, len) =
      let e₁ : (tag == 1) ≡ false = ground arith in
      let e₂ : (tag == 2) ≡ false = ground arith in
      let e₃ : (tag == 3) ≡ false = ground arith in
      let e₄ : (tag == 4) ≡ false = ground arith in
      rw (get_data32-put32 d tag (put32 (length body) (put_opaque body rest)) small) (
        rw (get_data32-put32 d (length body) (put_opaque body rest) (omega arith))
          (rw (e₁, e₂, e₃, e₄, skip_bytes-put_opaque d body rest len) refl))

  -- Samples that an agent sent, of both kinds and of unknown ones, whose fields fit their widths
  -- and whose flow samples have one record each, are parsed in their order, if the two buffers
  -- have room for them: each is stored behind those of its kind, the totals count them, and the
  -- cursor stands behind the last one.
  pub parse_samples-put :
      (t : Sample) (ss : List Sent) (c : Collector) (rest : Bytes)
      → All IsSent ss
      → HasRoom (flows ss) c.flow
      → HasRoom (cntrs ss) c.cntr
      → parse_samples (length ss) t c (at d (put_samples ss rest))
        ≡ ok (collected_all t ss c, at d rest)
  unfolding parse_samples put_samples collected_all flows cntrs
  parse_samples-put t [] c rest is room_flow room_cntr = refl
  parse_samples-put t (flow size expanded h r ∷ ss) c rest (is, others) room_flow room_cntr =
      rw (parse_sample-put_flow t c size expanded h r (put_samples ss rest) (omega arith) is) (
        parse_samples-put t ss (collected t (flow size expanded h r) c) rest others
          (omega
            (arith, length-modify c.flow.items c.flow.count (λ s. fill_flow h r (stamp_flow t s))))
          room_cntr)
  parse_samples-put t (cntr size expanded h rs ∷ ss) c rest (is, others) room_flow room_cntr =
      rw (parse_sample-put_cntr t c size expanded h rs (put_samples ss rest) (omega arith) is) (
        parse_samples-put t ss (collected t (cntr size expanded h rs) c) rest others room_flow (
          omega (
            arith,
            length-modify c.cntr.items c.cntr.count (λ s. fill_cntr h rs (stamp_cntr t s)),
          )))
  parse_samples-put t (unknown tag body ∷ ss) c rest (is, others) room_flow room_cntr =
      rw (parse_sample-put_unknown t c tag body (put_samples ss rest) is)
        (parse_samples-put t ss c rest others room_flow room_cntr)
