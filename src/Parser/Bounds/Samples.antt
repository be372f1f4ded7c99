-- ===== src/Parser/Bounds/Samples.antt =====
-- The least number of bytes that each sample and each whole datagram takes, and so how often the
-- loops over records and samples can run.
use sflow_toolkit.Base.{
  ℕ, zero, suc, ◌+◌, ◌*◌, Option, some, none, Bool, true, false, arith, ◌==◌, ◌||◌, get_elem?,
}
use sflow_toolkit.Base.Results.{ok, fault, overrun}
use sflow_toolkit.Parser.Readers.{Datagram, pure, ◌>>=◌, skip_bytes}
use sflow_toolkit.Parser.Samples.{Sample, FlowSample, CntrSample}
use sflow_toolkit.Parser.Counters.{
  parse_counters_generic, parse_counters_ethernet, parse_counter_record_header,
  parse_counter_records, parse_source_id, parse_counter_sample,
}
use sflow_toolkit.Parser.Flow.{
  parse_sampled_header, parse_flow_record_header, parse_interface, parse_flow_sample,
}
use sflow_toolkit.Parser.Collect.{
  Buffer, Collector, slot, collect_flow, collect_cntr, parse_sample, parse_samples,
}
use sflow_toolkit.Parser.Bounds.{
  Took, Takes, Takes-bind, Takes-pure, Takes-less, Takes-if, Takes-skip_bytes, Takes-copy_bytes,
  Takes-word, Takes-long,
}

pub Takes-parse_counters_generic : (s : CntrSample) → Takes 88 (parse_counters_generic s)
unfolding parse_counters_generic
Takes-parse_counters_generic s = Takes-word λ _. Takes-word λ _. Takes-long λ _. Takes-word λ _.
    Takes-word λ _. Takes-long λ _. Takes-word λ _. Takes-word λ _. Takes-word λ _. Takes-word λ _.
      Takes-word λ _. Takes-word λ _. Takes-long λ _. Takes-word λ _.
        Takes-word λ _. Takes-word λ _. Takes-word λ _. Takes-word λ _. Takes-word λ _. Takes-pure _

pub Takes-parse_counters_ethernet : (s : CntrSample) → Takes 52 (parse_counters_ethernet s)
unfolding parse_counters_ethernet
Takes-parse_counters_ethernet s = Takes-word λ _. Takes-word λ _. Takes-word λ _. Takes-word λ _.
    Takes-word λ _. Takes-word λ _. Takes-word λ _. Takes-word λ _.
      Takes-word λ _. Takes-word λ _. Takes-word λ _. Takes-word λ _. Takes-word λ _. Takes-pure _

pub Takes-skip : {A : Type 0} (n : ℕ) (a : A) → Takes 0 (skip_bytes n >>= λ _. pure a)
Takes-skip n a = Takes-bind (Takes-skip_bytes n) λ _. Takes-pure a

Takes-parse_counter_record_header : (s : CntrSample) → Takes 8 (parse_counter_record_header s)
unfolding parse_counter_record_header
Takes-parse_counter_record_header s = Takes-word λ tag. Takes-word λ size.
    Takes-if (tag == 1) (Takes-less 0 88 (omega arith) (Takes-parse_counters_generic s)) (
      Takes-if (tag == 2) (Takes-less 0 52 (omega arith) (Takes-parse_counters_ethernet s))
        (Takes-skip size s))

-- If the loop over n counter records ends without a fault, it has taken at least 8 n bytes.
pub Takes-parse_counter_records :
    (n : ℕ) (s : CntrSample) → Takes (8 * n) (parse_counter_records n s)
unfolding parse_counter_records
Takes-parse_counter_records zero s = Takes-pure s
Takes-parse_counter_records (suc n) s =
    Takes-less (8 * suc n) (8 + 8 * n) (omega arith)
      (Takes-bind (Takes-parse_counter_record_header s) (λ s'. Takes-parse_counter_records n s'))

Takes-parse_counter_sample :
    (s : CntrSample) (expanded : Bool) → Takes 0 (parse_counter_sample s expanded)
unfolding parse_counter_sample
Takes-parse_counter_sample s true = Takes-less 0 16 (omega arith) (
    Takes-word λ _.
      Takes-bind {n = 8} (Takes-word λ _. Takes-word λ _. Takes-pure _)
        λ _. Takes-word λ n. Takes-less 0 (8 * n) (omega arith) (Takes-parse_counter_records n _))
Takes-parse_counter_sample s false = Takes-less 0 12 (omega arith) (
    Takes-word λ _.
      Takes-bind {n = 4} (Takes-word λ _. Takes-pure _)
        λ _. Takes-word λ n. Takes-less 0 (8 * n) (omega arith) (Takes-parse_counter_records n _))

Takes-parse_sampled_header : (s : FlowSample) → Takes 16 (parse_sampled_header s)
unfolding parse_sampled_header
Takes-parse_sampled_header s = Takes-word λ _. Takes-word λ _.
    Takes-word λ _. Takes-word λ n. Takes-bind {n = 0} (Takes-copy_bytes _) λ bytes. Takes-skip n _

Takes-parse_flow_record_header : (s : FlowSample) → Takes 8 (parse_flow_record_header s)
unfolding parse_flow_record_header
Takes-parse_flow_record_header s = Takes-word λ tag. Takes-word λ size.
    Takes-if (tag == 1) (Takes-less 0 16 (omega arith) (Takes-parse_sampled_header s))
      (Takes-skip size s)

Takes-parse_interface : (expanded : Bool) → Takes 0 (parse_interface expanded)
unfolding parse_interface
Takes-parse_interface true =
    Takes-less 0 8 (omega arith) (Takes-word λ _. Takes-word λ _. Takes-pure _)
Takes-parse_interface false = Takes-less 0 4 (omega arith) (Takes-word λ _. Takes-pure _)

Takes-parse_source_id : (expanded : Bool) → Takes 0 (parse_source_id expanded)
unfolding parse_source_id
Takes-parse_source_id true =
    Takes-less 0 8 (omega arith) (Takes-word λ _. Takes-word λ _. Takes-pure _)
Takes-parse_source_id false = Takes-less 0 4 (omega arith) (Takes-word λ _. Takes-pure _)

Takes-parse_flow_sample :
    (s : FlowSample) (expanded : Bool) → Takes 0 (parse_flow_sample s expanded)
unfolding parse_flow_sample
Takes-parse_flow_sample s expanded = Takes-less 0 28 (omega arith) (
    Takes-word λ _. Takes-bind (Takes-parse_source_id expanded) λ _. Takes-word λ _. Takes-word λ _.
      Takes-word λ _. Takes-bind (Takes-parse_interface expanded) λ _.
        Takes-bind (Takes-parse_interface expanded)
          λ _. Takes-word λ _. Takes-parse_flow_record_header _)

Takes-slot : {A : Type 0} (b : Buffer A) → Takes 0 (slot b)
unfolding slot
Takes-slot {A} b = record { took = λ d. held d (get_elem? b.items b.count) }
  where
    held :
        (d : Datagram) (o : Option A)
        → Took 0 d (elim o [ none ↦ fault overrun | some s ↦ ok (s, d) ])
    held d none = tt
    held d (some s) = omega arith

Takes-collect_flow :
    (t : Sample) (c : Collector) (expanded : Bool) → Takes 0 (collect_flow t c expanded)
unfolding collect_flow
Takes-collect_flow t c expanded =
    Takes-bind (Takes-slot c.flow)
      λ s. Takes-bind (Takes-parse_flow_sample _ expanded) λ s'. Takes-pure _

Takes-collect_cntr :
    (t : Sample) (c : Collector) (expanded : Bool) → Takes 0 (collect_cntr t c expanded)
unfolding collect_cntr
Takes-collect_cntr t c expanded =
    Takes-bind (Takes-slot c.cntr)
      λ s. Takes-bind (Takes-parse_counter_sample _ expanded) λ s'. Takes-pure _

Takes-parse_sample : (t : Sample) (c : Collector) → Takes 8 (parse_sample t c)
unfolding parse_sample
Takes-parse_sample t c = Takes-word λ tag. Takes-word λ size.
    Takes-if (tag == 1 || tag == 3) (Takes-collect_flow t c _)
      (Takes-if (tag == 2 || tag == 4) (Takes-collect_cntr t c _) (Takes-skip size c))

-- Every round of the loop over samples takes at least eight bytes.
pub Takes-parse_samples : (n : ℕ) (t : Sample) (c : Collector) → Takes (8 * n) (parse_samples n t c)
unfolding parse_samples
Takes-parse_samples zero t c = Takes-pure c
Takes-parse_samples (suc n) t c =
    Takes-less (8 * suc n) (8 + 8 * n) (omega arith)
      (Takes-bind (Takes-parse_sample t c) (λ c'. Takes-parse_samples n t c'))
