-- ===== src/Dataparser/Process/Counters.antt =====
-- A file of counter samples in src/dataparser.c.
use sflow_toolkit.Base.{◌+◌, ◌%◌, ◌^◌, ◌≡◌, sym, ◌∙◌, some, List, [], ◌∷◌, ◌++◌, length, arith}
use mathlib.Core.List.{append-nil, append_assoc}
use sflow_toolkit.Parser.Samples.{CntrSample}
use sflow_toolkit.Dataparser.Process.{
  CounterList, process_sample_cntr, process_samples_cntr, process_file_cntr,
}

nodes-process_samples_cntr :
    (ss : List CntrSample) (l : CounterList) → (process_samples_cntr ss l).nodes ≡ l.nodes ++ ss
unfolding process_samples_cntr process_sample_cntr
nodes-process_samples_cntr [] l = sym (append-nil l.nodes)
nodes-process_samples_cntr (s ∷ ss) l =
    nodes-process_samples_cntr ss (process_sample_cntr s l) ∙ append_assoc l.nodes (s ∷ []) ss

num-process_samples_cntr :
    (ss : List CntrSample) (l : CounterList)
    → (process_samples_cntr ss l).num % 2 ^ 32 ≡ (l.num + length ss) % 2 ^ 32
unfolding process_samples_cntr process_sample_cntr
num-process_samples_cntr [] l = omega arith
num-process_samples_cntr (s ∷ ss) l =
    omega (arith, num-process_samples_cntr ss (process_sample_cntr s l))

-- A file of counter samples is handed to the storage modules as a list of all its samples, in the
-- order of the file, with their number modulo 2^32.
pub process_file_cntr-length :
    (ss : List CntrSample)
    → ((process_file_cntr (some ss)).nodes ≡ ss)
      × ((process_file_cntr (some ss)).num % 2 ^ 32 ≡ length ss % 2 ^ 32)
unfolding process_file_cntr
process_file_cntr-length ss =
    let zeroed : CounterList = record { num = 0; nodes = [] } in
    (nodes-process_samples_cntr ss zeroed, omega (arith, num-process_samples_cntr ss zeroed))
