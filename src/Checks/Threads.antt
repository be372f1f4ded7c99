-- ===== src/Checks/Threads.antt =====
-- A flow and a counter side of the collector, with two free buffers and one to be written each.
use sflow_toolkit.Base.{ℕ, zero, suc, Option, none, some, [], ◌∷◌, refl, arith}
use sflow_toolkit.Base.Results.{Returns}
use sflow_toolkit.Bufferqueue.{Buffer, granted}
use sflow_toolkit.Stcollectd.{Buffers, Collecting, flush_lists, write_buffers}
use sflow_toolkit.Stcollectd.Rotation.{Owns, BothFlushed, flush_lists-Owns}
use sflow_toolkit.Stcollectd.Written.{BothWritten, write_buffers-Owns}

abbrev buffer : Option ℕ → Option ℕ → Buffer
buffer next prev = record { index = 0; next = next; prev = prev; count = 3; size = 640 }

-- Buffers 1 and 0 are free, 2 is to be written, 3 is current.
abbrev buffers : ℕ → Option Buffer
buffers zero = some (buffer none (some 1))
buffers (suc zero) = some (buffer (some 0) none)
buffers (suc (suc zero)) = some (buffer none none)
buffers (suc (suc (suc zero))) = some (buffer none none)
buffers (suc (suc (suc (suc n)))) = none

abbrev pub side : Buffers
side = record {
  free = record { num = 2; buffersize = 10; itemsize = 64; start = some 1; end = some 0 };
  flush = record { num = 1; buffersize = 10; itemsize = 64; start = some 2; end = some 2 };
  current = 3;
  world = record { buffers = buffers; top = 4 };
}

pub side-Owns : Owns side (1 ∷ 0 ∷ []) (2 ∷ [])
side-Owns = record {
  free = (
    refl,
    omega arith,
    refl,
    refl,
    ((omega arith, tt), (tt, tt)),
    (none, ((buffer (some 0) none, refl, refl, refl), (buffer none (some 1), refl, refl, refl))),
  );
  flush = (refl, omega arith, refl, refl, (tt, tt), (none, (buffer none none, refl, refl, refl)));
  loose = (buffer none none, refl, refl);
  out_free = (omega arith, (omega arith, tt));
  out_flush = (omega arith, tt);
  apart = ((omega arith, tt), ((omega arith, tt), tt));
}

abbrev pub collecting : Collecting
collecting = record { flow = side; cntr = side }

flush_lists-Owns_example :
    Returns
      (BothFlushed collecting 1 (0 ∷ []) (2 ∷ []) 1 (0 ∷ []) (2 ∷ []))
      (flush_lists 2 (granted, []) (granted, []) collecting)
flush_lists-Owns_example =
    flush_lists-Owns 2 granted granted [] [] collecting 1 (0 ∷ []) (2 ∷ []) 1 (0 ∷ []) (2 ∷ [])
      side-Owns side-Owns (omega arith) (omega arith) (omega arith) (omega arith)

write_buffers-Owns_example :
    Returns
      (BothWritten collecting (1 ∷ 0 ∷ []) 2 [] (1 ∷ 0 ∷ []) 2 [])
      (write_buffers [] [] collecting)
write_buffers-Owns_example =
    write_buffers-Owns [] [] collecting (1 ∷ 0 ∷ []) 2 [] (1 ∷ 0 ∷ []) 2 [] side-Owns side-Owns
      (omega arith) (omega arith)
