-- ===== src/Util/Texts.antt =====
-- Texts of the C library: what strcmp and sprintf, with an array that is large enough, return.
use sflow_toolkit.Base.{ℕ, ◌<◌, length, lt→ltb, [], ◌∷◌, ◌≡◌, refl, true, ◌==◌, arith}
use sflow_toolkit.Bytes.{Bytes}
use sflow_toolkit.Base.Results.{ok}
use sflow_toolkit.Util.{same, sprintf}

pub same_refl : (s : Bytes) → same s s ≡ true
same_refl [] = refl
same_refl (c ∷ s) = let eq : (c == c) ≡ true = ground arith in rw (eq, same_refl s) refl

pub sprintf-fits : (size : ℕ) (text : Bytes) → length text < size → sprintf size text ≡ ok text
unfolding sprintf
sprintf-fits size text fits = rw (lt→ltb (length text) size fits) refl
