-- ===== src/Checks/Usage.antt =====
-- A text as /proc/self/stat has it, of 24 words.
use sflow_toolkit.Base.{
  ℕ, zero, suc, ◌+◌, ◌-◌, ◌/◌, ◌%◌, ◌^◌, ◌≡◌, refl, List, [], ◌∷◌, ◌++◌, replicate, All, arith,
}
use sflow_toolkit.Base.Results.{ok}
use sflow_toolkit.Bytes.{Bytes}
use sflow_toolkit.Util.{codes, atoi}
use sflow_toolkit.Statistics.{Statistics, read_stat}
use sflow_toolkit.Statistics.Fields.{IsWord, spaced, stat_words, read_stat-spaced}

abbrev zero_word : Bytes
zero_word = codes "0"

zero_word-IsWord : IsWord zero_word
zero_word-IsWord = record { solid = ((λ e. omega arith), tt); some_byte = omega arith }

abbrev before : List Bytes
before = replicate 12 zero_word

abbrev between : List Bytes
between = replicate 7 zero_word

abbrev utime : Bytes
utime = codes "150"

abbrev vsize : Bytes
vsize = codes "4096"

abbrev statistics : Statistics
statistics = record {
  utime_prev = 100;
  stime_prev = 0;
  hz = 100;
  stcollectd_file = [];
  stprocessd_file = [];
  stcollectd_realtime_file = [];
}

utime-IsWord : IsWord utime
utime-IsWord = record {
  solid = (λ e. omega arith, (λ e. omega arith, (λ e. omega arith, tt)));
  some_byte = omega arith;
}

vsize-IsWord : IsWord vsize
vsize-IsWord = record {
  solid = (λ e. omega arith, (λ e. omega arith, (λ e. omega arith, (λ e. omega arith, tt))));
  some_byte = omega arith;
}

zeros-All :
    (n : ℕ) (words : List Bytes) → All IsWord words → All IsWord (replicate n zero_word ++ words)
zeros-All zero words all = all
zeros-All (suc n) words all = (zero_word-IsWord, zeros-All n words all)

words-All : All IsWord (stat_words before utime zero_word between vsize (zero_word ∷ []))
words-All =
    let late : List Bytes = vsize ∷ zero_word ∷ [] in
    let early : List Bytes = utime ∷ zero_word ∷ (between ++ late) in
    zeros-All 12 early
      (utime-IsWord, (zero_word-IsWord, zeros-All 7 late (vsize-IsWord, (zero_word-IsWord, tt))))

read_stat-spaced_example :
    read_stat
      (spaced zero_word (stat_words before utime zero_word between vsize (zero_word ∷ [])))
      statistics
    ≡ ok (
      record {
        utime = (atoi utime + 2 ^ 32 - 100) % 2 ^ 32;
        stime = (atoi zero_word + 2 ^ 32 - 0) % 2 ^ 32;
        vmem = atoi vsize / 2 ^ 10;
      },
      record statistics { utime_prev = atoi utime; stime_prev = atoi zero_word },
    )
read_stat-spaced_example =
    read_stat-spaced zero_word before utime zero_word between vsize (zero_word ∷ []) statistics refl
      refl zero_word-IsWord words-All (omega arith)
