-- ===== src/Statistics/Fields.antt =====
-- The loop of src/statistics.c over the words of /proc/self/stat finds three of them by their place.
use mathlib.Core.List.{append-nil, append_assoc}
use sflow_toolkit.Base.{
  ℕ, ◌+◌, ◌-◌, ◌/◌, ◌%◌, ◌^◌, ◌≤◌, ◌<◌, ◌≡◌, ◌≢◌, refl, sym, ap, ◌∙◌, true, false, List, [], ◌∷◌,
  ◌++◌, ◌==◌, ltb, length, All, arith, lt→ltb,
}
use sflow_toolkit.Base.Results.{ok}
use sflow_toolkit.Bytes.{Bytes}
use sflow_toolkit.Util.{atoi}
use sflow_toolkit.Statistics.{
  Statistics, Usage, tokens, end_word, read_word, read_words, stat_text, read_stat,
}

-- Words that the loop passes over.
Passed : ℕ → Type 0
Passed i = (i ≢ 14) × (i ≢ 15) × (i ≢ 23)

read_word-Passed :
    (i : ℕ) (word : Bytes) (r : Usage × Statistics) → Passed i → read_word i word r ≡ r
unfolding read_word Passed
read_word-Passed i word (u, g) (p, q, s) =
    let a : (i == 14) ≡ false = ground arith in
    let b : (i == 15) ≡ false = ground arith in
    let c : (i == 23) ≡ false = ground arith in rw a (rw b (rw c refl))

read_words-append :
    (i : ℕ) (a words : List Bytes) (r : Usage × Statistics)
    → ((j : ℕ) → i ≤ j → j < i + length a → Passed j)
    → read_words i (a ++ words) r ≡ read_words (i + length a) words r
unfolding read_words
read_words-append i [] words r pass = ap (λ k. read_words k words r) (omega arith)
read_words-append i (word ∷ a) words r pass =
    ap (read_words (i + 1) (a ++ words))
      (read_word-Passed i word r (pass i (omega arith) (omega arith)))
    ∙ read_words-append (i + 1) a words r (λ j low high. pass j (omega arith) (omega arith))
    ∙ ap (λ k. read_words k words r) (omega arith)

-- Words with a space between them.
abbrev pub spaced : Bytes → List Bytes → Bytes
spaced word [] = word
spaced word (next ∷ words) = word ++ (b' ' ∷ spaced next words)

-- A word: some bytes, none of them a space.
pub record IsWord (word : Bytes) : Type 0 where
  pub solid : All (λ c. c ≢ b' ') word
  pub some_byte : 0 < length word

tokens-word :
    (before : ℕ) (done word s : Bytes)
    → All (λ c. c ≢ b' ') word
    → tokens (before ∷ done) (word ++ s) ≡ tokens (before ∷ (done ++ word)) s
unfolding tokens
tokens-word before done [] s all = ap (λ w. tokens (before ∷ w) s) (sym (append-nil done))
tokens-word before done (c ∷ word) s (ne, all) =
    let solid : (c == 32) ≡ false = ground arith in
    rw (solid, tokens)
      (tokens-word before (done ++ (c ∷ [])) word s all
        ∙ ap (λ w. tokens (before ∷ w) s) (append_assoc done (c ∷ []) word))

tokens-first :
    (word s : Bytes)
    → IsWord word
    → (c : ℕ) × (w : Bytes) × (word ≡ c ∷ w) × (tokens [] (word ++ s) ≡ tokens (c ∷ w) s)
unfolding tokens
tokens-first [] s is = absurd (omega (arith, is.some_byte))
tokens-first (c ∷ w) s is =
    let solid : (c == 32) ≡ false = ground (arith, is.solid.0) in
    (c, w, refl, rw (solid, tokens) (tokens-word c [] w s is.solid.1))

tokens-spaced :
    (word : Bytes) (words : List Bytes)
    → IsWord word
    → All IsWord words
    → tokens [] (spaced word words) ≡ word ∷ words
unfolding tokens end_word
tokens-spaced word [] is all =
    let (c, w, e, run) = tokens-first word [] is in
    ap (tokens []) (sym (append-nil word)) ∙ run ∙ ap (λ v. v ∷ []) (sym e)
tokens-spaced word (next ∷ words) is (is', all) =
    let (c, w, e, run) = tokens-first word (b' ' ∷ spaced next words) is in
    run
    ∙ ap (λ v. (c ∷ w) ∷ v) (tokens-spaced next words is' all)
    ∙ ap (λ v. v ∷ next ∷ words) (sym e)

-- The words of /proc/self/stat up to the 23rd and those behind it.
abbrev pub stat_words : List Bytes → Bytes → Bytes → List Bytes → Bytes → List Bytes → List Bytes
stat_words before utime stime between vsize behind =
    before ++ (utime ∷ stime ∷ (between ++ (vsize ∷ behind)))

read_words-stat :
    (before : List Bytes) (utime stime : Bytes) (between : List Bytes) (vsize : Bytes)
    (behind : List Bytes) (g : Statistics)
    → length before ≡ 13
    → length between ≡ 7
    → read_words 1
        (stat_words before utime stime between vsize behind)
        (record { utime = 0; stime = 0; vmem = 0 }, g)
      ≡ (
        record {
          utime = (atoi utime + 2 ^ 32 - g.utime_prev) % 2 ^ 32;
          stime = (atoi stime + 2 ^ 32 - g.stime_prev) % 2 ^ 32;
          vmem = atoi vsize;
        },
        record g { utime_prev = atoi utime; stime_prev = atoi stime },
      )
unfolding read_words read_word Passed
read_words-stat before utime stime between vsize behind g thirteen seven =
    let after = utime ∷ stime ∷ (between ++ (vsize ∷ behind)) in
    let fourteenth : 1 + length before ≡ 14 = omega (arith, thirteen) in
    let last_word : 16 + length between ≡ 23 = omega (arith, seven) in
    let r : Usage × Statistics = (record { utime = 0; stime = 0; vmem = 0 }, g) in
    let r₂ : Usage × Statistics = (
      record {
        utime = (atoi utime + 2 ^ 32 - g.utime_prev) % 2 ^ 32;
        stime = (atoi stime + 2 ^ 32 - g.stime_prev) % 2 ^ 32;
        vmem = 0;
      },
      record g { utime_prev = atoi utime; stime_prev = atoi stime },
    ) in
    let r₃ : Usage × Statistics = (record r₂.0 { vmem = atoi vsize }, r₂.1) in
    read_words-append 1 before after r
      (λ j low high. (λ e. omega arith, λ e. omega arith, λ e. omega arith))
    ∙ ap (λ k. read_words k after r) fourteenth
    ∙ read_words-append 16 between (vsize ∷ behind) r₂
        (λ j low high. (λ e. omega arith, λ e. omega arith, λ e. omega arith))
    ∙ ap (λ k. read_words k (vsize ∷ behind) r₂) last_word
    ∙ ap (λ ws. read_words 24 ws r₃) (sym (append-nil behind))
    ∙ read_words-append 24 behind [] r₃
        (λ j low high. (λ e. omega arith, λ e. omega arith, λ e. omega arith))

-- A text of words with spaces between them, as /proc/self/stat is, in fewer than 1024 bytes: what is
-- read of it is the numbers of its words 14 and 15, less those of the reading before and modulo
-- 2^32, and that of the word 23 in units of 1024, whatever the other words are; the numbers of 14
-- and 15 are kept for the next reading.
pub read_stat-spaced :
    (first : Bytes) (before : List Bytes) (utime stime : Bytes) (between : List Bytes)
    (vsize : Bytes) (behind : List Bytes) (g : Statistics)
    → length before ≡ 12
    → length between ≡ 7
    → IsWord first
    → All IsWord (stat_words before utime stime between vsize behind)
    → length (spaced first (stat_words before utime stime between vsize behind)) < 1024
    → read_stat (spaced first (stat_words before utime stime between vsize behind)) g
      ≡ ok (
        record {
          utime = (atoi utime + 2 ^ 32 - g.utime_prev) % 2 ^ 32;
          stime = (atoi stime + 2 ^ 32 - g.stime_prev) % 2 ^ 32;
          vmem = atoi vsize / 2 ^ 10;
        },
        record g { utime_prev = atoi utime; stime_prev = atoi stime },
      )
unfolding read_stat stat_text
read_stat-spaced first before utime stime between vsize behind g twelve seven is all short =
    let words = stat_words before utime stime between vsize behind in
    let held : ltb (length (spaced first words)) 1024 ≡ true = lt→ltb _ 1024 short in
    rw held (
      rw (tokens-spaced first words is all) (
        rw
          (read_words-stat (first ∷ before) utime stime between vsize behind g
            (omega (arith, twelve)) seven)
          refl))
