-- ===== src/Statistics/Databases.antt =====
-- The databases of src/statistics.c are made before they are updated.
use sflow_toolkit.Base.{
  ℕ, ◌+◌, ◌≤◌, ◌≡◌, refl, sym, ap, ◌∙◌, Option, List, [], ◌∷◌, ◌++◌, ◌==◌, Bool, true, false,
  if◌then◌else◌, length, length-append, arith, All,
}
use sflow_toolkit.Base.Results.{Result, ok, and_then, Returns, returns, >>=-eq_ok}
use sflow_toolkit.Bytes.{Bytes}
use sflow_toolkit.Util.{atoi, codes, c_string}
use sflow_toolkit.Util.Texts.{sprintf-fits}
use sflow_toolkit.Statistics.{
  cpu, Statistics, Usage, Totals, Update, read_word, read_words, tokens, read_stat, stat_text,
  stats_update_stcollectd,
}
use sflow_toolkit.Statistics.Init.{createparams, stcollectd_sources, stats_init_stcollectd}

-- What the reading of the times leaves as it is.
module _ {A : Type 0} (f : Statistics → A)
    (utime : (g : Statistics) (x : ℕ) → f (record g { utime_prev = x }) ≡ f g)
    (stime : (g : Statistics) (x : ℕ) → f (record g { stime_prev = x }) ≡ f g) where
  if-field :
      (b : Bool) (r s : Usage × Statistics) (a : A)
      → f r.1 ≡ a
      → f s.1 ≡ a
      → f (if b then r else s).1 ≡ a
  if-field true r s a left right = left
  if-field false r s a left right = right

  read_word-field :
      (i : ℕ) (word : Bytes) (r : Usage × Statistics) → f (read_word i word r).1 ≡ f r.1
  unfolding read_word
  read_word-field i word r =
      if-field (i == 14) _ _ _ (utime r.1 (atoi word))
        (if-field (i == 15) _ _ _ (stime r.1 (atoi word)) (if-field (i == 23) _ _ _ refl refl))

  read_words-field :
      (i : ℕ) (words : List Bytes) (r : Usage × Statistics) → f (read_words i words r).1 ≡ f r.1
  unfolding read_words
  read_words-field i [] r = refl
  read_words-field i (word ∷ words) r =
      read_words-field (i + 1) words (read_word i word r) ∙ read_word-field i word r

  pub read_stat-field :
      (file : Bytes) (g g' : Statistics) (u : Usage) → read_stat file g ≡ ok (u, g') → f g' ≡ f g
  unfolding read_stat
  read_stat-field file g g' u returned =
      let (text, read, end) = >>=-eq_ok (stat_text file) _ returned in
      let r = read_words 1 (tokens [] text) (record { utime = 0; stime = 0; vmem = 0 }, g) in
      let same : r.1 ≡ g' = cc in
      ap f (sym same)
      ∙ read_words-field 1 (tokens [] text) (record { utime = 0; stime = 0; vmem = 0 }, g)

-- An update goes to the database that the collector was started with.
update-file :
    (seconds now agents : ℕ) (t : Totals) (file : Bytes) (g g' : Statistics) (us : List Update)
    → stats_update_stcollectd seconds now agents t file g ≡ ok (us, g')
    → All (λ u. u.file ≡ g.stcollectd_file) us
unfolding stats_update_stcollectd
update-file seconds now agents t file g g' us returned =
    let ((u, h), read, end) = >>=-eq_ok (read_stat file g) _ returned in
    let kept =
      read_stat-field (λ s. s.stcollectd_file) (λ s x. refl) (λ s x. refl) file g h u read in
    go (seconds == 0) _ h end λ us' g'' run.
      let (load, loaded, made) = >>=-eq_ok (cpu u g.hz seconds) _ run in
      single _ us' h g'' made kept
  where
    single :
        (u : Update) (us' : List Update) (h g'' : Statistics)
        → ◌≡◌ {A = Result (List Update × Statistics)} (ok (u ∷ [], h)) (ok (us', g''))
        → u.file ≡ g.stcollectd_file
        → All (λ u. u.file ≡ g.stcollectd_file) us'
    single u us' h g'' e same = let one : us' ≡ u ∷ [] = cc in rw one (same, tt)

    go :
        (b : Bool) (m : Result (List Update × Statistics)) (h : Statistics)
        → (if b then ok ([], h) else m) ≡ ok (us, g')
        → ((us' : List Update) (g'' : Statistics)
            → m ≡ ok (us', g'')
            → All (λ u. u.file ≡ g.stcollectd_file) us')
        → All (λ u. u.file ≡ g.stcollectd_file) us
    go true m h e k = let empty : us ≡ [] = cc in rw empty tt
    go false m h e k = k us g' e

module _ (exists : Bytes → Bool) (ticks : Option ℕ) (datadir dir : Bytes) where
  database : Bytes
  database = dir ++ codes "/statistics_stcollectd.rrd"

  abbrev IsMade : List (List Bytes) × Statistics → Type 0
  IsMade (calls, g) =
      (calls ≡ createparams database stcollectd_sources ∷ [])
      × ((seconds now agents : ℕ) (t : Totals) (file : Bytes) (us : List Update) (g' : Statistics)
          → stats_update_stcollectd seconds now agents t file g ≡ ok (us, g')
          → All (λ u. u.file ≡ database) us)

  -- A database that cannot be opened is made, if the name of its directory has at most 220 bytes, and
  -- the updates that follow go to it.
  stats_init_stcollectd-IsMade :
      (g : Statistics)
      → c_string datadir ≡ ok dir
      → length dir ≤ 220
      → exists database ≡ false
      → Returns IsMade (stats_init_stcollectd exists ticks datadir g)
  unfolding stats_init_stcollectd database
  stats_init_stcollectd-IsMade g text short missing =
      let file =
        sprintf-fits 256 database
          (omega (arith, length-append dir (codes "/statistics_stcollectd.rrd"))) in
      let realtime =
        sprintf-fits 256 (dir ++ codes "/statistics_stcollectd_realtime")
          (omega (arith, length-append dir (codes "/statistics_stcollectd_realtime"))) in
      rw (text, and_then)
        (rw (file, and_then)
          (rw (realtime, and_then)
            (rw missing (
              returns (
                refl,
                λ seconds now agents t stat us g' returned.
                    update-file seconds now agents t stat _ g' us returned,
              )))))
