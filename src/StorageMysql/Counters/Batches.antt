-- ===== src/StorageMysql/Counters/Batches.antt =====
-- The statements that storage_mysql_store_cntr of src/storage_mysql.c sends.
use mathlib.Core.Bool.{false≢true}
use mathlib.Core.List.{append-nil, append_assoc}
use mathlib.Core.Path.{subst}
use sflow_toolkit.Base.{
  ℕ, ◌+◌, ◌%◌, ◌^◌, ◌<◌, ◌≤◌, ◌≡◌, ◌≢◌, refl, ap, ◌∙◌, sym, true, false, Bool, List, [], ◌∷◌, ◌++◌,
  ◌==◌, length, length-append, arith, Bool-cases, inl, inr, eq→==, ==→eq,
}
use sflow_toolkit.Base.Results.{ok, Result, and_then}
use sflow_toolkit.Bytes.{Bytes}
use sflow_toolkit.Configparser.Settings.{MysqlConfig}
use sflow_toolkit.Parser.Samples.{CntrSample}
use sflow_toolkit.Dataparser.Process.{CounterList}
use sflow_toolkit.StorageMysql.{TableKind, Query, Mysql, table_of, mysql_query, ensure_table}
use sflow_toolkit.Util.{sprintf}
use sflow_toolkit.Util.Texts.{sprintf-fits}
use sflow_toolkit.StorageMysql.Schema.{IsMysql, IsDay, ensure_table-Ensured}
use sflow_toolkit.StorageMysql.Counters.Rows.{
  rows, value_list, stem, rows-append, length-rows, length-insert_head, blank_last-query,
}
use sflow_toolkit.StorageMysql.Counters.{
  bulk_size, insert_head, row_text, Insert, send_query, send_full, insert_row, insert_rows,
  insert_all, store_cntr,
}

-- Samples in their order, in lists of 500 and a last one that is shorter, and may be empty.
pub data IsBatched : List (List CntrSample) → List CntrSample → Type 0 where
  last_batch : {ss : List CntrSample} → length ss < 500 → IsBatched (ss ∷ []) ss
  full_batch :
      {b : List CntrSample} {bs : List (List CntrSample)} {ss : List CntrSample}
      → length b ≡ 500
      → IsBatched bs ss
      → IsBatched (b ∷ bs) (b ++ ss)

-- The statement that inserts a batch.
abbrev pub insert_query : Bytes → List CntrSample → Query
insert_query name b = record { text = stem name ++ (b' ' ∷ value_list b); file = [] }

abbrev pub insert_queries : Bytes → List (List CntrSample) → List Query
insert_queries name [] = []
insert_queries name (b ∷ bs) = insert_query name b ∷ insert_queries name bs

module _ (name : Bytes) (short : length name ≤ 20) where
  -- The array with the rows of `cur`.
  abbrev filled : List CntrSample → ℕ → Mysql → Insert
  filled cur cnt s = record { query = insert_head name ++ rows cur; cnt = cnt; server = s }

  sent_behind : Mysql → List CntrSample → Mysql
  sent_behind s b = record s { sent = s.sent ++ (insert_query name b ∷ []) }

  head-fits : sprintf bulk_size (insert_head name) ≡ ok (insert_head name)
  head-fits = sprintf-fits bulk_size (insert_head name) (omega (arith, length-insert_head name))

  send_query-rows :
      (b : List CntrSample) (s : Mysql)
      → send_query (insert_head name ++ rows b) s ≡ ok (sent_behind s b)
  unfolding send_query sent_behind mysql_query
  send_query-rows b s = rw (blank_last-query name b, and_then) refl

  row-fits :
      (cur : List CntrSample) (x : CntrSample)
      → length cur < 500
      → sprintf bulk_size ((insert_head name ++ rows cur) ++ (row_text x ++ (b',' ∷ [])))
        ≡ ok (insert_head name ++ rows (cur ++ (x ∷ [])))
  row-fits cur x room =
      let text : Bytes = insert_head name ++ rows (cur ++ (x ∷ [])) in
      let same_text : (insert_head name ++ rows cur) ++ (row_text x ++ (b',' ∷ [])) ≡ text =
        append_assoc (insert_head name) (rows cur) (row_text x ++ (b',' ∷ []))
        ∙ ap (λ r. insert_head name ++ r) (sym (rows-append cur x)) in
      ap (sprintf bulk_size) same_text
      ∙ sprintf-fits bulk_size text (
          omega (
            arith,
            length-insert_head name,
            length-rows (cur ++ (x ∷ [])),
            length-append cur (x ∷ []),
            length-append (insert_head name) (rows (cur ++ (x ∷ []))),
          ))

  insert_row-kept :
      (cur : List CntrSample) (x : CntrSample) (cnt : ℕ) (s : Mysql)
      → length cur < 500
      → cnt + 1 < 2 ^ 32
      → (cnt + 1) % 500 ≢ 0
      → insert_row name x (filled cur cnt s) ≡ ok (filled (cur ++ (x ∷ [])) (cnt + 1) s)
  unfolding insert_row
  insert_row-kept cur x cnt s room small more =
      let wrapped : (cnt + 1) % 2 ^ 32 ≡ cnt + 1 = omega arith in
      let inside : ((cnt + 1) % 500 == 0) ≡ false = ground arith in
      rw (row-fits cur x room, and_then) (rw wrapped (rw inside refl))

  insert_row-full :
      (cur : List CntrSample) (x : CntrSample) (cnt : ℕ) (s : Mysql)
      → length cur < 500
      → cnt + 1 < 2 ^ 32
      → (cnt + 1) % 500 ≡ 0
      → insert_row name x (filled cur cnt s)
        ≡ ok (filled [] (cnt + 1) (sent_behind s (cur ++ (x ∷ []))))
  unfolding insert_row send_full
  insert_row-full cur x cnt s room small full =
      let wrapped : (cnt + 1) % 2 ^ 32 ≡ cnt + 1 = omega arith in
      let at_end : ((cnt + 1) % 500 == 0) ≡ true = ground arith in
      rw (row-fits cur x room, and_then)
        (rw wrapped (
          rw at_end (
            rw (send_query-rows (cur ++ (x ∷ [])) s, and_then)
              (rw (head-fits, and_then)
                (ap
                  (λ q.
                    ok (record {
                      query = q;
                      cnt = cnt + 1;
                      server = sent_behind s (cur ++ (x ∷ []));
                    }))
                  (sym (append-nil (insert_head name))))))))

  -- The batches of the rows in the array and of the samples to come.
  insert_rows-Batched :
      (xs cur : List CntrSample) (cnt : ℕ) (s : Mysql)
      → length cur < 500
      → cnt % 500 ≡ length cur
      → cnt + length xs < 2 ^ 32
      → (bs : List (List CntrSample)) × IsBatched bs (cur ++ xs)
        × (and_then (insert_rows name xs (filled cur cnt s)) (λ i. send_query i.query i.server)
            ≡ ok (record s { sent = s.sent ++ insert_queries name bs }))
  unfolding insert_rows sent_behind
  insert_rows-Batched [] cur cnt s room rest small = (
    cur ∷ [],
    subst (λ ys. IsBatched (cur ∷ []) ys) (sym (append-nil cur)) (last_batch room),
    send_query-rows cur s,
  )
  insert_rows-Batched (x ∷ xs) cur cnt s room rest small =
      elim (Bool-cases ((cnt + 1) % 500 == 0)) [
        | inl full ↦
            let (bs, is, run) =
              insert_rows-Batched xs [] (cnt + 1) (sent_behind s (cur ++ (x ∷ []))) (omega arith)
                (==→eq _ 0 full) (omega arith) in
            (
              (cur ++ (x ∷ [])) ∷ bs,
              subst (λ ys. IsBatched ((cur ++ (x ∷ [])) ∷ bs) ys) (append_assoc cur (x ∷ []) xs)
                  (full_batch (omega (arith, length-append cur (x ∷ []), ==→eq _ 0 full)) is),
              rw (insert_row-full cur x cnt s room (omega arith) (==→eq _ 0 full), and_then)
                  (run
                    ∙ ap (λ qs. ok (record s { sent = qs }))
                        (append_assoc s.sent (insert_query name (cur ++ (x ∷ [])) ∷ [])
                          (insert_queries name bs))),
            )
        | inr inside ↦
            let more : (cnt + 1) % 500 ≢ 0 = λ e. false≢true (sym inside ∙ eq→== _ 0 e) in
            let (bs, is, run) =
              insert_rows-Batched xs (cur ++ (x ∷ [])) (cnt + 1) s
                (omega (arith, length-append cur (x ∷ [])))
                (omega (arith, length-append cur (x ∷ []))) (omega arith) in
            (
              bs,
              subst (IsBatched bs) (append_assoc cur (x ∷ []) xs) is,
              rw (insert_row-kept cur x cnt s room (omega arith) more, and_then) run,
            )
      ]

  insert_all-Batched :
      (xs : List CntrSample) (s : Mysql)
      → length xs < 2 ^ 32
      → (bs : List (List CntrSample)) × IsBatched bs xs
        × (insert_all name xs s ≡ ok (record s { sent = s.sent ++ insert_queries name bs }))
  unfolding insert_all
  insert_all-Batched xs s small =
      let (bs, is, run) = insert_rows-Batched xs [] 0 s (omega arith) (omega arith) (omega arith) in
      let start : Bytes → Result Mysql = λ head.
        and_then (insert_rows name xs (record { query = head; cnt = 0; server = s }))
          (λ i. send_query i.query i.server) in
      (
        bs,
        is,
        ap (λ r. and_then r start) head-fits ∙ ap start (sym (append-nil (insert_head name))) ∙ run,
      )

module _ (day : ℕ → Bytes) (exists : List Query → Bytes → Bool) (cfg : MysqlConfig)
    (six : IsDay day) (positive : 0 < cfg.interval) where
  -- What is sent for counter samples, behind what makes sure of the table of their interval, is one
  -- statement for each full batch of 500 samples, in their order, and one for the samples that are
  -- left, also when none is left; a statement lists the rows of its batch with commas between them,
  -- and none runs over the array that it is put together in. Conditions: fewer than 2^32 samples,
  -- the interval is not 0, a day is printed as six digits.
  pub store_cntr-Batched :
      (l : CounterList) (timestamp : ℕ) (s : Mysql)
      → IsMysql s
      → length l.nodes < 2 ^ 32
      → (before : Mysql) × (s' : Mysql) × (bs : List (List CntrSample)) × (ensure_table day exists
            cfg TableKind.counters timestamp s
          ≡ ok before)
        × IsBatched bs l.nodes
        × (store_cntr day exists cfg l timestamp s ≡ ok s')
        × (s'.sent ≡ before.sent ++ insert_queries (table_of TableKind.counters before).name bs)
  unfolding store_cntr IsMysql
  store_cntr-Batched l timestamp s is small =
      let (before, run, ensured) =
        ensure_table-Ensured day exists cfg six positive TableKind.counters timestamp s is in
      let (bs, batched, sent) =
        insert_all-Batched (table_of TableKind.counters before).name
          (ensured.names TableKind.counters) l.nodes before small in
      (
        before,
        record before {
          sent = before.sent ++ insert_queries (table_of TableKind.counters before).name bs;
        },
        bs,
        run,
        batched,
        rw (run, and_then) sent,
        refl,
      )
