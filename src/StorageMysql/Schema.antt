-- ===== src/StorageMysql/Schema.antt =====
-- The tables of src/storage_mysql.c are there before records are loaded into them.
use mathlib.Core.List.{append-nil, append_assoc}
use sflow_toolkit.Base.{
  ℕ, ◌+◌, ◌*◌, ◌/◌, ◌<◌, ◌≤◌, ◌≡◌, refl, ap, ◌∙◌, sym, Bool, List, [], ◌∷◌, ◌++◌, ltb,
  if◌then◌else◌, length, length-append, arith, Bool-cases, inl, inr,
}
use sflow_toolkit.Base.Results.{ok, and_then}
use sflow_toolkit.Bytes.{Bytes}
use sflow_toolkit.Util.{codes}
use sflow_toolkit.Util.Texts.{sprintf-fits}
use sflow_toolkit.Configparser.Settings.{MysqlConfig}
use sflow_toolkit.StorageMysql.{
  TableKind, Query, Table, Mysql, table_of, set_table, prefix, query_size, columns, index,
  create_text, drop_text, mysql_query, divide, title, create_missing, drop_expired, create_table,
  minute_time, expired_time, ensure_table,
}

-- Names of tables have at most 20 bytes.
unfoldable pub IsMysql : Mysql → Type 0
IsMysql s = (kind : TableKind) → length (table_of kind s).name ≤ 20

length-prefix : (kind : TableKind) → length (prefix kind) ≤ 14
length-prefix TableKind.conv_ethernet = omega arith
length-prefix TableKind.conv_ip = omega arith
length-prefix TableKind.conv_tcp = omega arith
length-prefix TableKind.conv_udp = omega arith
length-prefix TableKind.counters = omega arith

length-between :
    (a n c p i : Bytes)
    → length (a ++ (n ++ (c ++ (n ++ (p ++ (n ++ i))))))
      ≡ length a + length n * 3 + length c + length p + length i
length-between a n c p i = omega (
  arith,
  length-append a (n ++ (c ++ (n ++ (p ++ (n ++ i))))),
  length-append n (c ++ (n ++ (p ++ (n ++ i)))),
  length-append c (n ++ (p ++ (n ++ i))),
  length-append n (p ++ (n ++ i)),
  length-append p (n ++ i),
  length-append n i,
)

length-columns :
    (kind : TableKind) → length (columns kind) + length (index kind) + 105 < query_size kind
length-columns TableKind.conv_ethernet = omega arith
length-columns TableKind.conv_ip = omega arith
length-columns TableKind.conv_tcp = omega arith
length-columns TableKind.conv_udp = omega arith
length-columns TableKind.counters = omega arith

-- The texts that create a table fit into their arrays, also with a name of 20 bytes.
length-create_text :
    (kind : TableKind) (name : Bytes)
    → length name ≤ 20
    → length (create_text kind name) < query_size kind
unfolding create_text
length-create_text kind name short = omega (
  arith,
  length-columns kind,
  length-between (codes "CREATE TABLE ") name (columns kind)
      (codes "_pk PRIMARY KEY (id), INDEX idx_") (index kind),
)

length-drop_text :
    (kind : TableKind) (name : Bytes) → length name ≤ 20 → length (drop_text name) < query_size kind
unfolding drop_text
length-drop_text kind name short =
    omega (arith, length-columns kind, length-append (codes "DROP TABLE ") name)

IsMysql-set_table :
    (kind : TableKind) (t : Table) (s : Mysql)
    → length t.name ≤ 20
    → IsMysql s
    → IsMysql (set_table kind t s)
unfolding IsMysql
IsMysql-set_table TableKind.conv_ethernet t s short is TableKind.conv_ethernet = short
IsMysql-set_table TableKind.conv_ip t s short is TableKind.conv_ip = short
IsMysql-set_table TableKind.conv_tcp t s short is TableKind.conv_tcp = short
IsMysql-set_table TableKind.conv_udp t s short is TableKind.conv_udp = short
IsMysql-set_table TableKind.counters t s short is TableKind.counters = short
IsMysql-set_table kind t s short is other = is other

table_of-set_table :
    (kind : TableKind) (t : Table) (s : Mysql) → table_of kind (set_table kind t s) ≡ t
table_of-set_table TableKind.conv_ethernet t s = refl
table_of-set_table TableKind.conv_ip t s = refl
table_of-set_table TableKind.conv_tcp t s = refl
table_of-set_table TableKind.conv_udp t s = refl
table_of-set_table TableKind.counters t s = refl

table_of-sent :
    (kind : TableKind) (s : Mysql) (qs : List Query)
    → table_of kind (record s { sent = qs }) ≡ table_of kind s
table_of-sent TableKind.conv_ethernet s qs = refl
table_of-sent TableKind.conv_ip s qs = refl
table_of-sent TableKind.conv_tcp s qs = refl
table_of-sent TableKind.conv_udp s qs = refl
table_of-sent TableKind.counters s qs = refl

pub IsMysql-sent : (s : Mysql) (qs : List Query) → IsMysql s → IsMysql (record s { sent = qs })
unfolding IsMysql
IsMysql-sent s qs is kind = rw (table_of-sent kind s qs) (is kind)

-- The statements of two steps, with the setting of a table between them.
set_table-sent :
    (kind : TableKind) (t : Table) (s : Mysql) (qs rs : List Query)
    → (let s' = set_table kind t (record s { sent = s.sent ++ qs }) in
        record s' { sent = s'.sent ++ rs })
      ≡ record (set_table kind t s) { sent = s.sent ++ (qs ++ rs) }
set_table-sent TableKind.conv_ethernet t s qs rs =
    ap (λ q. record (set_table TableKind.conv_ethernet t s) { sent = q })
      (append_assoc s.sent qs rs)
set_table-sent kind t s qs rs =
    ap (λ q. record (set_table kind t s) { sent = q }) (append_assoc s.sent qs rs)

-- `strftime` writes a day with six digits.
unfoldable pub IsDay : (ℕ → Bytes) → Type 0
IsDay day = (time : ℕ) → length (day time) ≡ 6

module _ (day : ℕ → Bytes) (exists : List Query → Bytes → Bool) (cfg : MysqlConfig) where
  length-title :
      IsDay day → (kind : TableKind) (time : ℕ) → length (title day exists cfg kind time) ≤ 20
  unfolding IsDay title
  length-title six kind time =
      omega (arith, six time, length-prefix kind, length-append (prefix kind) (day time))

  -- The table of a minute.
  abbrev pub table_at : TableKind → ℕ → Table
  table_at kind timestamp = record {
    number = timestamp / cfg.interval;
    name = title day exists cfg kind (minute_time timestamp);
  }

  -- The statements that make a table, if it is not there, and drop the expired one.
  abbrev pub made : TableKind → ℕ → Mysql → List Query
  made kind timestamp s =
      if exists s.sent (table_at kind timestamp).name
      then []
      else record { text = create_text kind (table_at kind timestamp).name; file = [] } ∷ []

  abbrev pub dropped : TableKind → ℕ → List Query
  dropped kind timestamp =
      record {
        text = drop_text (title day exists cfg kind (expired_time cfg timestamp));
        file = [];
      }
      ∷ []

  module _ (six : IsDay day) (positive : 0 < cfg.interval) where
    divide-interval : (n : ℕ) → divide n cfg.interval ≡ ok (n / cfg.interval)
    unfolding divide
    divide-interval n = ground arith

    create_missing-made :
        (kind : TableKind) (timestamp : ℕ) (s : Mysql)
        → create_missing day exists cfg kind (table_at kind timestamp).name s
          ≡ ok (record s { sent = s.sent ++ made kind timestamp s })
    unfolding create_missing mysql_query
    create_missing-made kind timestamp s =
        let name = (table_at kind timestamp).name in
        elim (Bool-cases (exists s.sent name)) [
          | inl there ↦ rw there (ap (λ qs. ok (record s { sent = qs })) (sym (append-nil s.sent)))
          | inr absent ↦ rw absent (
              rw
                (
                  sprintf-fits (query_size kind) (create_text kind name) (
                      length-create_text kind name (length-title six kind (minute_time timestamp))),
                  and_then,
                )
                refl)
        ]

    drop_expired-dropped :
        (kind : TableKind) (timestamp : ℕ) (s : Mysql)
        → drop_expired day exists cfg kind timestamp s
          ≡ ok (record s { sent = s.sent ++ dropped kind timestamp })
    unfolding drop_expired mysql_query
    drop_expired-dropped kind timestamp s =
        let name = title day exists cfg kind (expired_time cfg timestamp) in
        rw
          (
            sprintf-fits (query_size kind) (drop_text name)
                (length-drop_text kind name (length-title six kind (expired_time cfg timestamp))),
            and_then,
          )
          refl

    -- What `create_table` leaves.
    abbrev pub after_create : TableKind → ℕ → Mysql → Mysql
    after_create kind timestamp s = record (set_table kind (table_at kind timestamp) s) {
      sent = s.sent ++ (made kind timestamp s ++ dropped kind timestamp);
    }

    create_table-after :
        (kind : TableKind) (timestamp : ℕ) (s : Mysql)
        → create_table day exists cfg kind timestamp s ≡ ok (after_create kind timestamp s)
    unfolding create_table
    create_table-after kind timestamp s =
        let s₁ = record s { sent = s.sent ++ made kind timestamp s } in
        rw (create_missing-made kind timestamp s, and_then)
          (rw (divide-interval timestamp, and_then)
            (drop_expired-dropped kind timestamp (set_table kind (table_at kind timestamp) s₁)
              ∙ ap ok (
                  set_table-sent kind (table_at kind timestamp) s (made kind timestamp s)
                    (dropped kind timestamp))))

    ensured :
        (kind : TableKind) (timestamp : ℕ) (s : Mysql)
        → ensure_table day exists cfg kind timestamp s ≡ (
            if ltb (table_of kind s).number (timestamp / cfg.interval)
            then create_table day exists cfg kind timestamp s
            else ok s)
    unfolding ensure_table
    ensured kind timestamp s =
        ap
          (λ r. and_then r (λ number.
            if ltb (table_of kind s).number number
            then create_table day exists cfg kind timestamp s
            else ok s))
          (divide-interval timestamp)

    -- The state behind `ensure_table`: the table of the record's interval is there.
    pub record Ensured (kind : TableKind) (timestamp : ℕ) (s s' : Mysql) : Type 0 where
      pub table : table_of kind s' ≡ (
          if ltb (table_of kind s).number (timestamp / cfg.interval)
          then table_at kind timestamp
          else table_of kind s)
      pub sent : s'.sent ≡ (
          if ltb (table_of kind s).number (timestamp / cfg.interval)
          then s.sent ++ (made kind timestamp s ++ dropped kind timestamp)
          else s.sent)
      pub names : IsMysql s'

    pub ensure_table-Ensured :
        (kind : TableKind) (timestamp : ℕ) (s : Mysql)
        → IsMysql s
        → (s' : Mysql) × (ensure_table day exists cfg kind timestamp s ≡ ok s')
          × Ensured kind timestamp s s'
    unfolding IsMysql
    ensure_table-Ensured kind timestamp s is =
        elim (Bool-cases (ltb (table_of kind s).number (timestamp / cfg.interval))) [
          | inl late ↦ (
            after_create kind timestamp s,
            ensured kind timestamp s
                ∙ ap (λ b. if b then create_table day exists cfg kind timestamp s else ok s) late
                ∙ create_table-after kind timestamp s,
            record {
              table = rw late (
                  table_of-sent kind (set_table kind (table_at kind timestamp) s) _
                  ∙ table_of-set_table kind (table_at kind timestamp) s);
              sent = rw late refl;
              names = IsMysql-sent (set_table kind (table_at kind timestamp) s) _ (
                  IsMysql-set_table kind (table_at kind timestamp) s
                    (length-title six kind (minute_time timestamp)) is);
            },
          )
          | inr early ↦ (
            s,
            ensured kind timestamp s
                ∙ ap (λ b. if b then create_table day exists cfg kind timestamp s else ok s) early,
            record { table = rw early refl; sent = rw early refl; names = is },
          )
        ]
