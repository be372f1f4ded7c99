-- ===== src/StorageMysql/Conversations/Loaded.antt =====
-- What the server reads from the temporary files of src/storage_mysql.c.
use mathlib.Core.List.{append-nil, append_assoc}
use sflow_toolkit.Base.{
  ℕ, zero, suc, ◌<◌, ◌≡◌, ◌≢◌, refl, ap, ◌∙◌, sym, true, false, some, none, List, [], ◌∷◌, ◌++◌,
  ◌==◌, length, arith, All, Option-cases, inl, inr,
}
use sflow_toolkit.Bytes.{Bytes}
use sflow_toolkit.Dataparser.Table.{ConvTable}
use sflow_toolkit.StorageMysql.Conversations.{line, write_nodes, write_bucket, write_buckets}

-- `FIELDS TERMINATED BY '|' LINES TERMINATED BY '\n'`: the fields of each line, read behind the
-- fields and the part of a field that were read before.
abbrev pub read_lines : List Bytes → Bytes → Bytes → List (List Bytes)
read_lines fields field [] = []
read_lines fields field (c ∷ s) = elim (c == 10) [
  | true ↦ (fields ++ (field ∷ [])) ∷ read_lines [] [] s
  | false ↦ elim (c == b'|') [
    | true ↦ read_lines (fields ++ (field ∷ [])) [] s
    | false ↦ read_lines fields (field ++ (c ∷ [])) s
  ]
]

abbrev pub IsFieldByte : ℕ → Type 0
IsFieldByte c = (c ≢ 10) × (c ≢ b'|')

abbrev pub IsField : Bytes → Type 0
IsField = All IsFieldByte

read_lines-field :
    (fields : List Bytes) (done field s : Bytes)
    → IsField field
    → read_lines fields done (field ++ s) ≡ read_lines fields (done ++ field) s
read_lines-field fields done [] s all = ap (λ f. read_lines fields f s) (sym (append-nil done))
read_lines-field fields done (c ∷ field) s ((newline, bar), all) =
    let solid : (c == 10) ≡ false = ground arith in
    let inner : (c == b'|') ≡ false = ground arith in
    rw (solid, read_lines)
      (rw inner (
        read_lines-field fields (done ++ (c ∷ [])) field s all
        ∙ ap (λ f. read_lines fields f s) (append_assoc done (c ∷ []) field)))

-- A line with at least one field.
read_lines-line :
    (before : List Bytes) (field : Bytes) (fields : List Bytes) (s : Bytes)
    → All IsField (field ∷ fields)
    → read_lines before [] (line (field ∷ fields) ++ s)
      ≡ (before ++ (field ∷ fields)) ∷ read_lines [] [] s
unfolding line
read_lines-line before field [] s (clean, all) =
    ap (read_lines before []) (append_assoc field (10 ∷ []) s)
    ∙ read_lines-field before [] field (10 ∷ s) clean
read_lines-line before field (next ∷ fields) s (clean, all) =
    ap (read_lines before []) (append_assoc field (b'|' ∷ line (next ∷ fields)) s)
    ∙ read_lines-field before [] field (b'|' ∷ (line (next ∷ fields) ++ s)) clean
    ∙ read_lines-line (before ++ (field ∷ [])) next fields s all
    ∙ ap (λ b. b ∷ read_lines [] [] s) (append_assoc before (field ∷ []) (next ∷ fields))

-- The conversations of the buckets from `i` on, `n` of them.
abbrev pub conversations : {K V : Type 0} → ℕ → ℕ → ConvTable K V → List (K × V)
conversations zero i t = []
conversations (suc n) i t = elim (t i) [ none ↦ [] | some l ↦ l.nodes ] ++ conversations n (suc i) t

-- The fields of a conversation are some, and can be told apart.
pub record AreFields (fields : List Bytes) : Type 0 where
  pub clean : All IsField fields
  pub some_field : 0 < length fields

module _ {K V : Type 0} (fields : K → V → List Bytes)
    (are : (k : K) (c : V) → AreFields (fields k c)) where
  abbrev pub rows : List (K × V) → List (List Bytes)
  rows [] = []
  rows ((k, c) ∷ ns) = fields k c ∷ rows ns

  lines : List (K × V) → Bytes
  lines [] = []
  lines ((k, c) ∷ ns) = line (fields k c) ++ lines ns

  write_nodes-lines :
      (ns : List (K × V)) (file : Bytes) → write_nodes fields ns file ≡ file ++ lines ns
  unfolding write_nodes lines
  write_nodes-lines [] file = sym (append-nil file)
  write_nodes-lines ((k, c) ∷ ns) file =
      write_nodes-lines ns (file ++ line (fields k c))
      ∙ append_assoc file (line (fields k c)) (lines ns)

  lines-append : (ns ms : List (K × V)) → lines (ns ++ ms) ≡ lines ns ++ lines ms
  unfolding lines
  lines-append [] ms = refl
  lines-append ((k, c) ∷ ns) ms =
      ap (λ t. line (fields k c) ++ t) (lines-append ns ms)
      ∙ sym (append_assoc (line (fields k c)) (lines ns) (lines ms))

  read_lines-row :
      (fs : List Bytes) (s : Bytes)
      → AreFields fs
      → read_lines [] [] (line fs ++ s) ≡ fs ∷ read_lines [] [] s
  read_lines-row [] s is = absurd (omega (arith, is.some_field))
  read_lines-row (f ∷ fs) s is = read_lines-line [] f fs s is.clean

  read_lines-lines : (ns : List (K × V)) → read_lines [] [] (lines ns) ≡ rows ns
  unfolding lines
  read_lines-lines [] = refl
  read_lines-lines ((k, c) ∷ ns) =
      read_lines-row (fields k c) (lines ns) (are k c)
      ∙ ap (λ r. fields k c ∷ r) (read_lines-lines ns)

  write_buckets-lines :
      (n i : ℕ) (t : ConvTable K V) (file : Bytes)
      → write_buckets fields n i t file ≡ file ++ lines (conversations n i t)
  unfolding write_buckets write_bucket lines
  write_buckets-lines zero i t file = sym (append-nil file)
  write_buckets-lines (suc n) i t file = elim (Option-cases (t i)) [
    | inl e ↦ rw (e, write_bucket) (write_buckets-lines n (suc i) t file)
    | inr (l, e) ↦
        rw (e, write_bucket)
          (write_buckets-lines n (suc i) t (write_nodes fields l.nodes file)
            ∙ ap (λ f. f ++ lines (conversations n (suc i) t)) (write_nodes-lines l.nodes file)
            ∙ append_assoc file (lines l.nodes) (lines (conversations n (suc i) t))
            ∙ ap (λ ls. file ++ ls) (sym (lines-append l.nodes (conversations n (suc i) t))))
  ]

  -- The server reads back the fields of every conversation in the buckets below `n`, bucket after bucket.
  pub read_lines-write_buckets :
      (n : ℕ) (t : ConvTable K V)
      → read_lines [] [] (write_buckets fields n 0 t []) ≡ rows (conversations n 0 t)
  read_lines-write_buckets n t =
      ap (read_lines [] []) (write_buckets-lines n 0 t []) ∙ read_lines-lines (conversations n 0 t)
