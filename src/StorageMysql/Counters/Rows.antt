-- ===== src/StorageMysql/Counters/Rows.antt =====
-- The rows of the statements in src/storage_mysql.c: how long they are, and how they are ended.
use mathlib.Core.List.{append_assoc}
use sflow_toolkit.Base.{
  ℕ, ◌+◌, ◌*◌, ◌%◌, ◌^◌, ◌≤◌, ◌≡◌, refl, ap, ◌∙◌, sym, List, [], ◌∷◌, ◌++◌, length, length-append,
  arith, All,
}
use sflow_toolkit.Base.Results.{ok, and_then}
use sflow_toolkit.Bytes.{Bytes}
use sflow_toolkit.Util.{codes, print_u, print_llu}
use sflow_toolkit.Util.Addresses.{length-print_decimal}
use sflow_toolkit.Parser.Samples.{CntrSample}
use sflow_toolkit.StorageMysql.Counters.{
  insert_head, insert_columns, row_fields, with_commas, row_text, blank_last,
}

IsShort : Bytes → Type 0
IsShort field = length field ≤ 20

length-with_commas :
    (fields : List Bytes) → All IsShort fields → length (with_commas fields) ≤ 22 * length fields
unfolding with_commas IsShort
length-with_commas [] all = omega arith
length-with_commas (field ∷ []) (short, all) = omega arith
length-with_commas (field ∷ next ∷ fields) (short, all) = omega (
  arith,
  length-with_commas (next ∷ fields) all,
  length-append field (b',' ∷ b' ' ∷ with_commas (next ∷ fields)),
)

print_u-IsShort : (v : ℕ) → IsShort (print_u v [])
unfolding print_u IsShort
print_u-IsShort v = omega (arith, length-print_decimal 10 v [])

print_llu-IsShort : (v : ℕ) → IsShort (print_llu v [])
unfolding print_llu IsShort
print_llu-IsShort v = omega (arith, length-print_decimal 20 v [])

quoted-IsShort : (v : ℕ) → IsShort (39 ∷ print_u v (39 ∷ []))
unfolding print_u IsShort
quoted-IsShort v = omega (arith, length-print_decimal 10 v (39 ∷ []))

pub length-row_text : (s : CntrSample) → length (row_text s) ≤ 464
unfolding row_text row_fields
length-row_text s =
    let g = s.generic in
    omega (
      arith,
      length-append (with_commas (row_fields s)) (b')' ∷ []),
      length-with_commas (row_fields s) (
        print_u-IsShort (s.timestamp % 2 ^ 32),
        (
          quoted-IsShort s.agent_address,
          (
            print_u-IsShort g.if_index,
            (
              print_u-IsShort g.if_type,
              (
                print_llu-IsShort g.if_speed,
                (
                  print_u-IsShort g.if_direction,
                  (
                    print_u-IsShort g.if_status,
                    (
                      print_llu-IsShort g.in_octets,
                      (
                        print_u-IsShort g.in_ucast_pkts,
                        (
                          print_u-IsShort g.in_mcast_pkts,
                          (
                            print_u-IsShort g.in_bcast_pkts,
                            (
                              print_u-IsShort g.in_discards,
                              (
                                print_u-IsShort g.in_errors,
                                (
                                  print_u-IsShort g.in_unknown_proto,
                                  (
                                    print_llu-IsShort g.out_octets,
                                    (
                                      print_u-IsShort g.out_ucast_pkts,
                                      (
                                        print_u-IsShort g.out_mcast_pkts,
                                        (
                                          print_u-IsShort g.out_bcast_pkts,
                                          (
                                            print_u-IsShort g.out_discards,
                                            (
                                              print_u-IsShort g.out_errors,
                                              (print_u-IsShort g.promisc, tt),
                                            ),
                                          ),
                                        ),
                                      ),
                                    ),
                                  ),
                                ),
                              ),
                            ),
                          ),
                        ),
                      ),
                    ),
                  ),
                ),
              ),
            ),
          ),
        ),
      ),
    )

pub length-insert_head : (name : Bytes) → length (insert_head name) ≤ length name + 400
unfolding insert_head insert_columns
length-insert_head name =
    omega (arith, length-append name (codes " (" ++ (insert_columns ++ (b' ' ∷ []))))

-- The rows in the array, each with a comma behind it.
abbrev pub rows : List CntrSample → Bytes
rows [] = []
rows (s ∷ ss) = row_text s ++ (b',' ∷ rows ss)

-- The rows of a statement: commas stand between them, and a space at the end.
abbrev pub value_list : List CntrSample → Bytes
value_list [] = []
value_list (s ∷ []) = row_text s ++ (b' ' ∷ [])
value_list (s ∷ t ∷ ss) = row_text s ++ (b',' ∷ value_list (t ∷ ss))

pub rows-append :
    (ss : List CntrSample) (s : CntrSample)
    → rows (ss ++ (s ∷ [])) ≡ rows ss ++ (row_text s ++ (b',' ∷ []))
rows-append [] s = refl
rows-append (t ∷ ss) s =
    ap (λ r. row_text t ++ (b',' ∷ r)) (rows-append ss s)
    ∙ sym (append_assoc (row_text t) (b',' ∷ rows ss) (row_text s ++ (b',' ∷ [])))

pub length-rows : (ss : List CntrSample) → length (rows ss) ≤ 465 * length ss
length-rows [] = omega arith
length-rows (s ∷ ss) =
    omega (arith, length-row_text s, length-rows ss, length-append (row_text s) (b',' ∷ rows ss))

blank_last-append :
    (a : Bytes) (c : ℕ) (s t : Bytes)
    → blank_last (c ∷ s) ≡ ok t
    → blank_last (a ++ (c ∷ s)) ≡ ok (a ++ t)
unfolding blank_last
blank_last-append [] c s t e = e
blank_last-append (x ∷ []) c s t e = rw (e, and_then) refl
blank_last-append (x ∷ y ∷ a) c s t e = rw (blank_last-append (y ∷ a) c s t e, and_then) refl

blank_last-rows :
    (c : ℕ) (s : CntrSample) (ss : List CntrSample)
    → blank_last (c ∷ rows (s ∷ ss)) ≡ ok (c ∷ value_list (s ∷ ss))
unfolding blank_last
blank_last-rows c s [] = blank_last-append (c ∷ row_text s) b',' [] (b' ' ∷ []) refl
blank_last-rows c s (t ∷ ss) =
    blank_last-append (c ∷ row_text s) b',' (rows (t ∷ ss)) (b',' ∷ value_list (t ∷ ss))
      (blank_last-rows b',' t ss)

-- The text in front of the last space of `insert_head`.
abbrev pub stem : Bytes → Bytes
stem name = codes "INSERT INTO " ++ (name ++ (codes " (" ++ insert_columns))

append-between :
    (a b c d r : Bytes) (x : ℕ)
    → (a ++ (b ++ (c ++ (d ++ (x ∷ []))))) ++ r ≡ (a ++ (b ++ (c ++ d))) ++ (x ∷ r)
append-between a b c d r x = simp append_assoc refl

insert_head-stem : (name r : Bytes) → insert_head name ++ r ≡ stem name ++ (b' ' ∷ r)
unfolding insert_head
insert_head-stem name r =
    append-between (codes "INSERT INTO ") name (codes " (") insert_columns r b' '

-- The array with the last comma blanked, or with the space that it ends with when it has no row.
pub blank_last-query :
    (name : Bytes) (ss : List CntrSample)
    → blank_last (insert_head name ++ rows ss) ≡ ok (stem name ++ (b' ' ∷ value_list ss))
unfolding blank_last
blank_last-query name [] =
    ap blank_last (insert_head-stem name [])
    ∙ blank_last-append (stem name) b' ' [] (b' ' ∷ []) refl
blank_last-query name (s ∷ ss) =
    ap blank_last (insert_head-stem name (rows (s ∷ ss)))
    ∙ blank_last-append (stem name) b' ' (rows (s ∷ ss)) (b' ' ∷ value_list (s ∷ ss))
        (blank_last-rows b' ' s ss)
