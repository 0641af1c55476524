-- ===== src/Objindex/Sorted.antt =====
-- The records that `build` of internal/objindex writes are in strictly ascending order.
use bucketvcs.Prelude.{
  take-append_at, ◌≡◌, refl, inl, inr, true, false, List, [], ◌∷◌, none, some, arith, length, Bytes,
  eqb_iff, lex_lt, lex_lt-connected, Bool-cases, All,
}
use mathlib.Core.List.{map}
use bucketvcs.Prelude.Sort.{IsSorted, find_by}
use bucketvcs.Objindex.{Entry, oid_of, encode_record, record_oid, ascending, has_duplicate}

-- The ids are 20 bytes long.
abbrev pub IsOid : Entry → Type 0
IsOid e = length e.oid ≡ 20

pub record_oid-encode :
    (table : List Bytes) (e : Entry) → IsOid e → record_oid (encode_record table e) ≡ e.oid
record_oid-encode table e h = take-append_at 20 e.oid _ h

pub ascending-encode :
    (table : List Bytes) (es : List Entry)
    → All IsOid es
    → IsSorted oid_of es
    → has_duplicate es ≡ false
    → ascending (map (encode_record table) es) ≡ true
unfolding ascending has_duplicate
ascending-encode table [] oids s d = refl
ascending-encode table (e ∷ []) oids s d = refl
ascending-encode table (e ∷ f ∷ es) (oe, (of, oids)) (le, s) d =
    let rest = ascending-encode table (f ∷ es) (of, oids) s (ground arith) in
    let below : lex_lt e.oid f.oid ≡ true = elim (Bool-cases (lex_lt e.oid f.oid)) [
      | inl t ↦ t
      | inr n ↦
          let same : f.oid ≡ e.oid = lex_lt-connected f.oid e.oid le n in
          absurd (ground (arith, (eqb_iff f.oid e.oid).1 same))
    ] in
    rw (record_oid-encode table e oe, record_oid-encode table f of, below) rest

-- A scan of the written records finds the record of the entry that a scan of the entries finds.
pub find_by-encode :
    (table : List Bytes) (es : List Entry) (oid : Bytes)
    → All IsOid es
    → find_by record_oid oid (map (encode_record table) es)
      ≡ elim (find_by oid_of oid es) [ none ↦ none | some e ↦ some (encode_record table e) ]
unfolding find_by
find_by-encode table [] oid oids = refl
find_by-encode table (e ∷ es) oid (oe, oids) =
    rw (record_oid-encode table e oe) (ground (arith, find_by-encode table es oid oids))
