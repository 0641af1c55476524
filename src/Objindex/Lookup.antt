-- ===== src/Objindex/Lookup.antt =====
-- What `Lookup` of internal/objindex finds in a file that `build` wrote.
use bucketvcs.Prelude.{
  ℕ, ◌≤◌, ◌<◌, ◌≡◌, refl, sym, ◌∙◌, inl, inr, true, false, List, [], ◌∷◌, ◌++◌, Option, none, some,
  arith, ltb, length, Bytes, All, eqb, Bool-cases, Option-cases,
}
use mathlib.Core.List.{map}
use mathlib.Core.Path.{subst}
use bucketvcs.Prelude.Sort.{IsSorted, sort_by, sort_by-IsSorted, self, find_by, find_by-sort_by}
use bucketvcs.Objindex.{
  Entry, Map, ok, oid_of, pack_id_of, encode_record, file_body, lookup, all_valid, packs_of,
  has_duplicate, open_from_bytes, build,
}
use bucketvcs.Objindex.Scan.{ascending-Increasing, scan}
use bucketvcs.Objindex.Search.{lookup-eq-scan}
use bucketvcs.Objindex.Sorted.{IsOid, ascending-encode, find_by-encode}
use bucketvcs.Objindex.Table.{Listed, read_entry-encode, table-Listed, table-IsPackId}
use bucketvcs.Objindex.Layout.{length-map}
use bucketvcs.Prelude.Sort.{sort_by-All, length-sort_by}
use bucketvcs.Objindex.RoundTrip.{opened, open-file}

-- An offset is a uint64.
abbrev pub HasOffset : Entry → Type 0
HasOffset e = e.offset < 18446744073709551616

find_by-All :
    (P : Entry → Type 0) (oid : Bytes) (es : List Entry) (e : Entry)
    → All P es
    → find_by oid_of oid es ≡ some e
    → P e
unfolding find_by
find_by-All P oid [] e a h = cc
find_by-All P oid (d ∷ es) e (p, a) h = elim (Bool-cases (eqb (oid_of d) oid)) [
  | inl t ↦ subst P (ground arith) p
  | inr f ↦ find_by-All P oid es e a (ground arith)
]

-- The pack and the offset of the entry with the id.
unfoldable pub location : List Entry → Bytes → Option (Bytes × ℕ)
location entries oid = elim (find_by oid_of oid entries) [
  | none ↦ none
  | some e ↦ some (e.pack_id, e.offset)
]

abbrev table_of : List Entry → List Bytes
table_of entries = sort_by self (packs_of entries)

abbrev sorted_of : List Entry → List Entry
sorted_of entries = sort_by oid_of entries

module _ (sha256 : Bytes → Bytes) (entries : List Entry) (bytes : Bytes) where
  abbrev content : Bytes
  content = file_body (table_of entries) (sorted_of entries)

  build-ok :
      build sha256 entries ≡ ok bytes
      → (all_valid (map pack_id_of entries) ≡ true)
        × (ltb 65535 (length (table_of entries)) ≡ false)
        × (has_duplicate (sorted_of entries) ≡ false)
        × (content ++ sha256 content ≡ bytes)
  unfolding build
  build-ok h = ground arith

module _ (table : List Bytes) (es : List Entry) (oids : All IsOid es) (short : length table ≤ 65535)
    (listed : All (Listed table) es) (offsets : All HasOffset es) (sorted : IsSorted oid_of es)
    (distinct : has_duplicate es ≡ false) where
  scan-encode : (oid : Bytes) → scan (opened table es) oid ≡ location es oid
  unfolding scan location
  scan-encode oid =
      rw (scan, find_by-encode table es oid oids)
        (elim (Option-cases (find_by oid_of oid es)) [
          | inl n ↦ rw (location, n) refl
          | inr (e, h) ↦
              rw (location, h)
                (read_entry-encode table e (find_by-All IsOid oid es e oids h)
                  (find_by-All (Listed table) oid es e listed h) short
                  (find_by-All HasOffset oid es e offsets h))
        ])

  lookup-encode : (oid : Bytes) → lookup (opened table es) oid ≡ location es oid
  lookup-encode oid =
      lookup-eq-scan (opened table es) (sym (length-map (encode_record table) es))
        (ascending-Increasing (map (encode_record table) es)
          (ascending-encode table es oids sorted distinct))
        oid
      ∙ scan-encode oid

-- A file that `build` writes opens, and a lookup in it gives the pack and the offset of the entry
-- with the id, and nothing for an id that no entry has.
pub build-open-lookup :
    (sha256 : Bytes → Bytes) (entries : List Entry) (bytes : Bytes)
    → ((s : Bytes) → length (sha256 s) ≡ 32)
    → All IsOid entries
    → All HasOffset entries
    → length entries ≤ 2147483647
    → build sha256 entries ≡ ok bytes
    → (m : Map) × (open_from_bytes sha256 bytes ≡ ok m)
      × ((oid : Bytes) → lookup m oid ≡ location entries oid)
unfolding location
build-open-lookup sha256 entries bytes sized oids offsets few h =
    let (valid, short, distinct, e) = build-ok sha256 entries bytes h in
    let table = table_of entries in
    let es = sorted_of entries in
    let sorted_oids = sort_by-All oid_of IsOid entries oids in
    let listed = sort_by-All oid_of (Listed table) entries (table-Listed entries) in
    let sorted = sort_by-IsSorted oid_of entries in
    let small : length table ≤ 65535 = ground arith in
    (
      opened table es,
      rw (← e) (
          open-file table es (sha256 (file_body table es)) (sized _) sorted_oids
            (table-IsPackId entries valid) small (omega (arith, length-sort_by oid_of entries))
            listed sorted distinct sha256 refl),
      (λ oid.
          lookup-encode table es sorted_oids small listed
            (sort_by-All oid_of HasOffset entries offsets) sorted distinct oid
          ∙ rw (location, find_by-sort_by oid_of oid entries) refl),
    )
