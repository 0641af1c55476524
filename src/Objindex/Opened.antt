-- ===== src/Objindex/Opened.antt =====
-- `Lookup` of internal/objindex over any file that `openFromBytes` accepts.
use bucketvcs.Prelude.{
  ℕ, zero, suc, ◌+◌, ◌<◌, ◌≡◌, refl, sym, ap, ◌∙◌, ◌⊎◌, inl, inr, true, List, [], ◌∷◌, none, some,
  arith, ltb, length, take, drop, Bytes, eqb, Bool-cases, Option-cases,
}
use bucketvcs.Prelude.{get_elem?}
use bucketvcs.Prelude.BigEndian.{from_be}
use bucketvcs.Prelude.Sort.{find_by}
use bucketvcs.Objindex.{
  Map, ok, read_entry, lookup, ascending, indices_fit, record_oid, chunks, open_packs, open_counted,
  open_from_bytes,
}
use bucketvcs.Objindex.Scan.{ascending-Increasing, scan, get_elem?-some}
use bucketvcs.Objindex.Search.{lookup-eq-scan}

length-chunks : (n size : ℕ) (s : Bytes) → length (chunks n size s) ≡ n
unfolding chunks
length-chunks zero size s = refl
length-chunks (suc n) size s = ap suc (length-chunks n size (drop size s))

-- What the checks on opening leave for the lookups.
abbrev IsOpened : Map → Type 0
IsOpened m =
    (m.count ≡ length m.records)
    × (ascending m.records ≡ true)
    × (indices_fit (length m.pack_table) m.records ≡ true)

open_packs-IsOpened :
    (all : Bytes) (count off n : ℕ) (m : Map) → open_packs all count off n ≡ ok m → IsOpened m
unfolding open_packs
open_packs-IsOpened all count off n m h =
    let packs = chunks n 40 (drop (off + 2) all) in
    let records = chunks count 32 (drop 32 all) in
    let (e, a, i) : (record { count = count; records = records; pack_table = packs } ≡ m)
        × (ascending records ≡ true)
        × (indices_fit n records ≡ true) =
      ground arith in
    let size : length packs ≡ n = length-chunks n 40 (drop (off + 2) all) in
    rw (← e) (sym (length-chunks count 32 (drop 32 all)), a, rw size i)

open_counted-IsOpened :
    (all : Bytes) (count off : ℕ) (m : Map) → open_counted all count off ≡ ok m → IsOpened m
unfolding open_counted
open_counted-IsOpened all count off m h =
    open_packs-IsOpened all count off (from_be 0 (take 2 (drop off all))) m (ground arith)

open-IsOpened :
    (sha256 : Bytes → Bytes) (all : Bytes) (m : Map)
    → open_from_bytes sha256 all ≡ ok m
    → IsOpened m
unfolding open_from_bytes
open-IsOpened sha256 all m h =
    open_counted-IsOpened all (from_be 0 (take 8 (drop 8 all))) (from_be 0 (take 8 (drop 16 all))) m
      (ground arith)

-- A record that a scan meets names a pack of the table.
found_fits :
    (n : ℕ) (oid : Bytes) (rs : List Bytes) (rec : Bytes)
    → indices_fit n rs ≡ true
    → find_by record_oid oid rs ≡ some rec
    → from_be 0 (take 2 (drop 20 rec)) < n
unfolding indices_fit find_by
found_fits n oid [] rec i h = cc
found_fits n oid (r ∷ rs) rec i h = elim (Bool-cases (eqb (record_oid r) oid)) [
  | inr f ↦ found_fits n oid rs rec (ground arith) (ground arith)
  | inl t ↦
      let same : r ≡ rec = ground arith in
      let lt : ltb (from_be 0 (take 2 (drop 20 r))) n ≡ true = ground arith in
      let lt' : ltb (from_be 0 (take 2 (drop 20 rec))) n ≡ true = rw same at lt in ground arith
]

read_entry-at :
    (table : List Bytes) (rec p : Bytes)
    → get_elem? table (from_be 0 (take 2 (drop 20 rec))) ≡ some p
    → read_entry table rec ≡ some (p, from_be 0 (take 8 (drop 24 rec)))
unfolding read_entry
read_entry-at table rec p g = rw (read_entry, g) refl

-- What a lookup gives by the first record with the id: nothing without one, its offset with one.
abbrev pub FindsFirst : Map → Bytes → Type 0
FindsFirst m oid =
    ((find_by record_oid oid m.records ≡ none) × (lookup m oid ≡ none))
    ⊎ ((rec : Bytes) × (p : Bytes) × (find_by record_oid oid m.records ≡ some rec)
        × (get_elem? m.pack_table (from_be 0 (take 2 (drop 20 rec))) ≡ some p)
        × (lookup m oid ≡ some (p, from_be 0 (take 8 (drop 24 rec)))))

-- In every file that opens, whoever wrote it, the binary search finds just what a scan of the records
-- finds: nothing if no record has the id, and otherwise the first record with the id, whose pack is
-- in the table.
pub open-FindsFirst :
    (sha256 : Bytes → Bytes) (all : Bytes) (m : Map) (oid : Bytes)
    → open_from_bytes sha256 all ≡ ok m
    → FindsFirst m oid
unfolding scan
open-FindsFirst sha256 all m oid h =
    let (count, asc, fit) = open-IsOpened sha256 all m h in
    let by_scan : lookup m oid ≡ scan m oid =
      lookup-eq-scan m count (ascending-Increasing m.records asc) oid in
    elim (Option-cases (find_by record_oid oid m.records)) [
      | inl n ↦ inl (n, by_scan ∙ rw (scan, n) refl)
      | inr (rec, f) ↦
          let lt = found_fits (length m.pack_table) oid m.records rec fit f in
          let (p, g) = get_elem?-some m.pack_table (from_be 0 (take 2 (drop 20 rec))) lt in
          inr (rec, p, f, g, by_scan ∙ rw (scan, f) (read_entry-at m.pack_table rec p g))
    ]
