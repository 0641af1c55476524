-- ===== src/Objindex.antt =====
-- internal/objindex: the index from object ids to packs. The records of an open index are kept as the
-- list of their 32-byte slices, and so is its table of packs. SHA-256 is an argument.
pub mod Scan
pub mod Search
pub mod Sorted
pub mod Layout
pub mod Table
pub mod RoundTrip
pub mod Lookup
pub mod Opened
mod Tests
use bucketvcs.Prelude.{
  ℕ, zero, suc, ◌+◌, ◌-◌, ◌*◌, ◌/◌, ◌≡◌, refl, Bool, true, false, not, ◌&&◌, ◌||◌, List, [], ◌∷◌,
  ◌++◌, Option, none, some, ltb, leb, ◌==◌, if◌then◌else◌, length, take, drop, Bytes, codes, eqb,
  lex_lt,
}
use bucketvcs.Prelude.{get_elem?}
use mathlib.Core.List.{map}
use bucketvcs.Prelude.BigEndian.{be, from_be}
use bucketvcs.Prelude.Sort.{member, sort_by, self}

pub data IndexError : Type 0 where
  corrupt bad_pack_id too_many_packs duplicate_oid : IndexError

pub data Result {ℓ} (A : Type ℓ) : Type ℓ where
  ok : A → Result A
  err : IndexError → Result A

-- `Entry`
pub record Entry : Type 0 where
  pub oid : Bytes
  pub pack_id : Bytes
  pub offset : ℕ

-- `Map`
pub record Map : Type 0 where
  pub count : ℕ
  pub records : List Bytes
  pub pack_table : List Bytes

abbrev pub magic : Bytes
magic = codes "BVOM"

abbrev pub max_int32 : ℕ
max_int32 = 2147483647

unfoldable pub all_id_bytes : Bytes → Bool
all_id_bytes [] = true
all_id_bytes (c ∷ s) = (leb b'0' c && leb c b'9' || leb b'a' c && leb c b'f') && all_id_bytes s

-- `validPackID`
unfoldable pub valid_pack_id : Bytes → Bool
valid_pack_id s = length s == 40 && all_id_bytes s

unfoldable pub all_valid : List Bytes → Bool
all_valid [] = true
all_valid (p ∷ ps) = valid_pack_id p && all_valid ps

-- The set of the pack ids.
unfoldable pub packs_of : List Entry → List Bytes
packs_of [] = []
packs_of (e ∷ es) =
    let rest = packs_of es in if member e.pack_id rest then rest else e.pack_id ∷ rest

-- The map from pack ids to their places in the table.
unfoldable pub index_of : Bytes → List Bytes → ℕ
index_of p [] = 0
index_of p (q ∷ qs) = if eqb q p then 0 else suc (index_of p qs)

abbrev pub oid_of : Entry → Bytes
oid_of e = e.oid

abbrev pub pack_id_of : Entry → Bytes
pack_id_of e = e.pack_id

-- Two neighbours with the same id.
unfoldable pub has_duplicate : List Entry → Bool
has_duplicate [] = false
has_duplicate (e ∷ []) = false
has_duplicate (e ∷ d ∷ es) = eqb d.oid e.oid || has_duplicate (d ∷ es)

abbrev pub encode_record : List Bytes → Entry → Bytes
encode_record table e = e.oid ++ (be 2 (index_of e.pack_id table) ++ 0 ∷ 0 ∷ be 8 e.offset)

unfoldable pub join : List Bytes → Bytes
join [] = []
join (s ∷ ss) = s ++ join ss

-- The file up to its trailer.
unfoldable pub file_body : List Bytes → List Entry → Bytes
file_body table entries =
    let count = length entries in
    magic
    ++ (be 4 1
        ++ (be 8 count
            ++ (be 8 (32 + count * 32)
                ++ ((0 ∷ 0 ∷ 0 ∷ 0 ∷ 0 ∷ 0 ∷ 0 ∷ 0 ∷ [])
                    ++ (join (map (encode_record table) entries)
                        ++ (be 2 (length table) ++ join table))))))

-- `n` slices of the given size.
unfoldable pub chunks : ℕ → ℕ → Bytes → List Bytes
chunks zero size s = []
chunks (suc n) size s = take size s ∷ chunks n size (drop size s)

-- `sort.Search`, with fuel for its loop.
unfoldable pub search_loop : ℕ → (ℕ → Bool) → ℕ → ℕ → ℕ
search_loop zero f i j = i
search_loop (suc fuel) f i j = elim (ltb i j) [
  | false ↦ i
  | true ↦ elim (f ((i + j) / 2)) [
    | false ↦ search_loop fuel f ((i + j) / 2 + 1) j
    | true ↦ search_loop fuel f i ((i + j) / 2)
  ]
]

unfoldable pub search : ℕ → (ℕ → Bool) → ℕ
search n f = search_loop n f 0 n

abbrev pub record_oid : Bytes → Bytes
record_oid rec = take 20 rec

-- The id of the i-th record.
abbrev pub oid_at : List Bytes → ℕ → Bytes
oid_at records i = elim (get_elem? records i) [ none ↦ [] | some rec ↦ record_oid rec ]

-- The pack and the offset that a record names.
unfoldable pub read_entry : List Bytes → Bytes → Option (Bytes × ℕ)
read_entry table rec = elim (get_elem? table (from_be 0 (take 2 (drop 20 rec)))) [
  | none ↦ none
  | some p ↦ some (p, from_be 0 (take 8 (drop 24 rec)))
]

-- `Lookup`
unfoldable pub lookup : Map → Bytes → Option (Bytes × ℕ)
lookup m oid =
    let pos = search m.count (λ i. not (lex_lt (oid_at m.records i) oid)) in
    if pos == m.count then none else elim (get_elem? m.records pos) [
      | none ↦ none
      | some rec ↦ if not (eqb (record_oid rec) oid) then none else read_entry m.pack_table rec
    ]

-- The loop that rejects records out of order and duplicates.
unfoldable pub ascending : List Bytes → Bool
ascending [] = true
ascending (r ∷ []) = true
ascending (r ∷ s ∷ rs) = lex_lt (record_oid r) (record_oid s) && ascending (s ∷ rs)

-- The loop over the places in the table of packs.
unfoldable pub indices_fit : ℕ → List Bytes → Bool
indices_fit n [] = true
indices_fit n (r ∷ rs) = ltb (from_be 0 (take 2 (drop 20 r))) n && indices_fit n rs

-- From the count of packs on.
unfoldable pub open_packs : Bytes → ℕ → ℕ → ℕ → Result Map
open_packs all count off n_packs =
    if not (length all == off + 2 + n_packs * 40 + 32)
    then err corrupt
    else let packs = chunks n_packs 40 (drop (off + 2) all) in
      if not (all_valid packs)
      then err corrupt
      else let records = chunks count 32 (drop 32 all) in
        if not (ascending records)
        then err corrupt
        else if not (indices_fit n_packs records)
        then err corrupt
        else ok (record { count = count; records = records; pack_table = packs })

-- From the count of records on. The bounds on the count keep the sums below from wrapping around.
unfoldable pub open_counted : Bytes → ℕ → ℕ → Result Map
open_counted all count off =
    if ltb ((length all - 32 - 32) / 32) count
    then err corrupt
    else if ltb max_int32 count
    then err corrupt
    else if not (off == 32 + count * 32)
    then err corrupt
    else if ltb (length all - 32) (off + 2)
    then err corrupt
    else open_packs all count off (from_be 0 (take 2 (drop off all)))

module _ (sha256 : Bytes → Bytes) where
  -- `openFromBytes`
  unfoldable pub open_from_bytes : Bytes → Result Map
  open_from_bytes all =
      if ltb (length all) (32 + 32)
      then err corrupt
      else if not (eqb (sha256 (take (length all - 32) all)) (drop (length all - 32) all))
      then err corrupt
      else if not (eqb (take 4 all) magic)
      then err corrupt
      else if not (from_be 0 (take 4 (drop 4 all)) == 1)
      then err corrupt
      else open_counted all (from_be 0 (take 8 (drop 8 all))) (from_be 0 (take 8 (drop 16 all)))

  -- `build`
  unfoldable pub build : List Entry → Result Bytes
  build entries =
      let table = sort_by self (packs_of entries) in
      let sorted = sort_by oid_of entries in
      if not (all_valid (map pack_id_of entries))
      then err bad_pack_id
      else if ltb 65535 (length table)
      then err too_many_packs
      else if has_duplicate sorted
      then err duplicate_oid
      else ok (file_body table sorted ++ sha256 (file_body table sorted))
