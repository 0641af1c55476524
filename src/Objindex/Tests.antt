-- ===== src/Objindex/Tests.antt =====
-- An index of two objects, and the theorems of the object index at that input.
use bucketvcs.Prelude.{
  repeat, ℕ, zero, suc, ◌≡◌, refl, ◌⊎◌, inl, inr, Bool, true, false, List, [], ◌∷◌, ◌++◌, Option,
  none, some, arith, length, Bytes, codes,
}
use bucketvcs.Objindex.{Entry, Map, Result, ok, err, lookup, open_from_bytes, build, encode_record}
use bucketvcs.Objindex.Lookup.{location, build-open-lookup}
use bucketvcs.Objindex.Opened.{FindsFirst, open-FindsFirst}

-- A function with results of the right length.
abbrev no_hash : Bytes → Bytes
no_hash s = repeat 32 0

abbrev pack_a : Bytes
pack_a = repeat 40 b'a'

abbrev pack_b : Bytes
pack_b = repeat 40 b'b'

abbrev oid_1 : Bytes
oid_1 = repeat 20 1

abbrev oid_2 : Bytes
oid_2 = repeat 20 2

abbrev two_entries : List Entry
two_entries =
    record { oid = oid_2; pack_id = pack_a; offset = 300 }
    ∷ record { oid = oid_1; pack_id = pack_b; offset = 12 }
    ∷ []

abbrev index : Map
index = record {
  count = 2;
  records =
      (oid_1 ++ 0 ∷ 1 ∷ 0 ∷ 0 ∷ 0 ∷ 0 ∷ 0 ∷ 0 ∷ 0 ∷ 0 ∷ 0 ∷ 12 ∷ [])
      ∷ (oid_2 ++ 0 ∷ 0 ∷ 0 ∷ 0 ∷ 0 ∷ 0 ∷ 0 ∷ 0 ∷ 0 ∷ 0 ∷ 1 ∷ 44 ∷ [])
      ∷ [];
  pack_table = pack_a ∷ pack_b ∷ [];
}

abbrev index_file : Bytes
index_file =
    codes "BVOM"
    ++ (0 ∷ 0 ∷ 0 ∷ 1 ∷ [])
    ++ (0 ∷ 0 ∷ 0 ∷ 0 ∷ 0 ∷ 0 ∷ 0 ∷ 2 ∷ [])
    ++ (0 ∷ 0 ∷ 0 ∷ 0 ∷ 0 ∷ 0 ∷ 0 ∷ 96 ∷ [])
    ++ repeat 8 0
    ++ oid_1
    ++ (0 ∷ 1 ∷ 0 ∷ 0 ∷ 0 ∷ 0 ∷ 0 ∷ 0 ∷ 0 ∷ 0 ∷ 0 ∷ 12 ∷ [])
    ++ oid_2
    ++ (0 ∷ 0 ∷ 0 ∷ 0 ∷ 0 ∷ 0 ∷ 0 ∷ 0 ∷ 0 ∷ 0 ∷ 1 ∷ 44 ∷ [])
    ++ (0 ∷ 2 ∷ [])
    ++ pack_a
    ++ pack_b
    ++ repeat 32 0

build-two_entries : build no_hash two_entries ≡ ok index_file
unfolding build bucketvcs.Objindex.all_valid bucketvcs.Objindex.valid_pack_id
    bucketvcs.Objindex.all_id_bytes bucketvcs.Prelude.Sort.sort_by bucketvcs.Objindex.packs_of
    bucketvcs.Prelude.Sort.member bucketvcs.Prelude.eqb bucketvcs.Prelude.Sort.insert_by
    bucketvcs.Prelude.lex_lt bucketvcs.Objindex.has_duplicate bucketvcs.Objindex.file_body
    bucketvcs.Objindex.join bucketvcs.Objindex.index_of
build-two_entries = refl

open_two_entries : open_from_bytes no_hash index_file ≡ ok index
unfolding open_from_bytes bucketvcs.Prelude.eqb bucketvcs.Objindex.open_counted
    bucketvcs.Objindex.open_packs bucketvcs.Objindex.all_valid bucketvcs.Objindex.chunks
    bucketvcs.Objindex.valid_pack_id bucketvcs.Objindex.all_id_bytes bucketvcs.Objindex.ascending
    bucketvcs.Prelude.lex_lt bucketvcs.Objindex.indices_fit
open_two_entries = refl

lookup_missing : lookup index (repeat 20 7) ≡ none
unfolding lookup bucketvcs.Objindex.search bucketvcs.Objindex.search_loop bucketvcs.Prelude.lex_lt
lookup_missing = refl

build-open-lookup_example :
    (m : Map) × (open_from_bytes no_hash index_file ≡ ok m)
    × ((oid : Bytes) → lookup m oid ≡ location two_entries oid)
build-open-lookup_example =
    build-open-lookup no_hash two_entries index_file (λ s. refl) (refl, (refl, tt))
      (omega arith, (omega arith, tt)) (omega arith) build-two_entries

open-FindsFirst_example : FindsFirst index oid_2
open-FindsFirst_example = open-FindsFirst no_hash index_file index oid_2 open_two_entries
