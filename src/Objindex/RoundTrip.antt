-- ===== src/Objindex/RoundTrip.antt =====
-- What `build` of internal/objindex writes, `openFromBytes` reads.
use bucketvcs.Prelude.{
  ◌+◌, ◌-◌, ◌*◌, ◌/◌, ◌≤◌, ◌≡◌, refl, ap, ◌∙◌, true, false, List, arith, ltb, ◌==◌, length, take,
  drop, Bytes, All, eqb, eqb_iff, take-append_self, drop-append_self,
}
use mathlib.Core.List.{map}
use bucketvcs.Prelude.BigEndian.{from_be, from_be-be_64}
use bucketvcs.Prelude.Sort.{IsSorted}
use bucketvcs.Objindex.{
  Entry, Map, ok, magic, oid_of, encode_record, file_body, has_duplicate, open_packs, open_counted,
  open_from_bytes, max_int32,
}
use bucketvcs.Objindex.Sorted.{IsOid, ascending-encode}
use bucketvcs.Objindex.Table.{Listed, IsPackId, indices_fit-encode, all_valid_iff-All}
use bucketvcs.Objindex.Layout.{
  file, length-file_body, length-file, read_records, read_table, read_table_size,
}

-- The index as it opens.
abbrev pub opened : List Bytes → List Entry → Map
opened table es = record {
  count = length es;
  records = map (encode_record table) es;
  pack_table = table;
}

module _ (table : List Bytes) (es : List Entry) (trailer : Bytes) (sized : length trailer ≡ 32)
    (oids : All IsOid es) (packs : All IsPackId table) (short : length table ≤ 65535)
    (few : length es ≤ 2147483647) (listed : All (Listed table) es) (sorted : IsSorted oid_of es)
    (distinct : has_duplicate es ≡ false) where
  abbrev all : Bytes
  all = file table es trailer oids packs

  size : length all ≡ 32 + length es * 32 + 2 + length table * 40 + 32
  size = length-file table es trailer oids packs ∙ omega arith

  open_packs-file :
      open_packs all (length es) (32 + length es * 32) (length table) ≡ ok (opened table es)
  unfolding open_packs
  open_packs-file =
      let fits : (length all == 32 + length es * 32 + 2 + length table * 40 + 32) ≡ true =
        ground (arith, size) in
      rw
        (
          fits,
          read_table table es trailer oids packs,
          all_valid_iff-All table packs,
          read_records table es trailer oids packs,
          ascending-encode table es oids sorted distinct,
          indices_fit-encode table es oids listed short,
        )
        refl

  open_counted-file : open_counted all (length es) (32 + length es * 32) ≡ ok (opened table es)
  unfolding open_counted
  open_counted-file =
      let a : ltb ((length all - 32 - 32) / 32) (length es) ≡ false = ground (arith, size) in
      let b : ltb max_int32 (length es) ≡ false = ground arith in
      let c : (32 + length es * 32 == 32 + length es * 32) ≡ true = ground arith in
      let d : ltb (length all - 32) (32 + length es * 32 + 2) ≡ false = ground (arith, size) in
      rw (a, b, c, d, read_table_size table es trailer oids packs short) open_packs-file

  count_read : from_be 0 (take 8 (drop 8 all)) ≡ length es
  unfolding file_body
  count_read = from_be-be_64 (length es) (omega arith)

  off_read : from_be 0 (take 8 (drop 16 all)) ≡ 32 + length es * 32
  unfolding file_body
  off_read = from_be-be_64 (32 + length es * 32) (omega arith)

  version_read : from_be 0 (take 4 (drop 4 all)) ≡ 1
  unfolding file_body
  version_read = refl

  magic_read : take 4 all ≡ magic
  unfolding file_body
  magic_read = refl

  split_body : take (length all - 32) all ≡ file_body table es
  split_body =
      let e : length all - 32 ≡ length (file_body table es) =
        omega (arith, size, length-file_body table es trailer oids packs) in
      ap (λ n. take n all) e ∙ take-append_self (file_body table es) trailer

  split_trailer : drop (length all - 32) all ≡ trailer
  split_trailer =
      let e : length all - 32 ≡ length (file_body table es) =
        omega (arith, size, length-file_body table es trailer oids packs) in
      ap (λ n. drop n all) e ∙ drop-append_self (file_body table es) trailer

  -- The file opens if its trailer is the hash of the rest.
  pub open-file :
      (sha256 : Bytes → Bytes)
      → sha256 (file_body table es) ≡ trailer
      → open_from_bytes sha256 all ≡ ok (opened table es)
  unfolding open_from_bytes
  open-file sha256 h =
      let a : ltb (length all) (32 + 32) ≡ false = ground (arith, size) in
      let b : eqb (sha256 (take (length all - 32) all)) (drop (length all - 32) all) ≡ true =
        rw (split_body, split_trailer) ((eqb_iff _ trailer).1 h) in
      let c : eqb (take 4 all) magic ≡ true = (eqb_iff (take 4 all) magic).1 magic_read in
      let d : (from_be 0 (take 4 (drop 4 all)) == 1) ≡ true = ground (arith, version_read) in
      rw (a, b, c, d, count_read, off_read) open_counted-file
