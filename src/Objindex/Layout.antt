-- ===== src/Objindex/Layout.antt =====
-- Where the parts of a file of internal/objindex stand: what `build` writes and `openFromBytes` slices.
use bucketvcs.Prelude.{
  take-append_at, ℕ, suc, ◌+◌, ◌*◌, ◌≤◌, ◌≡◌, refl, sym, ap, ◌∙◌, List, [], ◌∷◌, ◌++◌, arith,
  length, take, drop, Bytes, All, length-append, append_assoc,
}
use mathlib.Core.List.{map}
use bucketvcs.Prelude.BigEndian.{be, from_be, from_be-be_16}
use bucketvcs.Objindex.{Entry, encode_record, join, chunks, file_body, index_of}
use bucketvcs.Objindex.Sorted.{IsOid}
use bucketvcs.Objindex.Table.{drop-append_at, drop-add, IsPackId, IsPackId-length}

abbrev pub Sized : ℕ → Bytes → Type 0
Sized n s = length s ≡ n

pub length-join : (n : ℕ) (ss : List Bytes) → All (Sized n) ss → length (join ss) ≡ length ss * n
unfolding join
length-join n [] a = omega arith
length-join n (s ∷ ss) (e, a) = length-append s (join ss) ∙ grind (arith, length-join n ss a)

pub chunks-join :
    (n : ℕ) (ss : List Bytes) (rest : Bytes)
    → All (Sized n) ss
    → chunks (length ss) n (join ss ++ rest) ≡ ss
unfolding chunks join
chunks-join n [] rest a = refl
chunks-join n (s ∷ ss) rest (e, a) =
    rw
      (
        append_assoc s (join ss) rest,
        take-append_at n s (join ss ++ rest) e,
        drop-append_at n s (join ss ++ rest) e,
        chunks-join n ss rest a,
      )
      refl

pub length-encode : (table : List Bytes) (e : Entry) → IsOid e → length (encode_record table e) ≡ 32
length-encode table e h =
    length-append e.oid (be 2 (index_of e.pack_id table) ++ 0 ∷ 0 ∷ be 8 e.offset) ∙ omega arith

pub records-Sized :
    (table : List Bytes) (es : List Entry)
    → All IsOid es
    → All (Sized 32) (map (encode_record table) es)
records-Sized table [] a = tt
records-Sized table (e ∷ es) (h, a) = (length-encode table e h, records-Sized table es a)

pub table-Sized : (table : List Bytes) → All IsPackId table → All (Sized 40) table
table-Sized [] a = tt
table-Sized (p ∷ ps) (v, a) = (IsPackId-length p v, table-Sized ps a)

pub length-map {ℓ κ} :
    {A : Type ℓ} {B : Type κ} (f : A → B) (xs : List A) → length (map f xs) ≡ length xs
length-map f [] = refl
length-map f (x ∷ xs) = ap suc (length-map f xs)

module _ (table : List Bytes) (es : List Entry) (trailer : Bytes) (oids : All IsOid es)
    (packs : All IsPackId table) where
  abbrev records_part : Bytes
  records_part = join (map (encode_record table) es)

  abbrev tail_part : Bytes
  tail_part = be 2 (length table) ++ (join table ++ trailer)

  abbrev pub file : Bytes
  file = file_body table es ++ trailer

  length-records_part : length records_part ≡ length es * 32
  length-records_part =
      length-join 32 (map (encode_record table) es) (records-Sized table es oids)
      ∙ ap (λ n. n * 32) (length-map (encode_record table) es)

  pub after_header : drop 32 file ≡ records_part ++ tail_part
  unfolding file_body
  after_header = append_assoc records_part (be 2 (length table) ++ join table) trailer

  pub length-file_body : length (file_body table es) ≡ 32 + length es * 32 + 2 + length table * 40
  unfolding file_body
  length-file_body = omega (
    arith,
    length-append records_part (be 2 (length table) ++ join table),
    length-records_part,
    length-join 40 table (table-Sized table packs),
  )

  pub length-file : length file ≡ 32 + length es * 32 + 2 + length table * 40 + length trailer
  length-file = omega (arith, length-append (file_body table es) trailer, length-file_body)

  pub at_table : drop (32 + length es * 32) file ≡ tail_part
  at_table =
      drop-add 32 (length es * 32) file
      ∙ ap (drop (length es * 32)) after_header
      ∙ drop-append_at (length es * 32) records_part tail_part length-records_part

  pub read_records : chunks (length es) 32 (drop 32 file) ≡ map (encode_record table) es
  read_records =
      ap (chunks (length es) 32) after_header
      ∙ ap (λ n. chunks n 32 (records_part ++ tail_part))
          (sym (length-map (encode_record table) es))
      ∙ chunks-join 32 (map (encode_record table) es) tail_part (records-Sized table es oids)

  pub read_table : chunks (length table) 40 (drop (32 + length es * 32 + 2) file) ≡ table
  read_table =
      ap (chunks (length table) 40) (drop-add (32 + length es * 32) 2 file ∙ ap (drop 2) at_table)
      ∙ chunks-join 40 table trailer (table-Sized table packs)

  pub read_table_size :
      length table ≤ 65535 → from_be 0 (take 2 (drop (32 + length es * 32) file)) ≡ length table
  read_table_size short = ap (λ s. from_be 0 (take 2 s)) at_table ∙ from_be-be_16 _ (omega arith)
