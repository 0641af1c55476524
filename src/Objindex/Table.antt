-- ===== src/Objindex/Table.antt =====
-- The table of packs of internal/objindex, and what a record says of it.
use bucketvcs.Prelude.{
  ℕ, zero, suc, ◌+◌, ◌≤◌, ◌<◌, ◌≡◌, refl, sym, ap, ◌∙◌, inl, inr, true, ◌||◌, List, [], ◌∷◌, ◌++◌,
  some, arith, ltb, length, take, drop, Bytes, eqb, eqb_iff, Bool-cases, All, drop-append_self,
}
use bucketvcs.Prelude.{get_elem?}
use mathlib.Core.List.{map}
use bucketvcs.Prelude.BigEndian.{be, from_be, from_be-be_16, from_be-be_64}
use bucketvcs.Prelude.Sort.{member, member-sort, sort_by, sort_by-All, self}
use bucketvcs.Objindex.{
  Entry, pack_id_of, encode_record, read_entry, indices_fit, index_of, packs_of, valid_pack_id,
  all_valid,
}
use bucketvcs.Objindex.Sorted.{IsOid}

index_of-get :
    (p : Bytes) (table : List Bytes)
    → member p table ≡ true
    → (get_elem? table (index_of p table) ≡ some p) × (index_of p table < length table)
unfolding member index_of
index_of-get p [] m = cc
index_of-get p (q ∷ qs) m = elim (Bool-cases (eqb q p)) [
  | inl t ↦ rw t (ap some ((eqb_iff q p).0 t), omega arith)
  | inr f ↦ let (g, lt) = index_of-get p qs (ground arith) in rw f (g, omega arith)
]

drop-nil {ℓ} : {A : Type ℓ} (n : ℕ) → drop {A = A} n [] ≡ []
drop-nil zero = refl
drop-nil (suc n) = refl

pub drop-add {ℓ} : {A : Type ℓ} (m n : ℕ) (xs : List A) → drop (m + n) xs ≡ drop n (drop m xs)
drop-add zero n xs = ground arith
drop-add {A = A} (suc m) n [] = drop-nil (suc m + n) ∙ sym (drop-nil {A = A} n)
drop-add (suc m) n (x ∷ xs) =
    let e : suc m + n ≡ suc (m + n) = omega arith in ap (λ k. drop k (x ∷ xs)) e ∙ drop-add m n xs

pub drop-append_at {ℓ} :
    {A : Type ℓ} (n : ℕ) (xs ys : List A) → length xs ≡ n → drop n (xs ++ ys) ≡ ys
drop-append_at n xs ys h = rw (← h) (drop-append_self xs ys)

module _ (table : List Bytes) (e : Entry) (is_oid : IsOid e) where
  index_part :
      drop 20 (encode_record table e) ≡ be 2 (index_of e.pack_id table) ++ 0 ∷ 0 ∷ be 8 e.offset
  index_part = drop-append_at 20 e.oid _ is_oid

  offset_part : drop 24 (encode_record table e) ≡ be 8 e.offset
  offset_part = drop-add 20 4 (encode_record table e) ∙ ap (drop 4) index_part

  pub read_index :
      index_of e.pack_id table < 65536
      → from_be 0 (take 2 (drop 20 (encode_record table e))) ≡ index_of e.pack_id table
  read_index small = ap (λ s. from_be 0 (take 2 s)) index_part ∙ from_be-be_16 _ small

  pub read_offset :
      e.offset < 18446744073709551616
      → from_be 0 (take 8 (drop 24 (encode_record table e))) ≡ e.offset
  read_offset small = ap (λ s. from_be 0 (take 8 s)) offset_part ∙ from_be-be_64 _ small

  -- A record names the pack and the offset of its entry.
  pub read_entry-encode :
      member e.pack_id table ≡ true
      → length table ≤ 65535
      → e.offset < 18446744073709551616
      → read_entry table (encode_record table e) ≡ some (e.pack_id, e.offset)
  unfolding read_entry
  read_entry-encode m short small =
      let (g, lt) = index_of-get e.pack_id table m in
      let i : from_be 0 (take 2 (drop 20 (encode_record table e))) ≡ index_of e.pack_id table =
        read_index (omega arith) in
      rw (i, g, read_entry) (ap (λ (o : ℕ). some (e.pack_id, o)) (read_offset small))

-- The table has the pack of the entry.
abbrev pub Listed : List Bytes → Entry → Type 0
Listed table e = member e.pack_id table ≡ true

pub indices_fit-encode :
    (table : List Bytes) (es : List Entry)
    → All IsOid es
    → All (Listed table) es
    → length table ≤ 65535
    → indices_fit (length table) (map (encode_record table) es) ≡ true
unfolding indices_fit
indices_fit-encode table [] oids listed short = refl
indices_fit-encode table (e ∷ es) (oe, oids) (l, listed) short =
    let (g, lt) = index_of-get e.pack_id table l in
    let fits : ltb (index_of e.pack_id table) (length table) ≡ true = ground arith in
    rw (read_index table e oe (omega arith), fits) (indices_fit-encode table es oids listed short)

packs_of-member :
    (es : List Entry) (p : Bytes) → member p (packs_of es) ≡ member p (map pack_id_of es)
unfolding packs_of member
packs_of-member [] p = refl
packs_of-member (e ∷ es) p = elim (Bool-cases (member e.pack_id (packs_of es))) [
  | inr f ↦ rw f (ap (λ b. eqb e.pack_id p || b) (packs_of-member es p))
  | inl t ↦ rw t (elim (Bool-cases (eqb e.pack_id p)) [
    | inr n ↦ rw n (packs_of-member es p)
    | inl same ↦ rw same (ap (λ q. member q (packs_of es)) (sym ((eqb_iff e.pack_id p).0 same)) ∙ t)
  ])
]

All-Listed :
    (table : List Bytes) (es : List Entry)
    → ((p : Bytes) → member p (map pack_id_of es) ≡ true → member p table ≡ true)
    → All (Listed table) es
unfolding member
All-Listed table [] f = tt
All-Listed table (e ∷ es) f = (
  f e.pack_id (ground (arith, (eqb_iff e.pack_id e.pack_id).1 refl)),
  All-Listed table es (λ p m. f p (ground arith)),
)

-- The sorted table has the pack of every entry.
pub table-Listed : (es : List Entry) → All (Listed (sort_by self (packs_of es))) es
table-Listed es =
    All-Listed (sort_by self (packs_of es)) es
      (λ p m. member-sort p (packs_of es) ∙ packs_of-member es p ∙ m)

-- Only valid ids get into the table.
abbrev pub IsPackId : Bytes → Type 0
IsPackId p = valid_pack_id p ≡ true

pub all_valid_iff-All : (ps : List Bytes) → All IsPackId ps → all_valid ps ≡ true
unfolding all_valid
all_valid_iff-All [] a = refl
all_valid_iff-All (p ∷ ps) (v, a) = rw v (all_valid_iff-All ps a)

pub IsPackId-length : (p : Bytes) → IsPackId p → length p ≡ 40
unfolding valid_pack_id
IsPackId-length p v = ground arith

packs_of-IsPackId :
    (es : List Entry) → all_valid (map pack_id_of es) ≡ true → All IsPackId (packs_of es)
unfolding packs_of all_valid
packs_of-IsPackId [] v = tt
packs_of-IsPackId (e ∷ es) v =
    let rest = packs_of-IsPackId es (ground arith) in
    elim (Bool-cases (member e.pack_id (packs_of es))) [
      | inl t ↦ rw t rest
      | inr f ↦ rw f (ground arith, rest)
    ]

pub table-IsPackId :
    (es : List Entry)
    → all_valid (map pack_id_of es) ≡ true
    → All IsPackId (sort_by self (packs_of es))
table-IsPackId es v = sort_by-All self IsPackId (packs_of es) (packs_of-IsPackId es v)
