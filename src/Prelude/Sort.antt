-- ===== src/Prelude/Sort.antt =====
-- Sorting (`sort.Strings`, `sort.Slice`) as insertion sort, and membership in a list of strings.
use bucketvcs.Prelude.{
  ◌≡◌, refl, ap, ◌∙◌, suc, length, All, Bool, true, false, ◌||◌, List, [], ◌∷◌, ◌++◌, Option, none,
  some, arith, if◌then◌else◌, Bytes, eqb, eqb_iff, lex_lt, lex_lt-irreflexive, lex_lt-asymmetric,
  Bool-cases, inl, inr,
}
use bucketvcs.Prelude.Assoc.{Assoc, lookup}

module _ {ℓ} {A : Type ℓ} (key : A → Bytes) where
  unfoldable pub insert_by : A → List A → List A
  insert_by x [] = x ∷ []
  insert_by x (y ∷ ys) = if lex_lt (key y) (key x) then y ∷ insert_by x ys else x ∷ y ∷ ys

  -- Stable: an item stays before the later ones with its key.
  unfoldable pub sort_by : List A → List A
  sort_by [] = []
  sort_by (x ∷ xs) = insert_by x (sort_by xs)

  -- The first item with the key.
  unfoldable pub find_by : Bytes → List A → Option A
  find_by k [] = none
  find_by k (x ∷ xs) = if eqb (key x) k then some x else find_by k xs

  find_by-insert_by :
      (k : Bytes) (x : A) (xs : List A)
      → find_by k (insert_by x xs) ≡ (if eqb (key x) k then some x else find_by k xs)
  unfolding find_by insert_by
  find_by-insert_by k x [] = refl
  find_by-insert_by k x (y ∷ ys) =
      ground (
        arith,
        eqb_iff (key x) k,
        eqb_iff (key y) k,
        lex_lt-irreflexive k,
        find_by-insert_by k x ys,
      )

  pub find_by-sort_by : (k : Bytes) (xs : List A) → find_by k (sort_by xs) ≡ find_by k xs
  unfolding sort_by find_by
  find_by-sort_by k [] = refl
  find_by-sort_by k (x ∷ xs) =
      rw (find_by-insert_by k x (sort_by xs)) (rw (find_by-sort_by k xs) refl)

  pub find_by-append :
      (k : Bytes) (xs ys : List A)
      → find_by k (xs ++ ys) ≡ elim (find_by k xs) [ some x ↦ some x | none ↦ find_by k ys ]
  unfolding find_by
  find_by-append k [] ys = refl
  find_by-append k (x ∷ xs) ys = ground (arith, find_by-append k xs ys)

module _ {ℓ} {A : Type ℓ} (key : A → Bytes) where
  insert_by-All :
      (P : A → Type 0) (x : A) (xs : List A) → P x → All P xs → All P (insert_by key x xs)
  unfolding insert_by
  insert_by-All P x [] p a = (p, tt)
  insert_by-All P x (y ∷ ys) p (q, a) = elim (Bool-cases (lex_lt (key y) (key x))) [
    | inl t ↦ rw t (q, insert_by-All P x ys p a)
    | inr f ↦ rw f (p, (q, a))
  ]

  pub sort_by-All : (P : A → Type 0) (xs : List A) → All P xs → All P (sort_by key xs)
  unfolding sort_by
  sort_by-All P [] a = tt
  sort_by-All P (x ∷ xs) (p, a) = insert_by-All P x (sort_by key xs) p (sort_by-All P xs a)

  length-insert_by : (x : A) (xs : List A) → length (insert_by key x xs) ≡ suc (length xs)
  unfolding insert_by
  length-insert_by x [] = refl
  length-insert_by x (y ∷ ys) = ground (arith, length-insert_by x ys)

  pub length-sort_by : (xs : List A) → length (sort_by key xs) ≡ length xs
  unfolding sort_by
  length-sort_by [] = refl
  length-sort_by (x ∷ xs) = length-insert_by x (sort_by key xs) ∙ ap suc (length-sort_by xs)

  -- No item has a smaller key than the one before it.
  abbrev pub IsSorted : List A → Type 0
  IsSorted [] = Unit
  IsSorted (x ∷ []) = Unit
  IsSorted (x ∷ y ∷ ys) = (lex_lt (key y) (key x) ≡ false) × IsSorted (y ∷ ys)

  insert_by-IsSorted : (x : A) (xs : List A) → IsSorted xs → IsSorted (insert_by key x xs)
  unfolding insert_by
  insert_by-IsSorted x [] s = tt
  insert_by-IsSorted x (y ∷ []) s = elim (Bool-cases (lex_lt (key y) (key x))) [
    | inl lt ↦ rw lt (lex_lt-asymmetric (key y) (key x) lt, tt)
    | inr ge ↦ rw ge (ge, tt)
  ]
  insert_by-IsSorted x (y ∷ z ∷ zs) (o, s) =
      let rest = insert_by-IsSorted x (z ∷ zs) s in
      elim (Bool-cases (lex_lt (key y) (key x))) [
        | inr ge ↦ rw ge (ge, (o, s))
        | inl lt ↦ elim (Bool-cases (lex_lt (key z) (key x))) [
          | inl lt' ↦ rw (lt, lt') (o, rw lt' at rest)
          | inr ge' ↦ rw (lt, ge') (lex_lt-asymmetric (key y) (key x) lt, rw ge' at rest)
        ]
      ]

  pub sort_by-IsSorted : (xs : List A) → IsSorted (sort_by key xs)
  unfolding sort_by
  sort_by-IsSorted [] = tt
  sort_by-IsSorted (x ∷ xs) = insert_by-IsSorted x (sort_by key xs) (sort_by-IsSorted xs)

unfoldable pub member : Bytes → List Bytes → Bool
member k [] = false
member k (j ∷ js) = eqb j k || member k js

abbrev pub self : Bytes → Bytes
self k = k

member-insert_by :
    (k x : Bytes) (xs : List Bytes) → member k (insert_by self x xs) ≡ (eqb x k || member k xs)
unfolding member insert_by
member-insert_by k x [] = refl
member-insert_by k x (y ∷ ys) = ground (arith, member-insert_by k x ys)

pub member-sort : (k : Bytes) (xs : List Bytes) → member k (sort_by self xs) ≡ member k xs
unfolding member sort_by
member-sort k [] = refl
member-sort k (x ∷ xs) = ground (arith, member-insert_by k x (sort_by self xs), member-sort k xs)

-- The keys of a map.
unfoldable pub keys_of {ℓ} : {V : Type ℓ} → Assoc V → List Bytes
keys_of [] = []
keys_of ((k, v) ∷ m) = k ∷ keys_of m

pub member-keys_of {ℓ} :
    {V : Type ℓ} (k : Bytes) (m : Assoc V)
    → member k (keys_of m) ≡ elim (lookup k m) [ none ↦ false | some v ↦ true ]
unfolding member keys_of lookup
member-keys_of k [] = refl
member-keys_of k ((j, v) ∷ m) = ground (arith, member-keys_of k m)
