-- ===== src/Objindex/Scan.antt =====
-- Scans of the records of internal/objindex, and ids in ascending order.
use bucketvcs.Prelude.{
  ℕ, zero, suc, ◌<◌, ◌≡◌, refl, inl, inr, true, false, List, [], ◌∷◌, Option, none, some, arith,
  length, Bytes, eqb, eqb_iff, eqb_refl, lex_lt, lex_lt-irreflexive, lex_lt-transitive, Bool-cases,
  All,
}
use bucketvcs.Prelude.{get_elem?}
use bucketvcs.Prelude.Sort.{find_by}
use bucketvcs.Objindex.{Map, record_oid, oid_at, read_entry, ascending}

-- Every id is below the ids after it.
abbrev pub Increasing : List Bytes → Type 0
Increasing [] = Unit
Increasing (r ∷ rs) = All (λ s. lex_lt (record_oid r) (record_oid s) ≡ true) rs × Increasing rs

All-below :
    (r s : Bytes) (rs : List Bytes)
    → lex_lt (record_oid r) (record_oid s) ≡ true
    → All (λ t. lex_lt (record_oid s) (record_oid t) ≡ true) rs
    → All (λ t. lex_lt (record_oid r) (record_oid t) ≡ true) rs
All-below r s [] h a = tt
All-below r s (t ∷ rs) h (b, a) =
    (lex_lt-transitive (record_oid r) (record_oid s) (record_oid t) h b, All-below r s rs h a)

pub ascending-Increasing : (rs : List Bytes) → ascending rs ≡ true → Increasing rs
unfolding ascending
ascending-Increasing [] h = tt
ascending-Increasing (r ∷ []) h = (tt, tt)
ascending-Increasing (r ∷ s ∷ rs) h =
    let below : lex_lt (record_oid r) (record_oid s) ≡ true = ground arith in
    let (a, rest) = ascending-Increasing (s ∷ rs) (ground arith) in
    ((below, All-below r s rs below a), (a, rest))

pub All-oid_at :
    (x : Bytes) (rs : List Bytes) (j : ℕ)
    → All (λ t. lex_lt x (record_oid t) ≡ true) rs
    → j < length rs
    → lex_lt x (oid_at rs j) ≡ true
All-oid_at x [] j a h = absurd (omega arith)
All-oid_at x (r ∷ rs) zero (b, a) h = b
All-oid_at x (r ∷ rs) (suc j) (b, a) h = All-oid_at x rs j a (omega arith)

pub oid_at-lt :
    (rs : List Bytes) (i j : ℕ)
    → Increasing rs
    → i < j
    → j < length rs
    → lex_lt (oid_at rs i) (oid_at rs j) ≡ true
oid_at-lt [] i j inc ij h = absurd (omega arith)
oid_at-lt (r ∷ rs) i zero inc ij h = absurd (omega arith)
oid_at-lt (r ∷ rs) zero (suc j) (a, inc) ij h = All-oid_at (record_oid r) rs j a (omega arith)
oid_at-lt (r ∷ rs) (suc i) (suc j) (a, inc) ij h = oid_at-lt rs i j inc (omega arith) (omega arith)

-- A scan: what the first record with the id names.
unfoldable pub scan : Map → Bytes → Option (Bytes × ℕ)
scan m oid = elim (find_by record_oid oid m.records) [
  | none ↦ none
  | some rec ↦ read_entry m.pack_table rec
]

pub differs : (oid x : Bytes) → lex_lt x oid ≡ true → eqb x oid ≡ false
differs oid x h = elim (Bool-cases (eqb x oid)) [
  | inr f ↦ f
  | inl t ↦ cc (rw ((eqb_iff x oid).0 t) at h, lex_lt-irreflexive oid)
]

-- A scan of records meets the one at a place whose id it is, if no earlier one has it.
pub scan_at :
    (oid : Bytes) (rs : List Bytes) (r : ℕ) (rec : Bytes)
    → get_elem? rs r ≡ some rec
    → record_oid rec ≡ oid
    → ((i : ℕ) → i < r → lex_lt (oid_at rs i) oid ≡ true)
    → find_by record_oid oid rs ≡ some rec
unfolding find_by
scan_at oid [] r rec g e low = cc
scan_at oid (s ∷ rs) zero rec g e low =
    let same : s ≡ rec = ground arith in rw (same, e, eqb_refl oid) refl
scan_at oid (s ∷ rs) (suc r) rec g e low =
    rw (differs oid (record_oid s) (low 0 (omega arith)))
      (scan_at oid rs r rec g e (λ i h. low (suc i) (omega arith)))

-- A scan meets nothing if every id differs.
pub scan_none :
    (oid : Bytes) (rs : List Bytes)
    → ((i : ℕ) → i < length rs → eqb (oid_at rs i) oid ≡ false)
    → find_by record_oid oid rs ≡ none
unfolding find_by
scan_none oid [] out = refl
scan_none oid (s ∷ rs) out =
    rw (out 0 (omega arith)) (scan_none oid rs (λ i h. out (suc i) (omega arith)))

pub get_elem?-some {ℓ} :
    {A : Type ℓ} (xs : List A) (i : ℕ) → i < length xs → (x : A) × (get_elem? xs i ≡ some x)
get_elem?-some [] i h = absurd (omega arith)
get_elem?-some (x ∷ xs) zero h = (x, refl)
get_elem?-some (x ∷ xs) (suc i) h = get_elem?-some xs i (omega arith)
