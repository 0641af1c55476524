-- ===== src/Auth/Scopes/Grants.antt =====
-- Which scopes a token of internal/auth/scopes.go grants.
use bucketvcs.Prelude.{
  ℕ, zero, suc, ◌*◌, ◌/◌, ◌<◌, ◌≡◌, refl, ◌∙◌, inl, inr, Bool, true, false, ◌&&◌, ◌||◌, Option,
  none, some, arith, ◌==◌, if◌then◌else◌, Bool-cases,
}
use bucketvcs.Prelude.Words.{bit, or_word, bit-or_word, bit-zero, and_word-eq-zero, and_word-zero}
use bucketvcs.Auth.Permissions.{Actor}
use bucketvcs.Auth.Scopes.{
  insufficient_scope, scope_bit, common_bits, has, raise_scopes, effective_scopes, check_actor,
  check_scope,
}

bit-scope_bit : (j i : ℕ) → bit j (scope_bit i) ≡ (j == i)
unfolding bit scope_bit
bit-scope_bit zero zero = refl
bit-scope_bit zero (suc i) = ground arith
bit-scope_bit (suc j) zero = bit-zero j ∙ ground arith
bit-scope_bit (suc j) (suc i) =
    let half : 2 * scope_bit i / 2 ≡ scope_bit i = omega arith in
    rw half (bit-scope_bit j i ∙ ground arith)

-- `Has` of one scope is its bit.
has-scope_bit : (s i : ℕ) → i < 64 → has s (scope_bit i) ≡ bit i s
unfolding has
has-scope_bit s i h = elim (Bool-cases (bit i s)) [
  | inl set ↦ elim (Bool-cases (common_bits s (scope_bit i) == 0)) [
    | inl none_ ↦
        let e : common_bits s (scope_bit i) ≡ 0 = ground arith in
        let c = and_word-eq-zero 64 s (scope_bit i) e i h in
        absurd (ground (arith, bit-scope_bit i i))
    | inr some_ ↦ rw (some_, set) refl
  ]
  | inr clear ↦
      let e : common_bits s (scope_bit i) ≡ 0 = and_word-zero 64 s (scope_bit i) (λ j l.
        elim (Bool-cases (j == i)) [
          | inl same ↦ let q : j ≡ i = ground arith in rw q (ground arith)
          | inr other ↦ ground (arith, bit-scope_bit j i)
        ]) in
      rw (e, clear) refl
]

bit-raise_scopes :
    (from to j s : ℕ)
    → j < 64
    → bit j (raise_scopes from to s) ≡ (bit j s || (has s from && bit j to))
unfolding raise_scopes
bit-raise_scopes from to j s h = ground (arith, bit-or_word 64 j s to h)

-- The scopes that grant a scope, by the bits of the token: writing to a repository grants reading it,
-- administering it both, and writing LFS objects reading them.
unfoldable pub grants : ℕ → ℕ → Bool
grants s zero = bit 0 s || bit 1 s || bit 2 s
grants s (suc zero) = bit 1 s || bit 2 s
grants s (suc (suc (suc zero))) = bit 3 s || bit 4 s
grants s i = bit i s

has-4 : (s : ℕ) → has s 4 ≡ bit 2 s
unfolding scope_bit
has-4 s = has-scope_bit s 2 (omega arith)

has-2 : (s : ℕ) → has s 2 ≡ bit 1 s
unfolding scope_bit
has-2 s = has-scope_bit s 1 (omega arith)

has-16 : (s : ℕ) → has s 16 ≡ bit 4 s
unfolding scope_bit
has-16 s = has-scope_bit s 4 (omega arith)

literals_0 : (bit 0 1 ≡ true) × (bit 0 3 ≡ true) × (bit 0 8 ≡ false)
unfolding bit
literals_0 = (refl, refl, refl)

literals_1 : (bit 1 1 ≡ false) × (bit 1 3 ≡ true) × (bit 1 8 ≡ false)
unfolding bit
literals_1 = (refl, refl, refl)

literals_2 : (bit 2 1 ≡ false) × (bit 2 3 ≡ false) × (bit 2 8 ≡ false)
unfolding bit
literals_2 = (refl, refl, refl)

literals_3 : (bit 3 1 ≡ false) × (bit 3 3 ≡ false) × (bit 3 8 ≡ true)
unfolding bit
literals_3 = (refl, refl, refl)

literals_4 : (bit 4 1 ≡ false) × (bit 4 3 ≡ false) × (bit 4 8 ≡ false)
unfolding bit
literals_4 = (refl, refl, refl)

literals_5 : (bit 5 1 ≡ false) × (bit 5 3 ≡ false) × (bit 5 8 ≡ false)
unfolding bit
literals_5 = (refl, refl, refl)

literals_6 : (bit 6 1 ≡ false) × (bit 6 3 ≡ false) × (bit 6 8 ≡ false)
unfolding bit
literals_6 = (refl, refl, refl)

module _ (s : ℕ) where
  abbrev by_admin : ℕ
  by_admin = raise_scopes 4 3 s

  abbrev by_write : ℕ
  by_write = raise_scopes 2 1 by_admin

  bit-by_admin : (j : ℕ) → j < 64 → bit j by_admin ≡ (bit j s || (bit 2 s && bit j 3))
  bit-by_admin j h = rw (← has-4 s) (bit-raise_scopes 4 3 j s h)

  bit-by_write : (j : ℕ) → j < 64 → bit j by_write ≡ (bit j by_admin || (bit 1 by_admin && bit j 1))
  bit-by_write j h = rw (← has-2 by_admin) (bit-raise_scopes 2 1 j by_admin h)

  effective_scopes-eq : effective_scopes s ≡ raise_scopes 16 8 by_write
  unfolding effective_scopes or_word
  effective_scopes-eq = refl

  bit-effective_scopes :
      (j : ℕ)
      → j < 64
      → bit j (effective_scopes s) ≡ (bit j by_write || (bit 4 by_write && bit j 8))
  bit-effective_scopes j h =
      rw effective_scopes-eq (rw (← has-16 by_write) (bit-raise_scopes 16 8 j by_write h))

  effective_from :
      (j : ℕ)
      → j < 64
      → bit j (effective_scopes s) ≡ (
          ((bit j s || (bit 2 s && bit j 3)) || ((bit 1 s || (bit 2 s && bit 1 3)) && bit j 1))
          || ((((bit 4 s || (bit 2 s && bit 4 3))
                || ((bit 1 s || (bit 2 s && bit 1 3)) && bit 4 1)))
              && bit j 8))
  effective_from j h = ground (
    arith,
    bit-effective_scopes j h,
    bit-by_write j h,
    bit-by_write 4 (omega arith),
    bit-by_admin j h,
    bit-by_admin 1 (omega arith),
    bit-by_admin 4 (omega arith),
  )

  -- `EffectiveScopes` of a token has just the scopes that are granted.
  pub effective_scopes_lem : (i : ℕ) → i < 7 → bit i (effective_scopes s) ≡ grants s i
  unfolding grants
  effective_scopes_lem zero h =
      ground (arith, effective_from 0 (omega arith), literals_0, literals_1, literals_4)
  effective_scopes_lem (suc zero) h =
      ground (arith, effective_from 1 (omega arith), literals_1, literals_1, literals_4)
  effective_scopes_lem (suc (suc zero)) h =
      ground (arith, effective_from 2 (omega arith), literals_2, literals_1, literals_4)
  effective_scopes_lem (suc (suc (suc zero))) h =
      ground (arith, effective_from 3 (omega arith), literals_3, literals_1, literals_4)
  effective_scopes_lem (suc (suc (suc (suc zero)))) h =
      ground (arith, effective_from 4 (omega arith), literals_4, literals_1, literals_4)
  effective_scopes_lem (suc (suc (suc (suc (suc zero))))) h =
      ground (arith, effective_from 5 (omega arith), literals_5, literals_1, literals_4)
  effective_scopes_lem (suc (suc (suc (suc (suc (suc zero)))))) h =
      ground (arith, effective_from 6 (omega arith), literals_6, literals_1, literals_4)
  effective_scopes_lem (suc (suc (suc (suc (suc (suc (suc i))))))) h = absurd (omega arith)

scope_bit_positive : (i : ℕ) → 0 < scope_bit i
unfolding scope_bit
scope_bit_positive zero = omega arith
scope_bit_positive (suc i) = omega (arith, scope_bit_positive i)

has_effective_lem : (s i : ℕ) → i < 7 → has (effective_scopes s) (scope_bit i) ≡ grants s i
has_effective_lem s i h =
    has-scope_bit (effective_scopes s) i (omega arith) ∙ effective_scopes_lem s i h

-- `CheckScope` of one of the seven scopes admits just an actor whose token is from before scopes or
-- holds a scope that grants it; it refuses an anonymous one.
pub check_scope_lem :
    (actor : Option Actor) (i : ℕ)
    → i < 7
    → check_scope actor (scope_bit i) ≡ elim actor [
      | none ↦ some insufficient_scope
      | some a ↦ if a.scopes == 0 || grants a.scopes i then none else some insufficient_scope
    ]
unfolding check_scope check_actor
check_scope_lem none i h = ground (arith, scope_bit_positive i)
check_scope_lem (some a) i h = ground (arith, scope_bit_positive i, has_effective_lem a.scopes i h)
