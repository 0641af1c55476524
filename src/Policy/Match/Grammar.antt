-- ===== src/Policy/Match/Grammar.antt =====
-- What a pattern of internal/policy/match.go matches, and what an answer says of it.
use bucketvcs.Prelude.{
  ℕ, zero, suc, ◌+◌, ◌≤◌, ◌<◌, ◌≡◌, ◌≢◌, refl, ◌⊎◌, inl, inr, Bool, true, false, List, [], ◌∷◌,
  Option, none, some, arith, length, drop, Bytes, eqb,
}
use bucketvcs.Prelude.{get_elem?}
use bucketvcs.Policy.Match.{
  MatchError, malformed, empty_path, bad_segment, state_budget, aggregate_budget, out_of_fuel,
  Answer, answer, fails, dbl_star,
}

pub get-drop {ℓ} :
    {A : Type ℓ} (xs : List A) (i : ℕ) (x : A)
    → get_elem? xs i ≡ some x
    → (drop i xs ≡ x ∷ drop (i + 1) xs) × (i < length xs)
get-drop [] i x h = cc
get-drop (y ∷ xs) zero x h = (ground arith, omega arith)
get-drop (y ∷ xs) (suc i) x h = let (e, l) = get-drop xs i x h in (ground arith, omega arith)

pub get-none {ℓ} :
    {A : Type ℓ} (xs : List A) (i : ℕ) → get_elem? xs i ≡ none → (drop i xs ≡ []) × (length xs ≤ i)
get-none [] zero h = (refl, omega arith)
get-none [] (suc i) h = (refl, omega arith)
get-none (y ∷ xs) zero h = absurd (ground arith)
get-none (y ∷ xs) (suc i) h = let (e, l) = get-none xs i h in (e, omega arith)

pub drop-cases {ℓ} :
    {A : Type ℓ} (xs : List A) (j : ℕ)
    → ((drop j xs ≡ []) × (length xs ≤ j))
      ⊎ ((x : A) × (drop j xs ≡ x ∷ drop (j + 1) xs) × (j < length xs))
drop-cases [] zero = inl (refl, omega arith)
drop-cases [] (suc j) = inl (refl, omega arith)
drop-cases (x ∷ xs) zero = inr (x, ground arith, omega arith)
drop-cases (x ∷ xs) (suc j) = elim (drop-cases xs j) [
  | inl (e, l) ↦ inl (e, omega arith)
  | inr (y, e, l) ↦ inr (y, ground arith, omega arith)
]

module _ (path_match : Bytes → Bytes → Option Bool) where
  -- A list of pattern segments matches a list of path segments: a segment one by `path.Match`, a `**`
  -- any number of them, and at least one if it is the last.
  pub data Matches : List Bytes → List Bytes → Type 0 where
    ends : Matches [] []
    trailing :
        (seg p : Bytes) (ps : List Bytes) → eqb seg dbl_star ≡ true → Matches (seg ∷ []) (p ∷ ps)
    none_of :
        (seg seg' : Bytes) (segs ps : List Bytes)
        → eqb seg dbl_star ≡ true
        → Matches (seg' ∷ segs) ps
        → Matches (seg ∷ seg' ∷ segs) ps
    one_more :
        (seg seg' p : Bytes) (segs ps : List Bytes)
        → eqb seg dbl_star ≡ true
        → Matches (seg ∷ seg' ∷ segs) ps
        → Matches (seg ∷ seg' ∷ segs) (p ∷ ps)
    one :
        (seg p : Bytes) (segs ps : List Bytes)
        → eqb seg dbl_star ≡ false
        → path_match seg p ≡ some true
        → Matches segs ps
        → Matches (seg ∷ segs) (p ∷ ps)

  pub Matches-nil : (ps : List Bytes) → Matches [] ps → ps ≡ []
  Matches-nil _ ends = refl

  pub Matches-trailing : (seg : Bytes) (ps : List Bytes) → Matches (seg ∷ []) ps → ps ≢ []
  Matches-trailing _ _ (trailing seg p ps s) e = cc
  Matches-trailing _ _ (one seg p segs ps s m r) e = cc

  pub Matches-star :
      (seg seg' : Bytes) (segs ps : List Bytes)
      → eqb seg dbl_star ≡ true
      → Matches (seg ∷ seg' ∷ segs) ps
      → Matches (seg' ∷ segs) ps
        ⊎ ((p : Bytes) × (ps' : List Bytes) × (ps ≡ p ∷ ps') × Matches (seg ∷ seg' ∷ segs) ps')
  Matches-star _ _ _ _ star (none_of seg seg' segs ps s m) = inl m
  Matches-star _ _ _ _ star (one_more seg seg' p segs ps s m) = inr (p, ps, refl, m)
  Matches-star _ _ _ _ star (one seg p segs ps s m r) = absurd (cc (s, star))

  pub Matches-one :
      (seg : Bytes) (segs ps : List Bytes)
      → eqb seg dbl_star ≡ false
      → Matches (seg ∷ segs) ps
      → (p : Bytes) × (ps' : List Bytes) × (ps ≡ p ∷ ps')
        × (path_match seg p ≡ some true)
        × Matches segs ps'
  Matches-one _ _ _ plain (trailing seg p ps s) = absurd (cc (s, plain))
  Matches-one _ _ _ plain (none_of seg seg' segs ps s m) = absurd (cc (s, plain))
  Matches-one _ _ _ plain (one_more seg seg' p segs ps s m) = absurd (cc (s, plain))
  Matches-one _ _ _ plain (one seg p segs ps s m r) = (p, ps, refl, m, r)

  -- What an answer says of a pattern and a path.
  abbrev pub Says : Answer → List Bytes → List Bytes → Type 0
  Says (answer true) segs ps = Matches segs ps
  Says (answer false) segs ps = ¬ (Matches segs ps)
  Says (fails out_of_fuel) segs ps = ⊥
  Says (fails _) segs ps = Unit

  pub Says-iff :
      (r : Answer) (segs ps segs' ps' : List Bytes)
      → (Matches segs ps → Matches segs' ps')
      → (Matches segs' ps' → Matches segs ps)
      → Says r segs ps
      → Says r segs' ps'
  Says-iff (answer true) segs ps segs' ps' f g s = f s
  Says-iff (answer false) segs ps segs' ps' f g s = λ x. s (g x)
  Says-iff (fails malformed) segs ps segs' ps' f g s = tt
  Says-iff (fails empty_path) segs ps segs' ps' f g s = tt
  Says-iff (fails bad_segment) segs ps segs' ps' f g s = tt
  Says-iff (fails state_budget) segs ps segs' ps' f g s = tt
  Says-iff (fails aggregate_budget) segs ps segs' ps' f g s = tt
  Says-iff (fails out_of_fuel) segs ps segs' ps' f g s = s

  pub Says-fails :
      (e : MatchError) (segs ps segs' ps' : List Bytes)
      → Says (fails e) segs ps
      → Says (fails e) segs' ps'
  Says-fails malformed segs ps segs' ps' s = tt
  Says-fails empty_path segs ps segs' ps' s = tt
  Says-fails bad_segment segs ps segs' ps' s = tt
  Says-fails state_budget segs ps segs' ps' s = tt
  Says-fails aggregate_budget segs ps segs' ps' s = tt
  Says-fails out_of_fuel segs ps segs' ps' s = s

  pub Says-one :
      (seg p : Bytes) (segs ps : List Bytes) (r : Answer)
      → eqb seg dbl_star ≡ false
      → path_match seg p ≡ some true
      → Says r segs ps
      → Says r (seg ∷ segs) (p ∷ ps)
  Says-one seg p segs ps r plain m s =
      Says-iff r segs ps (seg ∷ segs) (p ∷ ps) (one seg p segs ps plain m)
        (λ x.
          let (p', ps', e, m', r') = Matches-one seg segs (p ∷ ps) plain x in
          let e' : ps' ≡ ps = ground arith in rw (← e') r')
        s
