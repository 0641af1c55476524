-- ===== src/Policy/Match/Sound.antt =====
-- The memoized walk of internal/policy/match.go finds what a pattern matches.
use bucketvcs.Prelude.{
  ℕ, zero, suc, ◌+◌, ◌-◌, ◌≤◌, ◌<◌, ◌≡◌, refl, ◌∙◌, inl, inr, Bool, true, false, ◌&&◌, List, [],
  ◌∷◌, Option, some, arith, ltb, ◌==◌, length, drop, Bytes, eqb, Bool-cases, Option-cases, All,
}
use bucketvcs.Prelude.{get_elem?}
use bucketvcs.Policy.Match.{
  bad_segment, state_budget, aggregate_budget, Answer, answer, fails, Budget, Walk, dbl_star,
  max_path_match_states, recall, remember, charge, charged, walk_star, walk_one, walk_step,
  walk_new, walk, match_segments,
}
use bucketvcs.Policy.Match.Grammar.{
  get-drop, get-none, drop-cases, Matches, ends, trailing, none_of, one_more, Says, Matches-nil,
  Matches-trailing, Matches-star, Matches-one, Says-iff, Says-fails, Says-one,
}

module _ (path_match : Bytes → Bytes → Option Bool) where
  -- Every entry of the memo is right.
  abbrev MemoSays : List Bytes → List Bytes → List (ℕ × ℕ × Answer) → Type 0
  MemoSays pats paths memo =
      All (λ (e : ℕ × ℕ × Answer). Says path_match e.2 (drop e.0 pats) (drop e.1 paths)) memo

  recall-Says :
      (pats paths : List Bytes) (i j : ℕ) (memo : List (ℕ × ℕ × Answer)) (r : Answer)
      → MemoSays pats paths memo
      → recall i j memo ≡ some r
      → Says path_match r (drop i pats) (drop j paths)
  unfolding recall
  recall-Says pats paths i j [] r h q = absurd (ground arith)
  recall-Says pats paths i j ((i', j', r') ∷ memo) r (s, h) q =
      elim (Bool-cases (i' == i && j' == j)) [
        | inl hit ↦
            let e1 : i' ≡ i = ground arith in
            let e2 : j' ≡ j = ground arith in
            let e3 : r' ≡ r = ground arith in rw (← e1, ← e2, ← e3) s
        | inr miss ↦ recall-Says pats paths i j memo r h (ground arith)
      ]

  -- What a step that is right leaves.
  abbrev Right : List Bytes → List Bytes → ℕ → ℕ → Answer × Walk → Type 0
  Right pats paths i j step =
      Says path_match step.0 (drop i pats) (drop j paths) × MemoSays pats paths step.1.memo

  -- The walks that are right from the states where the fuel is enough.
  abbrev RightBelow : List Bytes → List Bytes → ℕ → (ℕ → ℕ → Walk → Answer × Walk) → Type 0
  RightBelow pats paths fuel walk =
      (i j : ℕ) (w : Walk)
      → i ≤ length pats
      → j ≤ length paths
      → (length pats - i) + (length paths - j) < fuel
      → MemoSays pats paths w.memo
      → Right pats paths i j (walk i j w)

  module _ (pats paths : List Bytes) (fuel : ℕ) (walk : ℕ → ℕ → Walk → Answer × Walk)
      (below : RightBelow pats paths fuel walk) (i j : ℕ) (w : Walk) (i_in : i ≤ length pats)
      (j_in : j ≤ length paths) (enough : (length pats - i) + (length paths - j) < suc fuel)
      (right : MemoSays pats paths w.memo) where
    Right-eq : (x y : Answer × Walk) → x ≡ y → Right pats paths i j y → Right pats paths i j x
    Right-eq x y e r = rw e r

    walk_one-Right :
        (seg : Bytes)
        → get_elem? pats i ≡ some seg
        → eqb seg dbl_star ≡ false
        → Right pats paths i j (walk_one path_match pats paths walk seg i j w)
    unfolding walk_one
    walk_one-Right seg g plain =
        let (e, low) = get-drop pats i seg g in
        elim (Option-cases (get_elem? paths j)) [
          | inl q ↦
              let (e', high) = get-none paths j q in
              Right-eq (walk_one path_match pats paths walk seg i j w) (answer false, w)
                (ground arith)
                (
                  (rw (e, e')
                      (λ x.
                        let (p, ps, f, m, r) =
                          Matches-one path_match seg (drop (i + 1) pats) [] plain x in
                        cc)),
                  right,
                )
          | inr (p, q) ↦
              let (e', low') = get-drop paths j p q in
              elim (Option-cases (path_match seg p)) [
                | inl m ↦
                    Right-eq (walk_one path_match pats paths walk seg i j w) (fails bad_segment, w)
                      (ground arith) (tt, right)
                | inr (false, m) ↦
                    Right-eq (walk_one path_match pats paths walk seg i j w) (answer false, w)
                      (ground arith)
                      (
                        (rw (e, e')
                            (λ x.
                              let (p', ps, f, m', r) =
                                Matches-one path_match seg (drop (i + 1) pats)
                                  (p ∷ drop (j + 1) paths) plain x in
                              absurd (ground arith))),
                        right,
                      )
                | inr (true, m) ↦
                    let (s, memo) =
                      below (i + 1) (j + 1) w (omega arith) (omega arith) (omega arith) right in
                    Right-eq (walk_one path_match pats paths walk seg i j w)
                      (walk (i + 1) (j + 1) w) (ground arith)
                      (
                        rw (e, e')
                            (Says-one path_match seg p (drop (i + 1) pats) (drop (j + 1) paths)
                              (walk (i + 1) (j + 1) w).0 plain m s),
                        memo,
                      )
              ]
        ]

    module _ (seg seg' : Bytes) (rest : List Bytes) (star : eqb seg dbl_star ≡ true)
        (here : drop i pats ≡ seg ∷ seg' ∷ rest) where
      walk_star-from :
          (r : Answer)
          → (walk (i + 1) j w).0 ≡ r
          → Says path_match r (seg' ∷ rest) (drop j paths)
          → MemoSays pats paths (walk (i + 1) j w).1.memo
          → Right pats paths i j (walk_star path_match pats paths walk i j w)
      unfolding walk_star
      walk_star-from (fails e) q s memo =
          Right-eq (walk_star path_match pats paths walk i j w) (fails e, (walk (i + 1) j w).1)
            (ground arith)
            (
              Says-fails path_match e (seg' ∷ rest) (drop j paths) (drop i pats) (drop j paths) s,
              memo,
            )
      walk_star-from (answer true) q s memo =
          Right-eq (walk_star path_match pats paths walk i j w) (answer true, (walk (i + 1) j w).1)
            (ground arith) (rw here (none_of seg seg' rest (drop j paths) star s), memo)
      walk_star-from (answer false) q s memo = elim (drop-cases paths j) [
        | inl (e, high) ↦
            let closed : ltb j (length paths) ≡ false = ground arith in
            Right-eq (walk_star path_match pats paths walk i j w)
              (answer false, (walk (i + 1) j w).1) (ground arith)
              (
                rw (here, e)
                    (λ x. elim (Matches-star path_match seg seg' rest [] star x) [
                      | inl m ↦ (rw e at s) m
                      | inr (p, ps, f, m) ↦ cc
                    ]),
                memo,
              )
        | inr (p, e, low) ↦
            let open_ : ltb j (length paths) ≡ true = ground arith in
            let w' = (walk (i + 1) j w).1 in
            let (s', memo') = below i (j + 1) w' i_in (omega arith) (omega arith) memo in
            let r' = (walk i (j + 1) w').0 in
            let back : Matches path_match (seg ∷ seg' ∷ rest) (p ∷ drop (j + 1) paths)
                → Matches path_match (seg ∷ seg' ∷ rest) (drop (j + 1) paths) =
              λ x. elim (Matches-star path_match seg seg' rest (p ∷ drop (j + 1) paths) star x) [
                | inl m ↦ absurd ((rw e at s) m)
                | inr (p', ps, f, m) ↦
                    let f' : ps ≡ drop (j + 1) paths = ground arith in rw (← f') m
              ] in
            Right-eq (walk_star path_match pats paths walk i j w) (walk i (j + 1) w') (ground arith)
              (
                rw (here, e)
                    (Says-iff path_match r' (seg ∷ seg' ∷ rest) (drop (j + 1) paths)
                      (seg ∷ seg' ∷ rest) (p ∷ drop (j + 1) paths)
                      (one_more seg seg' p rest (drop (j + 1) paths) star) back (rw here at s')),
                memo',
              )
      ]

    walk_step-Right : Right pats paths i j (walk_step path_match pats paths walk i j w)
    unfolding walk_step
    walk_step-Right = elim (Option-cases (get_elem? pats i)) [
      | inl q ↦
          let (e, high) = get-none pats i q in
          elim (drop-cases paths j) [
            | inl (f, l) ↦
                let done : (j == length paths) ≡ true = ground arith in
                Right-eq (walk_step path_match pats paths walk i j w) (answer true, w)
                  (ground arith) (rw (e, f) ends, right)
            | inr (p, f, l) ↦
                let left : (j == length paths) ≡ false = ground arith in
                Right-eq (walk_step path_match pats paths walk i j w) (answer false, w)
                  (ground arith)
                  (rw (e, f) (λ x. cc (Matches-nil path_match (p ∷ drop (j + 1) paths) x)), right)
          ]
      | inr (seg, q) ↦
          let (e, low) = get-drop pats i seg q in
          elim (Bool-cases (eqb seg dbl_star)) [
            | inr plain ↦
                Right-eq (walk_step path_match pats paths walk i j w)
                  (walk_one path_match pats paths walk seg i j w) (ground arith)
                  (walk_one-Right seg q plain)
            | inl star ↦ elim (drop-cases pats (i + 1)) [
              | inr (seg', f, l) ↦
                  let (s, memo) = below (i + 1) j w (omega arith) j_in (omega arith) right in
                  let more : (i + 1 == length pats) ≡ false = ground arith in
                  Right-eq (walk_step path_match pats paths walk i j w)
                    (walk_star path_match pats paths walk i j w) (ground arith)
                    (walk_star-from seg seg' (drop (i + 1 + 1) pats) star (e ∙ rw f refl)
                      (walk (i + 1) j w).0 refl (rw f at s) memo)
              | inl (f, l) ↦ elim (drop-cases paths j) [
                | inl (g, h) ↦
                    let last : (i + 1 == length pats) ≡ true = ground arith in
                    let closed : ltb j (length paths) ≡ false = ground arith in
                    Right-eq (walk_step path_match pats paths walk i j w) (answer false, w)
                      (ground arith)
                      (rw (e, f, g) (λ x. Matches-trailing path_match seg [] x refl), right)
                | inr (p, g, h) ↦
                    let last : (i + 1 == length pats) ≡ true = ground arith in
                    let open_ : ltb j (length paths) ≡ true = ground arith in
                    Right-eq (walk_step path_match pats paths walk i j w) (answer true, w)
                      (ground arith)
                      (rw (e, f, g) (trailing seg p (drop (j + 1) paths) star), right)
              ]
            ]
          ]
    ]

    charged-memo : (v : Walk) → (charged v).memo ≡ v.memo
    unfolding charged
    charged-memo v = elim (Option-cases v.aggregate) [ inl q ↦ rw q refl | inr (b, q) ↦ rw q refl ]

    charge-memo : (v v' : Walk) → charge v ≡ some v' → v'.memo ≡ v.memo
    unfolding charge
    charge-memo v v' h = elim (Option-cases v.aggregate) [
      | inl q ↦ ground arith
      | inr (b, q) ↦ ground arith
    ]

  walk_new-Right :
      (pats paths : List Bytes) (fuel : ℕ) (walk : ℕ → ℕ → Walk → Answer × Walk)
      → RightBelow pats paths fuel walk
      → RightBelow pats paths (suc fuel) (walk_new path_match pats paths walk)
  unfolding walk_new remember
  walk_new-Right pats paths fuel walk below i j w i_in j_in enough right =
      let w1 : Walk = record w { states = w.states + 1 } in
      elim (Bool-cases (ltb max_path_match_states w1.states)) [
        | inl over ↦
            Right-eq pats paths fuel walk below i j w i_in j_in enough right
              (walk_new path_match pats paths walk i j w) (fails state_budget, w1) (ground arith)
              (tt, right)
        | inr within ↦ elim (Option-cases (charge w1)) [
          | inl q ↦
              Right-eq pats paths fuel walk below i j w i_in j_in enough right
                (walk_new path_match pats paths walk i j w) (fails aggregate_budget, charged w1)
                (ground arith)
                (
                  tt,
                  rw (charged-memo pats paths fuel walk below i j w i_in j_in enough right w1)
                      right,
                )
          | inr (w2, q) ↦
              let right2 : MemoSays pats paths w2.memo =
                rw (charge-memo pats paths fuel walk below i j w i_in j_in enough right w1 w2 q)
                  right in
              let (s, memo) =
                walk_step-Right pats paths fuel walk below i j w2 i_in j_in enough right2 in
              Right-eq pats paths fuel walk below i j w i_in j_in enough right
                (walk_new path_match pats paths walk i j w)
                (remember i j (walk_step path_match pats paths walk i j w2)) (ground arith)
                (s, (s, memo))
        ]
      ]

  walk-Right :
      (pats paths : List Bytes) (fuel : ℕ)
      → RightBelow pats paths fuel (walk path_match pats paths fuel)
  unfolding walk
  walk-Right pats paths zero i j w i_in j_in enough right = absurd (omega arith)
  walk-Right pats paths (suc fuel) i j w i_in j_in enough right =
      elim (Option-cases (recall i j w.memo)) [
        | inr (r, q) ↦ rw (q, walk) (recall-Says pats paths i j w.memo r right q, right)
        | inl q ↦
            rw (q, walk)
              (walk_new-Right pats paths fuel (walk path_match pats paths fuel)
                (walk-Right pats paths fuel) i j w i_in j_in enough right)
      ]

  -- The answer of `matchSegments` is right whatever the budget: `true` only if the pattern matches, and
  -- `false` only if it does not; and the walk always comes to an end, with an answer or an error.
  pub match_segments-Says :
      (pats paths : List Bytes) (aggregate : Option Budget)
      → Says path_match (match_segments path_match pats paths aggregate).0 pats paths
  unfolding match_segments
  match_segments-Says pats paths aggregate =
      (walk-Right pats paths (length pats + length paths + 1) 0 0
        (record { memo = []; states = 0; aggregate = aggregate }) (omega arith) (omega arith)
        (omega arith) tt).0
