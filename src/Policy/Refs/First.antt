-- ===== src/Policy/Refs/First.antt =====
-- Which rule the check of internal/policy/policy.go reports.
use bucketvcs.Prelude.{
  ◌≡◌, refl, sym, ap, ◌⊎◌, inl, inr, Bool, true, false, List, [], ◌∷◌, ◌++◌, Option, none, some,
  arith, Bytes, eqb, Bool-cases, Option-cases, All,
}
use bucketvcs.Repo.RefStore.{null_oid_hex}
use bucketvcs.Policy.Refs.{
  ProtectedRef, Decision, accepted, deletion_blocked, force_push_blocked, bad_pattern,
  merge_base_failed, unreadable, is_deletion, is_update, judge, update_rules, check_update,
}

Decision-cases :
    (v : Decision)
    → (v ≡ accepted)
      ⊎ ((r : ProtectedRef) × ((v ≡ deletion_blocked r) ⊎ (v ≡ force_push_blocked r)))
      ⊎ ((r : ProtectedRef) × ((v ≡ bad_pattern r) ⊎ (v ≡ merge_base_failed r)))
      ⊎ (v ≡ unreadable)
Decision-cases accepted = inl refl
Decision-cases (deletion_blocked r) = inr (inl (r, inl refl))
Decision-cases (force_push_blocked r) = inr (inl (r, inr refl))
Decision-cases (bad_pattern r) = inr (inr (inl (r, inl refl)))
Decision-cases (merge_base_failed r) = inr (inr (inl (r, inr refl)))
Decision-cases unreadable = inr (inr (inr refl))

-- A rule of which a predicate holds, after rules of which another does not.
abbrev pub After :
    (ProtectedRef → Type 0) → (ProtectedRef → Type 0) → List ProtectedRef → ProtectedRef → Type 0
After P Q rules r =
    (before : List ProtectedRef) × (after : List ProtectedRef) × (rules ≡ before ++ r ∷ after)
    × All (λ r'. ¬ (Q r')) before
    × P r

After-head :
    (P Q : ProtectedRef → Type 0) (rules : List ProtectedRef) (r r' : ProtectedRef)
    → r' ≡ r
    → P r
    → After P Q (r ∷ rules) r'
After-head P Q rules r r' e p = rw e ([], rules, refl, tt, p)

After-cons :
    (P Q : ProtectedRef → Type 0) (rules : List ProtectedRef) (r r' : ProtectedRef)
    → ¬ (Q r)
    → After P Q rules r'
    → After P Q (r ∷ rules) r'
After-cons P Q rules r r' n (before, after, q, clear, p) =
    (r ∷ before, after, ap (r ∷◌) q, (n, clear), p)

module _ (path_match is_fast_forward : Bytes → Bytes → Option Bool)
    (refname old_oid new_oid : Bytes) where
  -- A rule is for the ref.
  abbrev pub Covers : ProtectedRef → Type 0
  Covers r = path_match r.refname_pattern refname ≡ some true

  -- A rule for the ref forbids its deletion, which the update is.
  abbrev pub ForbidsDeletion : ProtectedRef → Type 0
  ForbidsDeletion r = Covers r × (eqb new_oid null_oid_hex ≡ true) × (r.block_deletion ≡ true)

  -- A rule for the ref forbids to move it to a commit that is no descendant, which the update does.
  abbrev pub ForbidsForce : ProtectedRef → Type 0
  ForbidsForce r =
      Covers r
      × (eqb old_oid null_oid_hex ≡ false)
      × (eqb new_oid null_oid_hex ≡ false)
      × (r.block_force_push ≡ true)
      × (is_fast_forward old_oid new_oid ≡ some false)

  abbrev pub Forbids : ProtectedRef → Type 0
  Forbids r = ForbidsDeletion r ⊎ ForbidsForce r

  -- The rule cannot be told to permit the update: its pattern is bad, or it asks for an ancestry that
  -- git does not tell.
  abbrev pub Undecided : ProtectedRef → Type 0
  Undecided r =
      (path_match r.refname_pattern refname ≡ none)
      ⊎ ((r.block_force_push ≡ true) × (is_fast_forward old_oid new_oid ≡ none))

  -- What a decision says of one rule.
  abbrev JudgeSays : ProtectedRef → Decision → Type 0
  JudgeSays r accepted = ¬ (Forbids r)
  JudgeSays r (deletion_blocked r') = (r' ≡ r) × ForbidsDeletion r
  JudgeSays r (force_push_blocked r') = (r' ≡ r) × ForbidsForce r
  JudgeSays r (merge_base_failed r') = (r' ≡ r) × Undecided r
  JudgeSays r (bad_pattern r') = ⊥
  JudgeSays r unreadable = ⊥

  JudgeSays-eq : (r : ProtectedRef) (v v' : Decision) → v ≡ v' → JudgeSays r v → JudgeSays r v'
  JudgeSays-eq r v v' e s = rw (← e) s

  update-Says :
      (r : ProtectedRef)
      → Covers r
      → eqb new_oid null_oid_hex ≡ false
      → JudgeSays r (judge path_match is_fast_forward refname old_oid new_oid r)
  unfolding judge is_update is_deletion
  update-Says r covers n =
      let v = judge path_match is_fast_forward refname old_oid new_oid r in
      let says : (v' : Decision) → v ≡ v' → JudgeSays r v' → JudgeSays r v =
        λ v' e s. JudgeSays-eq r v' v (sym e) s in
      elim (Bool-cases (eqb old_oid null_oid_hex)) [
        | inl o ↦
            says accepted (ground arith)
              (λ x. elim x [ inl (_, n', _) ↦ cc | inr (_, o', _, _, _) ↦ cc ])
        | inr o ↦ elim (Bool-cases r.block_force_push) [
          | inr b ↦
              says accepted (ground arith)
                (λ x. elim x [ inl (_, n', _) ↦ cc | inr (_, _, _, b', _) ↦ cc ])
          | inl b ↦ elim (Option-cases (is_fast_forward old_oid new_oid)) [
            | inl f ↦ says (merge_base_failed r) (ground arith) (refl, inr (b, f))
            | inr (false, f) ↦
                says (force_push_blocked r) (ground arith) (refl, (covers, o, n, b, f))
            | inr (true, f) ↦
                says accepted (ground arith) (λ x. elim x [
                  | inl (_, n', _) ↦ cc
                  | inr (_, _, _, _, f') ↦ absurd (ground arith)
                ])
          ]
        ]
      ]

  judge-Says :
      (r : ProtectedRef)
      → Covers r
      → JudgeSays r (judge path_match is_fast_forward refname old_oid new_oid r)
  unfolding judge is_update is_deletion
  judge-Says r covers =
      let v = judge path_match is_fast_forward refname old_oid new_oid r in
      let says : (v' : Decision) → v ≡ v' → JudgeSays r v' → JudgeSays r v =
        λ v' e s. JudgeSays-eq r v' v (sym e) s in
      elim (Bool-cases (eqb new_oid null_oid_hex)) [
        | inr n ↦ update-Says r covers n
        | inl n ↦ elim (Bool-cases r.block_deletion) [
          | inl b ↦ says (deletion_blocked r) (ground arith) (refl, (covers, n, b))
          | inr b ↦
              says accepted (ground arith)
                (λ x. elim x [ inl (_, _, b') ↦ cc | inr (_, _, n', _, _) ↦ cc ])
        ]
      ]

  -- What a decision says of the rules.
  abbrev pub RulesSay : List ProtectedRef → Decision → Type 0
  RulesSay rules accepted = All (λ r. ¬ (Forbids r)) rules
  RulesSay rules (deletion_blocked r) = After ForbidsDeletion Forbids rules r
  RulesSay rules (force_push_blocked r) = After ForbidsForce Forbids rules r
  RulesSay rules (bad_pattern r) = After Undecided Forbids rules r
  RulesSay rules (merge_base_failed r) = After Undecided Forbids rules r
  RulesSay rules unreadable = ⊥

  RulesSay-cons :
      (r : ProtectedRef) (rules : List ProtectedRef) (v : Decision)
      → ¬ (Forbids r)
      → RulesSay rules v
      → RulesSay (r ∷ rules) v
  RulesSay-cons r rules accepted n s = (n, s)
  RulesSay-cons r rules (deletion_blocked r') n s =
      After-cons ForbidsDeletion Forbids rules r r' n s
  RulesSay-cons r rules (force_push_blocked r') n s = After-cons ForbidsForce Forbids rules r r' n s
  RulesSay-cons r rules (bad_pattern r') n s = After-cons Undecided Forbids rules r r' n s
  RulesSay-cons r rules (merge_base_failed r') n s = After-cons Undecided Forbids rules r r' n s
  RulesSay-cons r rules unreadable n s = s

  uncovered : (r : ProtectedRef) → ¬ (Covers r) → ¬ (Forbids r)
  uncovered r n (inl (c, _, _)) = n c
  uncovered r n (inr (c, _, _, _, _)) = n c

  update_rules-Say :
      (rules : List ProtectedRef)
      → RulesSay rules (update_rules path_match is_fast_forward refname old_oid new_oid rules)
  unfolding update_rules
  update_rules-Say [] = tt
  update_rules-Say (r ∷ rules) =
      let v = judge path_match is_fast_forward refname old_oid new_oid r in
      let rest = update_rules path_match is_fast_forward refname old_oid new_oid rules in
      let later = update_rules-Say rules in
      elim (Option-cases (path_match r.refname_pattern refname)) [
        | inl q ↦ rw (q, update_rules) (After-head Undecided Forbids rules r r refl (inl q))
        | inr (false, q) ↦
            rw (q, update_rules)
              (RulesSay-cons r rules rest (uncovered r (λ c. absurd (ground arith))) later)
        | inr (true, q) ↦
            let says : (v' : Decision) → v ≡ v' → JudgeSays r v' =
              λ v' e. JudgeSays-eq r v v' e (judge-Says r q) in
            elim (Decision-cases v) [
              | inl e ↦ rw (q, e, update_rules) (RulesSay-cons r rules rest (says accepted e) later)
              | inr (inl (r', inl e)) ↦
                  let (same, f) = says (deletion_blocked r') e in
                  rw (q, e, update_rules) (After-head ForbidsDeletion Forbids rules r r' same f)
              | inr (inl (r', inr e)) ↦
                  let (same, f) = says (force_push_blocked r') e in
                  rw (q, e, update_rules) (After-head ForbidsForce Forbids rules r r' same f)
              | inr (inr (inl (r', inl e))) ↦ absurd (says (bad_pattern r') e)
              | inr (inr (inl (r', inr e))) ↦
                  let (same, f) = says (merge_base_failed r') e in
                  rw (q, e, update_rules) (After-head Undecided Forbids rules r r' same f)
              | inr (inr (inr e)) ↦ absurd (says unreadable e)
            ]
      ]

  -- `CheckUpdate` over the rules that were read, in their order: if it accepts an update, no rule
  -- forbids it; if it blocks one, it names the first rule that forbids it, as a deletion or as a
  -- forced push; and otherwise it reports a rule with a bad pattern, or one that asks for an ancestry
  -- that git did not tell, with no rule before it that forbids the update.
  pub check_update-RulesSay :
      (rules : List ProtectedRef)
      → RulesSay rules
          (check_update path_match is_fast_forward refname old_oid new_oid (some rules))
  unfolding check_update
  check_update-RulesSay rules = update_rules-Say rules
