-- ===== src/Policy/Paths/First.antt =====
-- Which rule and which path the check of internal/policy/paths.go reports.
use bucketvcs.Prelude.{
  ◌≡◌, ◌≢◌, refl, sym, ap, ◌⊎◌, inl, inr, Bool, true, false, List, [], ◌∷◌, ◌++◌, Option, none,
  some, arith, Bytes, split, is_empty, Bool-cases, Option-cases, All, First,
}
use mathlib.Core.Path.{subst}
use bucketvcs.Policy.Match.{
  MatchError, out_of_fuel, Answer, answer, fails, Budget, valid_pattern_syntax,
  match_path_with_budget,
}
use bucketvcs.Policy.Match.Grammar.{Matches, Says}
use bucketvcs.Policy.Match.Sound.{match_segments-Says}
use bucketvcs.Policy.Paths.{
  ProtectedPath, Verdict, allowed, blocked, bad_pattern, unreadable, check_changed, check_rules,
  check_paths, max_check_paths_match_states,
}

Answer-cases :
    (r : Answer) → (r ≡ answer true) ⊎ (r ≡ answer false) ⊎ ((e : MatchError) × (r ≡ fails e))
Answer-cases (answer true) = inl refl
Answer-cases (answer false) = inr (inl refl)
Answer-cases (fails e) = inr (inr (e, refl))

Verdict-cases :
    (v : Verdict)
    → (v ≡ allowed)
      ⊎ ((r : ProtectedPath) × (p : Bytes) × (v ≡ blocked r p))
      ⊎ ((r : ProtectedPath) × (e : MatchError) × (v ≡ bad_pattern r e))
      ⊎ (v ≡ unreadable)
Verdict-cases allowed = inl refl
Verdict-cases (blocked r p) = inr (inl (r, p, refl))
Verdict-cases (bad_pattern r e) = inr (inr (inl (r, e, refl)))
Verdict-cases unreadable = inr (inr (inr refl))

module _ (path_match : Bytes → Bytes → Option Bool) where
  Says-eq :
      (r r' : Answer) (segs ps : List Bytes)
      → r ≡ r'
      → Says path_match r segs ps
      → Says path_match r' segs ps
  Says-eq r r' segs ps e s = rw (← e) s

  Says-ended :
      (e : MatchError) (segs ps : List Bytes) → Says path_match (fails e) segs ps → e ≢ out_of_fuel
  Says-ended e segs ps s q = Says-eq (fails e) (fails out_of_fuel) segs ps (ap fails q) s

  match_path-Says :
      (pattern p : Bytes) (budget : Option Budget)
      → Says path_match
          (match_path_with_budget path_match pattern p budget).0
          (split b'/' pattern)
          (split b'/' p)
  unfolding match_path_with_budget
  match_path-Says pattern p budget = elim (Bool-cases (valid_pattern_syntax path_match pattern)) [
    | inr q ↦ rw q tt
    | inl q ↦ elim (Bool-cases (is_empty p)) [
      | inl z ↦ rw (q, z) tt
      | inr z ↦
          rw (q, z) (match_segments-Says path_match (split b'/' pattern) (split b'/' p) budget)
    ]
  ]

module _ (path_match : Bytes → Bytes → Option Bool) (refname : Bytes) where
  -- A rule on paths forbids a push to the ref that changes the path.
  abbrev pub Forbids : ProtectedPath → Bytes → Type 0
  Forbids rule p =
      (path_match rule.refname_pattern refname ≡ some true)
      × Matches path_match (split b'/' rule.path_pattern) (split b'/' p)

  abbrev pub Permits : List Bytes → ProtectedPath → Type 0
  Permits paths rule = All (λ p. ¬ (Forbids rule p)) paths

  -- What the match of the rule against each of the paths leaves of the budget.
  abbrev pub spend_paths : ProtectedPath → List Bytes → Option Budget → Option Budget
  spend_paths rule [] budget = budget
  spend_paths rule (p ∷ paths) budget =
      spend_paths rule paths (match_path_with_budget path_match rule.path_pattern p budget).1

  -- What the rules leave of it: those that are for the ref are matched against every path.
  abbrev pub spend_rules : List Bytes → List ProtectedPath → Option Budget → Option Budget
  spend_rules paths [] budget = budget
  spend_rules paths (rule ∷ rules) budget =
      spend_rules paths rules (elim (path_match rule.refname_pattern refname) [
        | none ↦ budget
        | some false ↦ budget
        | some true ↦ spend_paths rule paths budget
      ])

  -- The match of the rule reports the error at one of the paths, with what the paths before it left of
  -- the budget, and the rule forbids none of these.
  abbrev pub Reports : ProtectedPath → List Bytes → Option Budget → MatchError → Type 0
  Reports rule paths budget e =
      (before : List Bytes) × (p : Bytes) × (after : List Bytes) × (paths ≡ before ++ p ∷ after)
      × All (λ q. ¬ (Forbids rule q)) before
      × ((match_path_with_budget path_match rule.path_pattern p (spend_paths rule before budget)).0
          ≡ fails e)
      × (e ≢ out_of_fuel)

  abbrev ChangedSays : ProtectedPath → List Bytes → Option Budget → Verdict × Option Budget → Type 0
  ChangedSays rule paths budget (allowed, left) =
      Permits paths rule × (left ≡ spend_paths rule paths budget)
  ChangedSays rule paths budget (blocked r p, left) = (r ≡ rule) × First (Forbids rule) paths p
  ChangedSays rule paths budget (bad_pattern r e, left) = (r ≡ rule) × Reports rule paths budget e
  ChangedSays rule paths budget (unreadable, left) = ⊥

  ChangedSays-cons :
      (rule : ProtectedPath) (c : Bytes) (paths : List Bytes) (budget : Option Budget) (v : Verdict)
      (left : Option Budget)
      → ¬ (Forbids rule c)
      → ChangedSays rule paths
          (match_path_with_budget path_match rule.path_pattern c budget).1
          (v, left)
      → ChangedSays rule (c ∷ paths) budget (v, left)
  ChangedSays-cons rule c paths budget allowed left n (s, q) = ((n, s), q)
  ChangedSays-cons rule c paths budget (blocked r p) left n (e, (before, after, q, clear, f)) =
      (e, (c ∷ before, after, ap (c ∷◌) q, (n, clear), f))
  ChangedSays-cons rule c paths budget (bad_pattern r e) left n
        (same, (before, p, after, q, clear, f, ended)) =
      (same, (c ∷ before, p, after, ap (c ∷◌) q, (n, clear), f, ended))
  ChangedSays-cons rule c paths budget unreadable left n s = s

  check_changed-Says :
      (rule : ProtectedPath) (paths : List Bytes) (budget : Option Budget)
      → path_match rule.refname_pattern refname ≡ some true
      → ChangedSays rule paths budget (check_changed path_match refname rule paths budget)
  unfolding check_changed
  check_changed-Says rule [] budget applies = (tt, refl)
  check_changed-Says rule (c ∷ paths) budget applies =
      let segs = split b'/' rule.path_pattern in
      let m = match_path_with_budget path_match rule.path_pattern c budget in
      let says = match_path-Says path_match rule.path_pattern c budget in
      elim (Answer-cases m.0) [
        | inl q ↦
            rw (q, check_changed)
              (
                refl,
                (
                  [],
                  paths,
                  refl,
                  tt,
                  (applies, Says-eq path_match m.0 (answer true) segs (split b'/' c) q says),
                ),
              )
        | inr (inl q) ↦
            rw (q, check_changed)
              (ChangedSays-cons rule c paths budget
                (check_changed path_match refname rule paths m.1).0
                (check_changed path_match refname rule paths m.1).1
                (λ (a, x). Says-eq path_match m.0 (answer false) segs (split b'/' c) q says x)
                (check_changed-Says rule paths m.1 applies))
        | inr (inr (e, q)) ↦
            rw (q, check_changed)
              (
                refl,
                (
                  [],
                  c,
                  paths,
                  refl,
                  tt,
                  q,
                  Says-ended path_match e segs (split b'/' c)
                      (Says-eq path_match m.0 (fails e) segs (split b'/' c) q says),
                ),
              )
      ]

  -- What a verdict says of the rules and of the paths that changed, when the check begins with that
  -- budget.
  abbrev pub RulesSay : List Bytes → List ProtectedPath → Option Budget → Verdict → Type 0
  RulesSay paths rules budget allowed = All (Permits paths) rules
  RulesSay paths rules budget (blocked r p) =
      (before : List ProtectedPath) × (after : List ProtectedPath) × (rules ≡ before ++ r ∷ after)
      × All (Permits paths) before
      × First (Forbids r) paths p
  RulesSay paths rules budget (bad_pattern r e) =
      (before : List ProtectedPath) × (after : List ProtectedPath) × (rules ≡ before ++ r ∷ after)
      × All (Permits paths) before
      × (path_match r.refname_pattern refname ≡ some true)
      × Reports r paths (spend_rules paths before budget) e
  RulesSay paths rules budget unreadable = ⊥

  RulesSay-cons :
      (paths : List Bytes) (rule : ProtectedPath) (rules : List ProtectedPath)
      (budget left : Option Budget) (v : Verdict)
      → left ≡ elim (path_match rule.refname_pattern refname) [
        | none ↦ budget
        | some false ↦ budget
        | some true ↦ spend_paths rule paths budget
      ]
      → Permits paths rule
      → RulesSay paths rules left v
      → RulesSay paths (rule ∷ rules) budget v
  RulesSay-cons paths rule rules budget left allowed l n s = (n, s)
  RulesSay-cons paths rule rules budget left (blocked r p) l n (before, after, q, clear, f) =
      (rule ∷ before, after, ap (rule ∷◌) q, (n, clear), f)
  RulesSay-cons paths rule rules budget left (bad_pattern r e) l n
        (before, after, q, clear, applies, f) =
      (
        rule ∷ before,
        after,
        ap (rule ∷◌) q,
        (n, clear),
        applies,
        subst (λ b. Reports r paths (spend_rules paths before b) e) l f,
      )
  RulesSay-cons paths rule rules budget left unreadable l n s = s

  ChangedSays-eq :
      (rule : ProtectedPath) (paths : List Bytes) (budget left : Option Budget) (v v' : Verdict)
      → v ≡ v'
      → ChangedSays rule paths budget (v, left)
      → ChangedSays rule paths budget (v', left)
  ChangedSays-eq rule paths budget left v v' e s = rw (← e) s

  RulesSay-head :
      (paths : List Bytes) (rule : ProtectedPath) (rules : List ProtectedPath) (r : ProtectedPath)
      (p : Bytes) (budget left : Option Budget)
      → ChangedSays rule paths budget (blocked r p, left)
      → RulesSay paths (rule ∷ rules) budget (blocked r p)
  RulesSay-head paths rule rules r p budget left (e, f) = ([], rules, ap (◌∷ rules) (sym e), tt, f')
    where
      f' : First (Forbids r) paths p
      f' = rw e f

  RulesSay-error :
      (paths : List Bytes) (rule : ProtectedPath) (rules : List ProtectedPath) (r : ProtectedPath)
      (e : MatchError) (budget : Option Budget)
      → rule ≡ r
      → path_match rule.refname_pattern refname ≡ some true
      → Reports rule paths budget e
      → RulesSay paths (rule ∷ rules) budget (bad_pattern r e)
  RulesSay-error paths rule rules r e budget same applies reports =
      subst (λ x. RulesSay paths (rule ∷ rules) budget (bad_pattern x e)) same
        ([], rules, refl, tt, applies, reports)

  unapplied :
      (rule : ProtectedPath) (paths : List Bytes)
      → path_match rule.refname_pattern refname ≢ some true
      → Permits paths rule
  unapplied rule [] n = tt
  unapplied rule (p ∷ paths) n = ((λ (a, x). n a), unapplied rule paths n)

  check_rules-Say :
      (paths : List Bytes) (rules : List ProtectedPath) (budget : Option Budget)
      → RulesSay paths rules budget (check_rules path_match refname paths rules budget)
  unfolding check_rules
  check_rules-Say paths [] budget = tt
  check_rules-Say paths (rule ∷ rules) budget =
      let go = check_changed path_match refname rule paths budget in
      let later = check_rules path_match refname paths rules in
      elim (Option-cases (path_match rule.refname_pattern refname)) [
        | inl q ↦
            rw (q, check_rules)
              (RulesSay-cons paths rule rules budget budget (later budget) (rw q refl)
                (unapplied rule paths (ground arith)) (check_rules-Say paths rules budget))
        | inr (false, q) ↦
            rw (q, check_rules)
              (RulesSay-cons paths rule rules budget budget (later budget) (rw q refl)
                (unapplied rule paths (ground arith)) (check_rules-Say paths rules budget))
        | inr (true, q) ↦
            let says = check_changed-Says rule paths budget q in
            elim (Verdict-cases go.0) [
              | inl v ↦
                  let (permits, left) = ChangedSays-eq rule paths budget go.1 go.0 allowed v says in
                  rw (q, v, check_rules)
                    (RulesSay-cons paths rule rules budget go.1 (later go.1) (rw q left) permits
                      (check_rules-Say paths rules go.1))
              | inr (inl (r, p, v)) ↦
                  rw (q, v, check_rules)
                    (RulesSay-head paths rule rules r p budget go.1
                      (ChangedSays-eq rule paths budget go.1 go.0 (blocked r p) v says))
              | inr (inr (inl (r, e, v))) ↦
                  let (same, reports) =
                    ChangedSays-eq rule paths budget go.1 go.0 (bad_pattern r e) v says in
                  rw (q, v, check_rules)
                    (RulesSay-error paths rule rules r e budget (sym same) q reports)
              | inr (inr (inr v)) ↦
                  absurd (ChangedSays-eq rule paths budget go.1 go.0 unreadable v says)
            ]
      ]

  -- `CheckPaths` over the rules that were read, in their order. If it allows the push, no rule for the
  -- ref matches a path that changed. If it blocks the push, it names the first rule that forbids a
  -- path that changed, and the first such path. It ends in no other way than these or with an error:
  -- then it names a rule for the ref, no rule before it forbids a path, and the match of that rule
  -- reported that error at a path before which the rule forbids none, with what all the matches until
  -- then left of the budget; the error is never that the fuel of the matcher ran out.
  pub check_paths-RulesSay :
      (rules : List ProtectedPath) (paths : List Bytes)
      → RulesSay paths rules
          (some (record { used = 0; limit = max_check_paths_match_states }))
          (check_paths path_match refname (some rules) paths)
  unfolding check_paths
  check_paths-RulesSay rules [] = vacuous rules
    where
      vacuous : (rs : List ProtectedPath) → All (Permits []) rs
      vacuous [] = tt
      vacuous (r ∷ rs) = (tt, vacuous rs)
  check_paths-RulesSay rules (c ∷ paths) =
      check_rules-Say (c ∷ paths) rules
        (some (record { used = 0; limit = max_check_paths_match_states }))
