-- ===== src/Policy/Paths.antt =====
-- internal/policy/paths.go: the rules on paths that a push is held against. The rows of the database
-- are what a query gave, in its order, `none` where the query failed; `path.Match` is an argument.
pub mod First
mod Tests
use bucketvcs.Prelude.{ℕ, ◌*◌, ◌≡◌, Bool, true, false, List, [], ◌∷◌, Option, none, some, Bytes}
use bucketvcs.Policy.Match.{MatchError, Answer, answer, fails, Budget, match_path_with_budget}

-- `ProtectedPath`
pub record ProtectedPath : Type 0 where
  pub tenant : Bytes
  pub repo : Bytes
  pub refname_pattern : Bytes
  pub path_pattern : Bytes
  pub created_at : ℕ

-- What `CheckPaths` returns: nil, a `PolicyError` for a rule and a path, or another error.
pub data Verdict : Type 0 where
  allowed : Verdict
  blocked : ProtectedPath → Bytes → Verdict
  bad_pattern : ProtectedPath → MatchError → Verdict
  unreadable : Verdict

abbrev pub max_check_paths_match_states : ℕ
max_check_paths_match_states = 256 * 1024

module _ (path_match : Bytes → Bytes → Option Bool) (refname : Bytes) where
  -- The loop over the paths that changed.
  unfoldable pub check_changed :
      ProtectedPath → List Bytes → Option Budget → Verdict × Option Budget
  check_changed rule [] budget = (allowed, budget)
  check_changed rule (changed ∷ paths) budget =
      let (r, budget') = match_path_with_budget path_match rule.path_pattern changed budget in
      elim r [
        | fails e ↦ (bad_pattern rule e, budget')
        | answer true ↦ (blocked rule changed, budget')
        | answer false ↦ check_changed rule paths budget'
      ]

  -- The loop over the rules.
  unfoldable pub check_rules : List Bytes → List ProtectedPath → Option Budget → Verdict
  check_rules paths [] budget = allowed
  check_rules paths (rule ∷ rules) budget = elim (path_match rule.refname_pattern refname) [
    | none ↦ check_rules paths rules budget
    | some false ↦ check_rules paths rules budget
    | some true ↦
        let (v, budget') = check_changed rule paths budget in
        elim v [
          | allowed ↦ check_rules paths rules budget'
          | blocked r p ↦ blocked r p
          | bad_pattern r e ↦ bad_pattern r e
          | unreadable ↦ unreadable
        ]
  ]

  -- `CheckPaths`
  unfoldable pub check_paths : Option (List ProtectedPath) → List Bytes → Verdict
  check_paths listed [] = allowed
  check_paths none (changed ∷ paths) = unreadable
  check_paths (some rules) (changed ∷ paths) =
      check_rules (changed ∷ paths) rules
        (some (record { used = 0; limit = max_check_paths_match_states }))
