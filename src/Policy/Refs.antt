-- ===== src/Policy/Refs.antt =====
-- internal/policy/policy.go: the rules on refs that one update is held against. The rows of the
-- database are what a query gave, in its order, `none` where the query failed; `path.Match` and the
-- answer of `git merge-base --is-ancestor` are arguments, `none` where they report an error.
pub mod First
mod Tests
use bucketvcs.Prelude.{
  ℕ, Bool, true, false, not, if◌then◌else◌, ◌&&◌, List, [], ◌∷◌, Option, none, some, Bytes, eqb,
}
use bucketvcs.Repo.RefStore.{null_oid_hex}

-- `ProtectedRef`
pub record ProtectedRef : Type 0 where
  pub tenant : Bytes
  pub repo : Bytes
  pub refname_pattern : Bytes
  pub block_deletion : Bool
  pub block_force_push : Bool
  pub created_at : ℕ

-- What `CheckUpdate` returns: nil, a `PolicyError` for a rule, or another error.
pub data Decision : Type 0 where
  accepted : Decision
  deletion_blocked force_push_blocked : ProtectedRef → Decision
  bad_pattern merge_base_failed : ProtectedRef → Decision
  unreadable : Decision

unfoldable pub is_deletion : Bytes → Bool
is_deletion new_oid = eqb new_oid null_oid_hex

unfoldable pub is_update : Bytes → Bytes → Bool
is_update old_oid new_oid = not (is_deletion new_oid) && not (eqb old_oid null_oid_hex)

module _ (path_match is_fast_forward : Bytes → Bytes → Option Bool)
    (refname old_oid new_oid : Bytes) where
  -- A rule whose pattern matches the ref.
  unfoldable pub judge : ProtectedRef → Decision
  judge r =
      if is_deletion new_oid && r.block_deletion
      then deletion_blocked r
      else if is_update old_oid new_oid && r.block_force_push
      then elim (is_fast_forward old_oid new_oid) [
        | none ↦ merge_base_failed r
        | some true ↦ accepted
        | some false ↦ force_push_blocked r
      ]
      else accepted

  -- The loop over the rules.
  unfoldable pub update_rules : List ProtectedRef → Decision
  update_rules [] = accepted
  update_rules (r ∷ rules) =
      let rest = update_rules rules in
      elim (path_match r.refname_pattern refname) [
        | none ↦ bad_pattern r
        | some false ↦ rest
        | some true ↦ elim (judge r) [
          | accepted ↦ rest
          | deletion_blocked r' ↦ deletion_blocked r'
          | force_push_blocked r' ↦ force_push_blocked r'
          | bad_pattern r' ↦ bad_pattern r'
          | merge_base_failed r' ↦ merge_base_failed r'
          | unreadable ↦ unreadable
        ]
      ]

  -- `CheckUpdate`
  unfoldable pub check_update : Option (List ProtectedRef) → Decision
  check_update none = unreadable
  check_update (some rules) = update_rules rules
