-- ===== src/Policy/Refs/Tests.antt =====
-- A deletion, a forced push and a creation against two rules.
use bucketvcs.Prelude.{
  ◌≡◌, refl, Bool, true, false, ◌||◌, List, [], ◌∷◌, Option, some, Bytes, codes, eqb,
}
use bucketvcs.Repo.RefStore.{null_oid_hex}
use bucketvcs.Policy.Refs.{
  ProtectedRef, accepted, deletion_blocked, force_push_blocked, check_update, update_rules, judge,
  is_deletion, is_update,
}
use bucketvcs.Policy.Refs.First.{RulesSay, check_update-RulesSay}

abbrev plain_match : Bytes → Bytes → Option Bool
plain_match seg p = some (eqb seg (codes "*") || eqb seg p)

-- Nothing is a descendant of anything else.
abbrev unrelated : Bytes → Bytes → Option Bool
unrelated old_oid new_oid = some (eqb old_oid new_oid)

abbrev rule : Bytes → Bool → Bool → ProtectedRef
rule on deletion force = record {
  tenant = codes "acme";
  repo = codes "site";
  refname_pattern = on;
  block_deletion = deletion;
  block_force_push = force;
  created_at = 0;
}

abbrev rules : List ProtectedRef
rules = rule (codes "*") true false ∷ rule (codes "main") true true ∷ []

decisions :
    (check_update plain_match unrelated (codes "main") (codes "a1") null_oid_hex (some rules)
      ≡ deletion_blocked (rule (codes "*") true false))
    × (check_update plain_match unrelated (codes "main") (codes "a1") (codes "b2") (some rules)
        ≡ force_push_blocked (rule (codes "main") true true))
    × (check_update plain_match unrelated (codes "dev") (codes "a1") (codes "b2") (some rules)
        ≡ accepted)
    × (check_update plain_match unrelated (codes "main") null_oid_hex (codes "b2") (some rules)
        ≡ accepted)
unfolding check_update update_rules judge is_deletion is_update eqb
decisions = (refl, refl, refl, refl)

check_update-RulesSay_example :
    RulesSay plain_match unrelated
      (codes "main")
      (codes "a1")
      null_oid_hex
      rules
      (check_update plain_match unrelated (codes "main") (codes "a1") null_oid_hex (some rules))
check_update-RulesSay_example =
    check_update-RulesSay plain_match unrelated (codes "main") (codes "a1") null_oid_hex rules
