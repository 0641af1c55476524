-- ===== src/Policy/Paths/Tests.antt =====
-- A push against two rules: the second forbids one of the paths.
use bucketvcs.Prelude.{
  ◌≡◌, refl, Bool, ◌||◌, List, [], ◌∷◌, Option, none, some, Bytes, codes, eqb, has_prefix,
  has_suffix, contains, split, is_empty,
}
use bucketvcs.Policy.Paths.{
  ProtectedPath, allowed, blocked, unreadable, check_changed, check_rules, check_paths,
  max_check_paths_match_states,
}
use bucketvcs.Policy.Paths.First.{RulesSay, check_paths-RulesSay}

abbrev plain_match : Bytes → Bytes → Option Bool
plain_match seg p = some (eqb seg (codes "*") || eqb seg p)

abbrev rule : Bytes → Bytes → ProtectedPath
rule on path = record {
  tenant = codes "acme";
  repo = codes "site";
  refname_pattern = on;
  path_pattern = path;
  created_at = 0;
}

abbrev rules : List ProtectedPath
rules = rule (codes "dev") (codes "**") ∷ rule (codes "main") (codes "secrets/*") ∷ []

abbrev changed : List Bytes
changed = codes "README" ∷ codes "secrets/key" ∷ []

blocked_on_main :
    (check_paths plain_match (codes "main") (some rules) changed
      ≡ blocked (rule (codes "main") (codes "secrets/*")) (codes "secrets/key"))
    × (check_paths plain_match (codes "topic") (some rules) changed ≡ allowed)
    × (check_paths plain_match (codes "main") none changed ≡ unreadable)
unfolding check_paths check_rules eqb check_changed bucketvcs.Policy.Match.match_path_with_budget
    bucketvcs.Policy.Match.valid_pattern_syntax is_empty has_prefix has_suffix contains
    bucketvcs.Policy.Match.valid_segments split bucketvcs.Policy.Match.match_segments
    bucketvcs.Policy.Match.walk bucketvcs.Policy.Match.recall bucketvcs.Policy.Match.walk_new
    bucketvcs.Policy.Match.charge bucketvcs.Policy.Match.remember bucketvcs.Policy.Match.charged
    bucketvcs.Policy.Match.walk_one bucketvcs.Policy.Match.walk_star
    bucketvcs.Policy.Match.walk_step
blocked_on_main = (refl, refl, refl)

check_paths-RulesSay_example :
    RulesSay plain_match
      (codes "main")
      changed
      rules
      (some (record { used = 0; limit = max_check_paths_match_states }))
      (check_paths plain_match (codes "main") (some rules) changed)
check_paths-RulesSay_example = check_paths-RulesSay plain_match (codes "main") rules changed
