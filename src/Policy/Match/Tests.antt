-- ===== src/Policy/Match/Tests.antt =====
-- Runs of the matcher, and its theorem at a concrete input: a segment matches itself, and `*` any.
use bucketvcs.Prelude.{
  ◌≡◌, refl, Bool, true, false, ◌||◌, List, [], ◌∷◌, Option, none, some, Bytes, codes, eqb,
  has_prefix, has_suffix, contains, split, is_empty,
}
use bucketvcs.Policy.Match.{
  MatchError, malformed, aggregate_budget, Answer, answer, fails, Budget, match_segments,
  match_path_with_budget, validate_path_pattern,
}
use bucketvcs.Policy.Match.Sound.{match_segments-Says}
use bucketvcs.Policy.Match.Grammar.{Says}

abbrev plain_match : Bytes → Bytes → Option Bool
plain_match seg p = some (eqb seg (codes "*") || eqb seg p)

abbrev segs : List Bytes
segs = codes "a" ∷ codes "**" ∷ codes "c" ∷ []

abbrev path : List Bytes
path = codes "a" ∷ codes "x" ∷ codes "y" ∷ codes "c" ∷ []

matched : (match_segments plain_match segs path none).0 ≡ answer true
unfolding match_segments bucketvcs.Policy.Match.walk bucketvcs.Policy.Match.recall
    bucketvcs.Policy.Match.walk_new bucketvcs.Policy.Match.charge bucketvcs.Policy.Match.remember
    bucketvcs.Policy.Match.walk_step eqb bucketvcs.Policy.Match.walk_one
    bucketvcs.Policy.Match.walk_star
matched = refl

trailing_wants_one :
    (match_path_with_budget plain_match (codes "secrets/**") (codes "secrets") none).0
    ≡ answer false
unfolding match_path_with_budget bucketvcs.Policy.Match.valid_pattern_syntax is_empty has_prefix
    has_suffix contains bucketvcs.Policy.Match.valid_segments split match_segments
    bucketvcs.Policy.Match.walk bucketvcs.Policy.Match.recall bucketvcs.Policy.Match.walk_new
    bucketvcs.Policy.Match.charge bucketvcs.Policy.Match.remember bucketvcs.Policy.Match.walk_step
    bucketvcs.Policy.Match.walk_one
trailing_wants_one = refl

budget_spent :
    match_path_with_budget plain_match
      (codes "a/b")
      (codes "a/b")
      (some (record { used = 0; limit = 2 }))
    ≡ (fails aggregate_budget, some (record { used = 3; limit = 2 }))
unfolding match_path_with_budget bucketvcs.Policy.Match.valid_pattern_syntax is_empty has_prefix
    has_suffix contains bucketvcs.Policy.Match.valid_segments split match_segments
    bucketvcs.Policy.Match.walk bucketvcs.Policy.Match.recall bucketvcs.Policy.Match.walk_new
    bucketvcs.Policy.Match.charge bucketvcs.Policy.Match.remember bucketvcs.Policy.Match.walk_step
    bucketvcs.Policy.Match.walk_one bucketvcs.Policy.Match.charged
budget_spent = refl

caps :
    (validate_path_pattern plain_match (codes "a/**/b/**") ≡ true)
    × (validate_path_pattern plain_match (codes "**/a/**/b/**") ≡ false)
    × (validate_path_pattern plain_match (codes "/a") ≡ false)
    × (validate_path_pattern plain_match (codes "a//b") ≡ false)
unfolding validate_path_pattern bucketvcs.Policy.Match.valid_pattern_syntax is_empty has_prefix
    has_suffix contains bucketvcs.Policy.Match.valid_segments split
    bucketvcs.Policy.Match.count_dbl_stars
caps = (refl, refl, refl, refl)

match_segments-Says_example :
    Says plain_match (match_segments plain_match segs path none).0 segs path
match_segments-Says_example = match_segments-Says plain_match segs path none
