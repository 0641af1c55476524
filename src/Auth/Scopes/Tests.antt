-- ===== src/Auth/Scopes/Tests.antt =====
-- Runs on scopes, and the theorems on them at concrete inputs.
use bucketvcs.Prelude.{
  ℕ, zero, suc, ◌+◌, ◌-◌, ◌*◌, ◌/◌, ◌%◌, ◌^◌, ◌≤◌, ◌<◌, ◌≡◌, ◌≢◌, refl, sym, ap, ap₂, ◌∙◌, ◌↔◌, ◌⊎◌,
  inl, inr, Bool, true, false, not, ◌&&◌, ◌||◌, List, [], ◌∷◌, ◌++◌, Option, none, some, arith, ltb,
  leb, ◌==◌, if◌then◌else◌, length, take, drop, Bytes, codes, eqb, has_prefix, has_suffix, contains,
  split, is_empty, Bool-cases, Option-cases, eqb_iff, eqb_refl, All, append-nil, append_assoc,
  length-append,
}
use bucketvcs.Auth.Permissions.{Actor}
use bucketvcs.Auth.Scopes.{
  ScopeError, invalid_scope, insufficient_scope, scope_bit, check_scope, parse_scopes,
  format_scopes,
}
use bucketvcs.Auth.Scopes.Grants.{grants, check_scope_lem}
use bucketvcs.Auth.Scopes.RoundTrip.{parse-format}

abbrev bot : Actor
bot = record { user_id = codes "u2"; name = codes "bot"; is_admin = false; scopes = 2 }

parsed_list : parse_scopes (codes " repo:read, lfs:* ") ≡ inl 25
unfolding parse_scopes is_empty bucketvcs.Auth.Scopes.trim_space bucketvcs.Auth.Scopes.trim_right
    bucketvcs.Auth.Scopes.trim_left bucketvcs.Auth.Scopes.is_space eqb
    bucketvcs.Auth.Scopes.parse_items split bucketvcs.Auth.Scopes.parse_scope
    bucketvcs.Auth.Scopes.scope_of_name bucketvcs.Prelude.Words.or_word
parsed_list = refl

parse_refuses :
    (parse_scopes (codes "repo:read,,lfs:read") ≡ inr invalid_scope)
    × (parse_scopes (codes " ") ≡ inr invalid_scope)
unfolding parse_scopes is_empty bucketvcs.Auth.Scopes.trim_space bucketvcs.Auth.Scopes.trim_right
    bucketvcs.Auth.Scopes.trim_left bucketvcs.Auth.Scopes.is_space eqb
    bucketvcs.Auth.Scopes.parse_items split bucketvcs.Auth.Scopes.parse_scope
    bucketvcs.Auth.Scopes.scope_of_name
parse_refuses = (refl, refl)

check_scope_lem_example :
    check_scope (some bot) (scope_bit 0)
    ≡ (if bot.scopes == 0 || grants bot.scopes 0 then none else some insufficient_scope)
check_scope_lem_example = check_scope_lem (some bot) 0 (omega arith)

parse-format_example : parse_scopes (format_scopes 25) ≡ inl 25
parse-format_example = parse-format 25 (omega arith)
