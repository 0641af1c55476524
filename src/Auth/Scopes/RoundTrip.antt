-- ===== src/Auth/Scopes/RoundTrip.antt =====
-- `ParseScopes` reads what `FormatScopes` writes (internal/auth/scopes.go).
use bucketvcs.Prelude.{
  ℕ, zero, suc, ◌+◌, ◌-◌, ◌*◌, ◌/◌, ◌%◌, ◌^◌, ◌≤◌, ◌<◌, ◌≡◌, ◌≢◌, refl, sym, ap, ap₂, ◌∙◌, ◌↔◌, ◌⊎◌,
  inl, inr, Bool, true, false, not, ◌&&◌, ◌||◌, List, [], ◌∷◌, ◌++◌, Option, none, some, arith, ltb,
  leb, ◌==◌, if◌then◌else◌, length, take, drop, Bytes, codes, eqb, has_prefix, has_suffix, contains,
  split, is_empty, Bool-cases, Option-cases, eqb_iff, eqb_refl, All, append-nil, append_assoc,
  length-append,
}
use bucketvcs.Auth.Scopes.{ScopeError, parse_scopes, format_scopes}

reads_back : ℕ ⊎ ScopeError → ℕ → Bool
reads_back (inl t) s = t == s
reads_back (inr e) s = false

reads_back_below : ℕ → Bool
reads_back_below zero = true
reads_back_below (suc n) = reads_back (parse_scopes (format_scopes n)) n && reads_back_below n

all_read_back : reads_back_below 128 ≡ true
unfolding reads_back_below reads_back parse_scopes format_scopes is_empty
    bucketvcs.Auth.Scopes.trim_space bucketvcs.Auth.Scopes.trim_right
    bucketvcs.Auth.Scopes.trim_left bucketvcs.Prelude.Words.and_word bucketvcs.Auth.Scopes.is_space
    eqb bucketvcs.Auth.Scopes.join_comma bucketvcs.Auth.Scopes.sort_names
    bucketvcs.Auth.Scopes.names_in bucketvcs.Auth.Scopes.has bucketvcs.Auth.Scopes.insert_name
    bucketvcs.Auth.Scopes.index_from bucketvcs.Auth.Scopes.parse_items split
    bucketvcs.Auth.Scopes.parse_scope bucketvcs.Auth.Scopes.scope_of_name
    bucketvcs.Prelude.Words.or_word
all_read_back = refl

reads_back-eq : (r : ℕ ⊎ ScopeError) (s : ℕ) → reads_back r s ≡ true → r ≡ inl s
unfolding reads_back
reads_back-eq (inl t) s h = ap inl (ground arith)
reads_back-eq (inr e) s h = cc

reads_back_at :
    (n s : ℕ)
    → reads_back_below n ≡ true
    → s < n
    → reads_back (parse_scopes (format_scopes s)) s ≡ true
unfolding reads_back_below
reads_back_at zero s h l = absurd (omega arith)
reads_back_at (suc n) s h l = elim (Bool-cases (s == n)) [
  | inl same ↦ let e : s ≡ n = ground arith in rw e (ground arith)
  | inr other ↦ reads_back_at n s (ground arith) (ground arith)
]

-- `ParseScopes` reads back what `FormatScopes` writes for every set of the seven scopes, the empty one
-- and the full one included.
pub parse-format : (s : ℕ) → s < 128 → parse_scopes (format_scopes s) ≡ inl s
parse-format s h =
    reads_back-eq (parse_scopes (format_scopes s)) s (reads_back_at 128 s all_read_back h)
