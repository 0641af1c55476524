-- ===== src/Auth/Scopes.antt =====
-- internal/auth/scopes.go: the scopes of a token, as bits of a 64-bit word.
pub mod Grants
pub mod RoundTrip
mod Tests
use bucketvcs.Prelude.{
  ℕ, zero, suc, ◌+◌, ◌-◌, ◌*◌, ◌/◌, ◌%◌, ◌^◌, ◌≤◌, ◌<◌, ◌≡◌, ◌≢◌, refl, sym, ap, ap₂, ◌∙◌, ◌↔◌, ◌⊎◌,
  inl, inr, Bool, true, false, not, ◌&&◌, ◌||◌, List, [], ◌∷◌, ◌++◌, Option, none, some, arith, ltb,
  leb, ◌==◌, if◌then◌else◌, length, take, drop, Bytes, codes, eqb, has_prefix, has_suffix, contains,
  split, is_empty, Bool-cases, Option-cases, eqb_iff, eqb_refl, All, append-nil, append_assoc,
  length-append,
}
use bucketvcs.Prelude.Assoc.{Assoc, lookup, insert, remove, lookup-insert, lookup-remove, map_laws}
use bucketvcs.Prelude.Words.{bit, and_word, or_word, and_not_word}
use bucketvcs.Auth.Permissions.{Actor}

pub data ScopeError : Type 0 where
  invalid_scope insufficient_scope : ScopeError

-- `1 << i`
unfoldable pub scope_bit : ℕ → ℕ
scope_bit zero = 1
scope_bit (suc i) = 2 * scope_bit i

abbrev pub common_bits : ℕ → ℕ → ℕ
common_bits a b = and_word 64 a b

abbrev pub with_bits : ℕ → ℕ → ℕ
with_bits a b = or_word 64 a b

abbrev pub scope_legacy : ℕ
scope_legacy = 0

abbrev pub scope_mask_all : ℕ
scope_mask_all = 127

-- `scopeNames`
abbrev pub scope_names : List (ℕ × Bytes)
scope_names =
    (1, codes "repo:read")
    ∷ (2, codes "repo:write")
    ∷ (4, codes "repo:admin")
    ∷ (8, codes "lfs:read")
    ∷ (16, codes "lfs:write")
    ∷ (32, codes "webhook:admin")
    ∷ (64, codes "storage:admin")
    ∷ []

-- `Has`
unfoldable pub has : ℕ → ℕ → Bool
has s required = not (common_bits s required == 0)

-- `EffectiveScopes`, its three steps.
unfoldable pub raise_scopes : ℕ → ℕ → ℕ → ℕ
raise_scopes from to s = if has s from then with_bits s to else s

unfoldable pub effective_scopes : ℕ → ℕ
effective_scopes s = raise_scopes 16 8 (raise_scopes 2 1 (raise_scopes 4 (with_bits 2 1) s))

-- The names whose bit is set, in the order of the table.
unfoldable pub names_in : List (ℕ × Bytes) → ℕ → List Bytes
names_in [] s = []
names_in ((b, n) ∷ table) s = let rest = names_in table s in if has s b then n ∷ rest else rest

-- `strings.Join(names, ",")`
unfoldable pub join_comma : List Bytes → Bytes
join_comma [] = []
join_comma (n ∷ []) = n
join_comma (n ∷ m ∷ names) = n ++ b',' ∷ join_comma (m ∷ names)

-- `indexOfScopeName`, one higher: 0 for a name that the table has not.
unfoldable pub index_from : ℕ → List (ℕ × Bytes) → Bytes → ℕ
index_from i [] n = 0
index_from i ((b, m) ∷ table) n = if eqb m n then i else index_from (i + 1) table n

unfoldable pub insert_name : Bytes → List Bytes → List Bytes
insert_name n [] = n ∷ []
insert_name n (m ∷ names) =
    if ltb (index_from 1 scope_names m) (index_from 1 scope_names n)
    then m ∷ insert_name n names
    else n ∷ m ∷ names

-- `sort.SliceStable` by the index.
unfoldable pub sort_names : List Bytes → List Bytes
sort_names [] = []
sort_names (n ∷ names) = insert_name n (sort_names names)

-- `FormatScopes`
unfoldable pub format_scopes : ℕ → Bytes
format_scopes s =
    if s == scope_legacy
    then codes "legacy"
    else if common_bits s scope_mask_all == scope_mask_all
    then codes "all"
    else join_comma (sort_names (names_in scope_names s))

unfoldable pub is_space : ℕ → Bool
is_space c = c == 32 || leb 9 c && leb c 13

unfoldable pub trim_left : Bytes → Bytes
trim_left [] = []
trim_left (c ∷ s) = let rest = trim_left s in if is_space c then rest else c ∷ s

unfoldable pub trim_right : Bytes → Bytes
trim_right [] = []
trim_right (c ∷ s) = let rest = trim_right s in if is_empty rest && is_space c then [] else c ∷ rest

-- `strings.TrimSpace`, on ASCII.
unfoldable pub trim_space : Bytes → Bytes
trim_space s = trim_right (trim_left s)

-- `nameToScope`
unfoldable pub scope_of_name : List (ℕ × Bytes) → Bytes → Option ℕ
scope_of_name [] n = none
scope_of_name ((b, m) ∷ table) n = if eqb m n then some b else scope_of_name table n

-- The switch on one item.
unfoldable pub parse_scope : Bytes → Option ℕ
parse_scope tok =
    if eqb tok (codes "repo:*")
    then some 7
    else if eqb tok (codes "lfs:*")
    then some 24
    else scope_of_name scope_names tok

-- The loop over the items.
unfoldable pub parse_items : List Bytes → ℕ → ℕ ⊎ ScopeError
parse_items [] out = if out == 0 then inr invalid_scope else inl out
parse_items (raw ∷ items) out = elim (parse_scope (trim_space raw)) [
  | none ↦ inr invalid_scope
  | some sc ↦ parse_items items (with_bits out sc)
]

-- `ParseScopes`
unfoldable pub parse_scopes : Bytes → ℕ ⊎ ScopeError
parse_scopes text =
    let s = trim_space text in
    if is_empty s
    then inr invalid_scope
    else if eqb s (codes "all")
    then inl scope_mask_all
    else if eqb s (codes "legacy")
    then inl scope_legacy
    else parse_items (split b',' s) 0

-- `ValidateScopes`
unfoldable pub validate_scopes : ℕ → Option ScopeError
validate_scopes s =
    if s == scope_legacy
    then none
    else if not (and_not_word 64 s scope_mask_all == 0)
    then some invalid_scope
    else none

unfoldable pub check_actor : Option Actor → ℕ → Option ScopeError
check_actor none required = some insufficient_scope
check_actor (some actor) required =
    if actor.scopes == scope_legacy
    then none
    else if has (effective_scopes actor.scopes) required
    then none
    else some insufficient_scope

-- `CheckScope`
unfoldable pub check_scope : Option Actor → ℕ → Option ScopeError
check_scope actor required = if required == 0 then none else check_actor actor required
