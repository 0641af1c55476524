-- ===== src/Repo/RefStore/Shape.antt =====
-- internal/repo/manifest: the refs of a manifest body, and the invariants that `UnmarshalBody` enforces.
use bucketvcs.Prelude.{
  ℕ, ◌+◌, ◌≡◌, refl, ◌⊎◌, inl, inr, Bool, true, false, not, ◌&&◌, ◌||◌, List, [], ◌∷◌, Option, none,
  some, arith, leb, ◌==◌, if◌then◌else◌, length, drop, Bytes, codes, eqb, has_prefix, lex_lt,
  lex_lt-irreflexive, lex_lt-transitive, is_empty, eqb_iff,
}
use bucketvcs.Prelude.Assoc.{Assoc}
use bucketvcs.Prelude.Int.{ℤ, is_negative}
use bucketvcs.Prelude.Sort.{member, find_by}
use bucketvcs.Repo.Errors.{invalid_manifest, Result, ok, err}

-- `RefShard`
pub record RefShard : Type 0 where
  pub shard : Bytes
  pub key : Bytes
  pub hash : Bytes
  pub ref_count : ℤ

-- `Body`, as far as refs go.
pub record Body : Type 0 where
  pub default_branch : Bytes
  pub refs : Assoc Bytes
  pub ref_sharding : Bytes
  pub ref_shards : List RefShard

unfoldable pub is_supported_ref_sharding : Bytes → Bool
is_supported_ref_sharding s = eqb s (codes "hash_v1")

unfoldable pub is_hex_digit : ℕ → Bool
is_hex_digit c = leb b'0' c && leb c b'9' || leb b'a' c && leb c b'f' || leb b'A' c && leb c b'F'

-- Whether `hex.DecodeString` succeeds.
unfoldable pub decodes_hex : Bytes → Bool
decodes_hex [] = true
decodes_hex (a ∷ []) = false
decodes_hex (a ∷ b ∷ s) = is_hex_digit a && is_hex_digit b && decodes_hex s

-- `strings.ToLower`, on ASCII.
unfoldable pub to_lower : Bytes → Bytes
to_lower [] = []
to_lower (c ∷ s) = (if leb b'A' c && leb c b'Z' then c + 32 else c) ∷ to_lower s

-- `isShardID`
unfoldable pub is_shard_id : Bytes → Bool
is_shard_id s =
    if not (length s == 2) then false else if not (decodes_hex s) then false else eqb s (to_lower s)

-- `isShardHash`
unfoldable pub is_shard_hash : Bytes → Bool
is_shard_hash h =
    if not (has_prefix h (codes "sha256-"))
    then false
    else let rest = drop 7 h in
      if not (length rest == 64)
      then false
      else if not (eqb rest (to_lower rest))
      then false
      else decodes_hex rest

-- The loop of `validateRefShards`: `prev` is none at the first shard.
unfoldable pub validate_shards_from : Option Bytes → List Bytes → List RefShard → Result (Unit {0})
validate_shards_from prev seen [] = ok tt
validate_shards_from prev seen (sh ∷ shs) =
    let rest = validate_shards_from (some sh.shard) (sh.hash ∷ seen) shs in
    if not (is_shard_id sh.shard)
    then err invalid_manifest
    else if not (is_shard_hash sh.hash)
    then err invalid_manifest
    else if is_empty sh.key
    then err invalid_manifest
    else if is_negative sh.ref_count
    then err invalid_manifest
    else if elim prev [ none ↦ false | some p ↦ not (lex_lt p sh.shard) ]
    then err invalid_manifest
    else if member sh.hash seen
    then err invalid_manifest
    else rest

-- `validateRefShards`
unfoldable pub validate_ref_shards : List RefShard → Result (Unit {0})
validate_ref_shards shards = validate_shards_from none [] shards

-- `validateBody`
unfoldable pub validate_body : Body → Result (Unit {0})
validate_body b =
    let has_refs = not (is_empty b.refs) in
    let has_shards = not (is_empty b.ref_shards) in
    let has_sharding_tag = not (is_empty b.ref_sharding) in
    if has_refs && has_shards
    then err invalid_manifest
    else if has_shards
    then (if not has_sharding_tag
        then err invalid_manifest
        else if not (is_supported_ref_sharding b.ref_sharding)
        then err invalid_manifest
        else validate_ref_shards b.ref_shards)
    else if has_sharding_tag
    then err invalid_manifest
    else ok tt

abbrev pub find_shard : Bytes → List RefShard → Option RefShard
find_shard = find_by (λ (sh : RefShard). sh.shard)

-- Each shard is the only one with its id.
abbrev pub DistinctShards : List RefShard → Type 0
DistinctShards [] = Unit
DistinctShards (sh ∷ shs) = (find_shard sh.shard shs ≡ none) × DistinctShards shs

validate_shards_from-above :
    (p : Bytes) (seen : List Bytes) (shs : List RefShard) (k : Bytes)
    → validate_shards_from (some p) seen shs ≡ ok tt
    → (lex_lt k p ≡ true) ⊎ (k ≡ p)
    → find_shard k shs ≡ none
unfolding validate_shards_from find_by
validate_shards_from-above p seen [] k h below = refl
validate_shards_from-above p seen (sh ∷ shs) k h below =
    let up : lex_lt p sh.shard ≡ true = ground arith in
    let k_up : lex_lt k sh.shard ≡ true = elim below [
      | inl lt ↦ lex_lt-transitive k p sh.shard lt up
      | inr e ↦ rw e up
    ] in
    ground (
      arith,
      eqb_iff sh.shard k,
      lex_lt-irreflexive k,
      validate_shards_from-above sh.shard (sh.hash ∷ seen) shs k,
    )

validate_shards_from-Distinct :
    (prev : Option Bytes) (seen : List Bytes) (shs : List RefShard)
    → validate_shards_from prev seen shs ≡ ok tt
    → DistinctShards shs
unfolding validate_shards_from
validate_shards_from-Distinct prev seen [] h = tt
validate_shards_from-Distinct prev seen (sh ∷ shs) h =
    let rest : validate_shards_from (some sh.shard) (sh.hash ∷ seen) shs ≡ ok tt = ground arith in
    (
      validate_shards_from-above sh.shard (sh.hash ∷ seen) shs sh.shard rest (inr refl),
      validate_shards_from-Distinct (some sh.shard) (sh.hash ∷ seen) shs rest,
    )

-- A body that `validateBody` accepts holds its refs in one way only, inline or in shards; a body with
-- shards names a supported strategy, and each of its shards is the only one with its id.
pub validate_body-Distinct :
    (b : Body)
    → validate_body b ≡ ok tt
    → ((b.refs ≡ []) ⊎ (b.ref_shards ≡ []))
      × ((is_supported_ref_sharding b.ref_sharding ≡ true) ⊎ (b.ref_shards ≡ []))
      × DistinctShards b.ref_shards
unfolding validate_body is_empty validate_ref_shards
validate_body-Distinct b h = Distinct_of b.refs b.ref_shards refl refl
  where
    Distinct_of :
        (refs : Assoc Bytes) (shards : List RefShard)
        → b.refs ≡ refs
        → b.ref_shards ≡ shards
        → ((refs ≡ []) ⊎ (shards ≡ []))
          × ((is_supported_ref_sharding b.ref_sharding ≡ true) ⊎ (shards ≡ []))
          × DistinctShards shards
    Distinct_of refs [] e f = (inr refl, inr refl, tt)
    Distinct_of (r ∷ refs) (sh ∷ shs) e f = absurd (ground arith)
    Distinct_of [] (sh ∷ shs) e f = (
      inl refl,
      inl (ground arith),
      validate_shards_from-Distinct none [] (sh ∷ shs) (ground arith),
    )
