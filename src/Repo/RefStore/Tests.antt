-- ===== src/Repo/RefStore/Tests.antt =====
-- Runs of internal/repo/refstore, and its theorems at concrete inputs: the digest of a name is its
-- length, and one document has a digest of its own.
use bucketvcs.Prelude.{
  ℕ, zero, suc, ◌+◌, ◌-◌, ◌*◌, ◌≤◌, ◌<◌, ◌≡◌, ◌≢◌, refl, sym, ap, ap₂, ◌∙◌, ◌↔◌, ◌⊎◌, inl, inr,
  Bool, true, false, not, ◌&&◌, ◌||◌, List, [], ◌∷◌, ◌++◌, Option, none, some, arith, ltb, leb,
  ◌==◌, if◌then◌else◌, length, take, drop, Bytes, codes, eqb, has_prefix, has_suffix, contains,
  split, is_empty, Bool-cases, Option-cases, eqb_iff, eqb_refl, All, append-nil, append_assoc,
  length-append,
}
use bucketvcs.Prelude.Assoc.{Assoc, lookup, insert, remove}
use bucketvcs.Prelude.Sort.{sort_by, insert_by, find_by, member, keys_of}
use bucketvcs.Prelude.Int.{pos}
use bucketvcs.Prelude.Utf8.{
  to_utf8, utf8_from, rune_size, size_of_rune, byte_at, between, is_two, is_three, is_four,
}
use bucketvcs.Repo.Errors.{ok}
use bucketvcs.Repo.Keys.{RepoKeys, ref_shard_key}
use bucketvcs.Repo.Manifest.{Content, object, str}
use bucketvcs.Repo.Memory.{Memory, discrete_content, go_same, same_content, same_content_eq, memory}
use bucketvcs.Repo.RefStore.Shape.{
  RefShard, Body, find_shard, DistinctShards, validate_body, validate_body-Distinct,
  is_supported_ref_sharding,
}
use bucketvcs.Repo.RefStore.{
  ShardWrite, Stage, mode_sharded, deletes, marshal_shard_content, unmarshal_refs,
  unmarshal_entries, lookup_in, or_empty, Sha256, index_shards, has_group, untouched, fetch_shard,
  load_shard, load_shards, has_hash, key_for, publish_shard, stage_shard, stage_shards, loaded_at,
  apply_updates, hash_shard_content, hex_encode, hex_digit, has_upsert, lookup_sharded,
  stage_sharded, stage_groups, group_updates, shard_key, entries, at, stage_inline, stage_lookup,
}
use bucketvcs.Repo.RefStore.Encoding.{AllUtf8}
use bucketvcs.Repo.RefStore.Grouping.{DistinctKeys, updated}
use bucketvcs.Repo.RefStore.Total.{stage_sharded_total}
use bucketvcs.Repo.RefStore.Publish.{Publishes, CollisionFree}
use bucketvcs.Repo.RefStore.Refines.{stage_sharded-lookup}

abbrev keys : RepoKeys
keys = record { tenant_id = codes "acme"; repo_id = codes "app"; prefix = codes "p/" }

abbrev main_content : Content
main_content = object ((codes "refs/heads/main", str (codes "aa")) ∷ [])

unfoldable digest : Content → Bytes
digest c = if same_content main_content c then 17 ∷ [] else 34 ∷ []

abbrev sha : Sha256
sha = record { of_name = λ n. length n ∷ []; of_content = digest }

abbrev before : Memory
before = (codes "k0", main_content) ∷ []

abbrev main_shard : RefShard
main_shard = record {
  shard = codes "0f";
  key = codes "k0";
  hash = codes "sha256-11";
  ref_count = pos 1;
}

abbrev updates : Assoc Bytes
updates = (codes "refs/heads/dev", codes "bb") ∷ (codes "refs/heads/main", []) ∷ []

abbrev dev_content : Content
dev_content = object ((codes "refs/heads/dev", str (codes "bb")) ∷ [])

abbrev dev_write : ShardWrite
dev_write = record {
  shard = codes "0e";
  key = codes "p/manifest/ref-shards/sha256-22.json";
  hash = codes "sha256-22";
  contents = dev_content;
}

abbrev staged : Stage
staged = record {
  mode = mode_sharded;
  new_inline_refs = [];
  new_shard_objects = dev_write ∷ [];
  new_ref_shards =
      record {
        shard = codes "0e";
        key = codes "p/manifest/ref-shards/sha256-22.json";
        hash = codes "sha256-22";
        ref_count = pos 1;
      }
      ∷ [];
}

stage_ok : stage_sharded sha memory keys before (main_shard ∷ []) updates ≡ ok staged
unfolding stage_sharded digest load_shards group_updates insert eqb shard_key hex_encode hex_digit
    load_shard lookup index_shards fetch_shard hash_shard_content native.Mathlib.Decide.ℕ_discrete
    unmarshal_refs unmarshal_entries stage_shards sort_by remove insert_by keys_of is_empty
    bucketvcs.Prelude.lex_lt ref_shard_key discrete_content go_same same_content apply_updates at
    deletes entries has_group has_hash has_upsert key_for marshal_shard_content or_empty
    publish_shard stage_shard untouched to_utf8 utf8_from rune_size size_of_rune byte_at between
stage_ok = refl

abbrev after : Memory
after = (codes "p/manifest/ref-shards/sha256-22.json", dev_content) ∷ before

before_main : lookup_sharded sha memory before (main_shard ∷ []) (codes "refs/heads/dev") ≡ ok none
unfolding lookup_sharded digest find_by eqb shard_key hex_encode hex_digit
before_main = refl

digest_of_main : digest main_content ≡ 17 ∷ []
unfolding digest same_content go_same discrete_content eqb native.Mathlib.Decide.ℕ_discrete
digest_of_main = refl

digest_of_other : (d : Content) → same_content main_content d ≡ false → digest d ≡ 34 ∷ []
unfolding digest
digest_of_other d h = rw h refl

digests_differ :
    (d : Content)
    → same_content main_content d ≡ false
    → eqb (hash_shard_content sha main_content) (hash_shard_content sha d) ≡ false
unfolding hash_shard_content eqb hex_encode hex_digit
digests_differ d h = rw (digest_of_main, digest_of_other d h) refl

digest_main :
    (d : Content)
    → hash_shard_content sha main_content ≡ hash_shard_content sha d
    → main_content ≡ d
digest_main d e = elim (Bool-cases (same_content main_content d)) [
  | inl same ↦ same_content_eq main_content d same
  | inr other ↦ cc (
    digests_differ d other,
    (eqb_iff (hash_shard_content sha main_content) (hash_shard_content sha d)).1 e,
  )
]

before-CollisionFree : CollisionFree sha memory keys before
unfolding lookup
before-CollisionFree key c d v got e = elim (Bool-cases (eqb (codes "k0") key)) [
  | inl same ↦ let q : main_content ≡ c = ground arith in rw (← q) (digest_main d (rw q e))
  | inr other ↦ absurd (ground arith)
]

published : Publishes sha memory keys before after (main_shard ∷ []) (dev_write ∷ [])
unfolding lookup eqb
published = record { written = ((dev_content, refl), tt); kept = (refl, tt) }

shards_distinct : DistinctShards (main_shard ∷ [])
unfolding find_by
shards_distinct = (refl, tt)

names_distinct : DistinctKeys updates
unfolding lookup eqb
names_distinct = (refl, (refl, tt))

updates_valid : AllUtf8 updates
unfolding to_utf8 utf8_from rune_size size_of_rune byte_at between is_two is_three is_four
updates_valid = ((refl, refl), ((refl, refl), tt))

stage_sharded-lookup_example :
    lookup_sharded sha memory after staged.new_ref_shards (codes "refs/heads/dev")
    ≡ ok (updated (lookup (codes "refs/heads/dev") updates) none)
stage_sharded-lookup_example =
    stage_sharded-lookup sha memory keys before after (main_shard ∷ []) updates staged
      (codes "refs/heads/dev") none before-CollisionFree shards_distinct names_distinct
      updates_valid stage_ok published before_main

abbrev sharded_body : Body
sharded_body = record {
  default_branch = codes "refs/heads/main";
  refs = [];
  ref_sharding = codes "hash_v1";
  ref_shards =
      record {
        shard = codes "0f";
        key = codes "k0";
        hash = codes "sha256-0123456789abcdef0123456789abcdef0123456789abcdef0123456789abcdef";
        ref_count = pos 1;
      }
      ∷ [];
}

body_ok : validate_body sharded_body ≡ ok tt
unfolding validate_body is_empty is_supported_ref_sharding eqb
    bucketvcs.Repo.RefStore.Shape.validate_ref_shards
    bucketvcs.Repo.RefStore.Shape.validate_shards_from bucketvcs.Repo.RefStore.Shape.is_shard_id
    bucketvcs.Repo.RefStore.Shape.decodes_hex bucketvcs.Repo.RefStore.Shape.is_hex_digit
    bucketvcs.Repo.RefStore.Shape.to_lower bucketvcs.Repo.RefStore.Shape.is_shard_hash has_prefix
    bucketvcs.Prelude.Int.is_negative member
body_ok = refl

validate_body-Distinct_example :
    ((sharded_body.refs ≡ []) ⊎ (sharded_body.ref_shards ≡ []))
    × ((is_supported_ref_sharding sharded_body.ref_sharding ≡ true)
        ⊎ (sharded_body.ref_shards ≡ []))
    × DistinctShards sharded_body.ref_shards
validate_body-Distinct_example = validate_body-Distinct sharded_body body_ok

main_fetched :
    fetch_shard sha memory before main_shard
    ≡ ok (some ((codes "refs/heads/main", codes "aa") ∷ []))
unfolding fetch_shard digest lookup eqb hash_shard_content hex_encode same_content
    native.Mathlib.Decide.ℕ_discrete hex_digit unmarshal_refs unmarshal_entries insert to_utf8
    utf8_from rune_size size_of_rune byte_at between
main_fetched = refl

stage_sharded_total_example :
    (st : Stage) × (stage_sharded sha memory keys before (main_shard ∷ []) updates ≡ ok st)
stage_sharded_total_example =
    stage_sharded_total sha memory keys before (main_shard ∷ [])
      ((((codes "refs/heads/main", codes "aa") ∷ []), main_fetched), tt) updates

-- A name with a byte that is not UTF-8 is not found in the content that it was put into.
invalid_name_lost :
    (unmarshal_refs (marshal_shard_content ((codes "refs/heads/" ++ 255 ∷ [], codes "aa") ∷ []))
      ≡ ok (some ((codes "refs/heads/" ++ 239 ∷ 191 ∷ 189 ∷ [], codes "aa") ∷ [])))
unfolding unmarshal_refs unmarshal_entries marshal_shard_content entries at lookup insert sort_by
    insert_by keys_of eqb to_utf8 utf8_from rune_size size_of_rune byte_at between is_two is_three
    is_four
invalid_name_lost = refl
