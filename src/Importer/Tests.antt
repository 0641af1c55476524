-- ===== src/Importer/Tests.antt =====
-- The guard on the default branch at concrete inputs.
use bucketvcs.Prelude.{
  ◌≡◌, ◌≢◌, refl, not, ◌&&◌, [], ◌∷◌, none, some, if◌then◌else◌, length, Bytes, codes, eqb,
}
use bucketvcs.Prelude.Assoc.{Assoc, lookup, insert}
use bucketvcs.Prelude.Sort.{find_by}
use bucketvcs.Prelude.Int.{pos}
use bucketvcs.Prelude.Utf8.{to_utf8, utf8_from, rune_size, size_of_rune, byte_at}
use bucketvcs.Repo.Errors.{ok}
use bucketvcs.Repo.Keys.{RepoKeys}
use bucketvcs.Repo.Manifest.{object, str}
use bucketvcs.Repo.Memory.{Memory, memory}
use bucketvcs.Repo.RefStore.Shape.{RefShard, find_shard, DistinctShards}
use bucketvcs.Repo.RefStore.{
  Stage, Sha256, inline_ref_store, sharded_ref_store, deletes, stage_inline, stage_sharded,
  fetch_shard, lookup_sharded, shard_key,
}
use bucketvcs.Repo.RefStore.Grouping.{DistinctKeys, updated}
use bucketvcs.Importer.{
  passes, refuses_to_delete, is_some, default_branch_guard, default_branch_guard-inline,
  default_branch_guard-only_ref,
}

abbrev keys : RepoKeys
keys = record { tenant_id = codes "acme"; repo_id = codes "app"; prefix = codes "p/" }

abbrev sha : Sha256
sha = record { of_name = λ n. length n ∷ []; of_content = λ c. 17 ∷ [] }

abbrev branch : Bytes
branch = codes "refs/heads/main"

abbrev bucket : Memory
bucket = (codes "k0", object ((branch, str (codes "aa")) ∷ [])) ∷ []

abbrev main_shard : RefShard
main_shard = record {
  shard = codes "0f";
  key = codes "k0";
  hash = codes "sha256-11";
  ref_count = pos 1;
}

shards_distinct : DistinctShards (main_shard ∷ [])
unfolding find_by
shards_distinct = (refl, tt)

main_found : find_shard (shard_key sha branch) (main_shard ∷ []) ≡ some main_shard
unfolding find_by eqb shard_key bucketvcs.Repo.RefStore.hex_encode bucketvcs.Repo.RefStore.hex_digit
main_found = refl

main_fetched : fetch_shard sha memory bucket main_shard ≡ ok (some ((branch, codes "aa") ∷ []))
unfolding fetch_shard lookup eqb bucketvcs.Repo.RefStore.hash_shard_content
    bucketvcs.Repo.RefStore.hex_encode bucketvcs.Repo.RefStore.hex_digit
    bucketvcs.Repo.RefStore.unmarshal_refs bucketvcs.Repo.RefStore.unmarshal_entries insert to_utf8
    utf8_from rune_size size_of_rune byte_at
main_fetched = refl

branch_named : branch ≢ []
branch_named e = cc

default_branch_guard-only_ref_example :
    (st : Stage) × (stage_sharded sha memory keys bucket (main_shard ∷ []) ((branch, []) ∷ [])
      ≡ ok st)
    × (default_branch_guard sha memory bucket (sharded_ref_store (main_shard ∷ [])) st branch
        ≡ passes)
    × ((u : Memory) → lookup_sharded sha memory u st.new_ref_shards branch ≡ ok none)
default_branch_guard-only_ref_example =
    default_branch_guard-only_ref sha memory keys bucket (main_shard ∷ []) shards_distinct branch
      (codes "aa") main_shard branch_named main_found main_fetched

abbrev refs : Assoc Bytes
refs = (branch, codes "aa") ∷ []

abbrev deletion : Assoc Bytes
deletion = (branch, []) ∷ []

deletion_distinct : DistinctKeys deletion
unfolding lookup
deletion_distinct = (refl, tt)

default_branch_guard-inline_example :
    default_branch_guard sha memory bucket
      (inline_ref_store refs)
      (stage_inline refs deletion)
      branch
    ≡ (if is_some (lookup branch refs)
          && not (is_some (updated (lookup branch deletion) (lookup branch refs)))
        then refuses_to_delete
        else passes)
default_branch_guard-inline_example =
    default_branch_guard-inline sha memory bucket refs deletion branch deletion_distinct
      branch_named
