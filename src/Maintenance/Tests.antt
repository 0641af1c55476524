-- ===== src/Maintenance/Tests.antt =====
-- A repack of one pack while another was pushed, and the theorems of maintenance at that input.
use bucketvcs.Prelude.{
  ◌≡◌, refl, ◌⊎◌, inl, inr, Bool, true, false, List, [], ◌∷◌, Option, none, some, Bytes, codes,
  is_empty,
}
use bucketvcs.Prelude.Int.{ℤ, pos}
use bucketvcs.Repo.RefStore.Shape.{Body, RefShard}
use bucketvcs.Repo.Body.{PackEntry, IndexRef, WholeBody}
use bucketvcs.Maintenance.{
  MergeInput, CompactOnlyInput, nothing_to_repack, build_merged_body, build_compact_only_body,
}
use bucketvcs.Maintenance.Refs.{RefsAfter, merged-RefsAfter}
use bucketvcs.Maintenance.Live.{IsLive, IsReplaced, build_merged_body-IsLive}

abbrev pack_at : Bytes → PackEntry
pack_at key = record {
  pack_id = key;
  pack_key = key;
  idx_key = [];
  size_bytes = pos 20;
  object_count = pos 1;
  pack_checksum = [];
  bitmap_key = [];
}

abbrev index_at : Bytes → IndexRef
index_at key = record { key = key; hash = key; size_bytes = pos 32 }

abbrev old_body : WholeBody
old_body = record {
  refs = record {
    default_branch = codes "refs/heads/main";
    refs = [];
    ref_sharding = codes "hash_v1";
    ref_shards =
        record {
          shard = codes "0a";
          key = codes "shards/0a";
          hash = codes "sha256-aaaaaaaaaaaaaaaaaaaaaaaaaaaaaaaaaaaaaaaaaaaaaaaaaaaaaaaaaaaaaaaa";
          ref_count = pos 1;
        }
        ∷ [];
  };
  packs = pack_at (codes "old") ∷ pack_at (codes "pushed") ∷ [];
  indexes = record {
    object_map = none;
    commit_graph = none;
    reachability = some (record {
      base_manifest = codes "v00000001";
      deltas = index_at (codes "seen") ∷ index_at (codes "late") ∷ [];
    });
  };
  bundles = [];
}

abbrev repack : MergeInput
repack = record {
  p0_keys = codes "old" ∷ [];
  new_pack = pack_at (codes "new");
  new_object_map = index_at (codes "map");
  new_commit_graph = index_at (codes "graph");
  consumed_hashes = codes "seen" ∷ [];
  base_manifest = codes "v00000002";
}

abbrev compaction : CompactOnlyInput
compaction = record {
  compact_commit_graph = index_at (codes "graph");
  compacted_hashes = codes "seen" ∷ [];
  compact_base_manifest = codes "v00000002";
}

merged_packs :
    (build_merged_body old_body repack).packs
    ≡ pack_at (codes "new") ∷ pack_at (codes "pushed") ∷ []
unfolding build_merged_body bucketvcs.Maintenance.kept_packs bucketvcs.Prelude.Sort.member
    bucketvcs.Prelude.eqb
merged_packs = refl

merged-RefsAfter_example :
    RefsAfter old_body.refs (build_merged_body old_body repack).refs
    × RefsAfter old_body.refs (build_compact_only_body old_body compaction).refs
    × ((is_empty old_body.refs.ref_shards ≡ false) → nothing_to_repack old_body ≡ true)
unfolding bucketvcs.Repo.RefStore.Shape.validate_body bucketvcs.Prelude.is_empty
    bucketvcs.Repo.RefStore.Shape.is_supported_ref_sharding bucketvcs.Prelude.eqb
    bucketvcs.Repo.RefStore.Shape.validate_ref_shards
    bucketvcs.Repo.RefStore.Shape.validate_shards_from bucketvcs.Repo.RefStore.Shape.is_shard_id
    bucketvcs.Repo.RefStore.Shape.decodes_hex bucketvcs.Repo.RefStore.Shape.is_hex_digit
    bucketvcs.Repo.RefStore.Shape.to_lower bucketvcs.Repo.RefStore.Shape.is_shard_hash
    bucketvcs.Prelude.has_prefix bucketvcs.Prelude.Int.is_negative bucketvcs.Prelude.Sort.member
merged-RefsAfter_example = merged-RefsAfter old_body repack compaction refl

build_merged_body-IsLive_example :
    IsLive (codes "pushed") (build_merged_body old_body repack)
    ⊎ IsReplaced (codes "pushed") old_body repack
unfolding bucketvcs.Prelude.Sort.member bucketvcs.Gc.LiveSet.add_body
    bucketvcs.Gc.LiveSet.add_shards bucketvcs.Gc.LiveSet.add_key bucketvcs.Prelude.is_empty
    bucketvcs.Prelude.eqb bucketvcs.Gc.LiveSet.add_bundles bucketvcs.Gc.LiveSet.add_reachability
    bucketvcs.Gc.LiveSet.add_deltas bucketvcs.Gc.LiveSet.add_index bucketvcs.Gc.LiveSet.add_packs
build_merged_body-IsLive_example = build_merged_body-IsLive (codes "pushed") old_body repack refl
