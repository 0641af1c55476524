-- ===== src/Maintenance.antt =====
-- internal/maintenance/casmerge.go: the manifest bodies that a maintenance run commits over whatever the
-- root manifest has become since the run began.
pub mod Named
pub mod Live
pub mod Refs
mod Tests
use bucketvcs.Prelude.{
  ℕ, ◌≡◌, Bool, true, false, not, ◌&&◌, ◌||◌, List, [], ◌∷◌, Option, none, some, if◌then◌else◌,
  Bytes, is_empty,
}
use bucketvcs.Prelude.Sort.{member}
use bucketvcs.Repo.RefStore.Shape.{Body}
use bucketvcs.Repo.Body.{PackEntry, IndexRef, ReachabilityRef, Indexes, WholeBody}

-- `mergeInput`; the set of consumed hashes is a list.
pub record MergeInput : Type 0 where
  pub p0_keys : List Bytes
  pub new_pack : PackEntry
  pub new_object_map : IndexRef
  pub new_commit_graph : IndexRef
  pub consumed_hashes : List Bytes
  pub base_manifest : Bytes

-- `compactOnlyInput`
pub record CompactOnlyInput : Type 0 where
  pub compact_commit_graph : IndexRef
  pub compacted_hashes : List Bytes
  pub compact_base_manifest : Bytes

-- The packs that were not repacked.
unfoldable pub kept_packs : List Bytes → List PackEntry → List PackEntry
kept_packs p0 [] = []
kept_packs p0 (p ∷ ps) =
    let rest = kept_packs p0 ps in if member p.pack_key p0 then rest else p ∷ rest

-- The deltas that were not consumed.
unfoldable pub kept_deltas : List Bytes → List IndexRef → List IndexRef
kept_deltas consumed [] = []
kept_deltas consumed (r ∷ rs) =
    let rest = kept_deltas consumed rs in if member r.hash consumed then rest else r ∷ rest

-- `trimConsumedByHash`
unfoldable pub trim_consumed_by_hash :
    Option ReachabilityRef → List Bytes → Bytes → Bool → Option ReachabilityRef
trim_consumed_by_hash none consumed base_version advance =
    if is_empty consumed then none else some (record { base_manifest = base_version; deltas = [] })
trim_consumed_by_hash (some prev) consumed base_version advance =
    if is_empty consumed
    then (if not advance
        then some prev
        else some (record { base_manifest = base_version; deltas = prev.deltas }))
    else some (record { base_manifest = base_version; deltas = kept_deltas consumed prev.deltas })

-- The refs of a body in which neither `RefShards` nor `RefSharding` is set.
abbrev pub inline_of : Body → Body
inline_of b = record {
  default_branch = b.default_branch;
  refs = b.refs;
  ref_sharding = [];
  ref_shards = [];
}

-- `runPipeline`, the guard under which a run stops before it repacks.
unfoldable pub nothing_to_repack : WholeBody → Bool
nothing_to_repack m0 = is_empty m0.refs.refs || is_empty m0.packs

-- `buildMergedBody`
unfoldable pub build_merged_body : WholeBody → MergeInput → WholeBody
build_merged_body prev i = record {
  refs = inline_of prev.refs;
  packs = i.new_pack ∷ kept_packs i.p0_keys prev.packs;
  indexes = record {
    object_map = some i.new_object_map;
    commit_graph = some i.new_commit_graph;
    reachability =
        trim_consumed_by_hash prev.indexes.reachability i.consumed_hashes i.base_manifest true;
  };
  bundles = prev.bundles;
}

-- `buildCompactOnlyBody`
unfoldable pub build_compact_only_body : WholeBody → CompactOnlyInput → WholeBody
build_compact_only_body prev i = record {
  refs = inline_of prev.refs;
  packs = prev.packs;
  indexes = record {
    object_map = prev.indexes.object_map;
    commit_graph = some i.compact_commit_graph;
    reachability =
        trim_consumed_by_hash prev.indexes.reachability i.compacted_hashes i.compact_base_manifest
          false;
  };
  bundles = prev.bundles;
}
