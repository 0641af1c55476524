-- ===== src/Gc/LiveSet.antt =====
-- internal/gc/liveset.go: the keys that the current manifest protects from a sweep.
use bucketvcs.Prelude.{List, [], ◌∷◌, Option, none, some, if◌then◌else◌, Bytes, is_empty}
use bucketvcs.Prelude.Assoc.{Assoc}
use bucketvcs.Repo.Errors.{Result, ok, ◌>>=◌, ◌>>◌}
use bucketvcs.Repo.Keys.{RepoKeys, root_manifest_key, tx_record_key, commit_marker_key}
use bucketvcs.Repo.Manifest.{Json, RootHeader}
use bucketvcs.Repo.RefStore.Shape.{RefShard, validate_body}
use bucketvcs.Repo.Body.{PackEntry, IndexRef, ReachabilityRef, BundleEntry, WholeBody}

-- `LiveSet`
abbrev pub LiveSet : Type 0
LiveSet = List Bytes

-- A key that is not empty is added.
unfoldable pub add_key : Bytes → LiveSet → LiveSet
add_key key live = if is_empty key then live else key ∷ live

unfoldable pub add_packs : List PackEntry → LiveSet → LiveSet
add_packs [] live = live
add_packs (p ∷ packs) live =
    add_packs packs (add_key p.bitmap_key (add_key p.idx_key (add_key p.pack_key live)))

unfoldable pub add_index : Option IndexRef → LiveSet → LiveSet
add_index none live = live
add_index (some r) live = add_key r.key live

unfoldable pub add_deltas : List IndexRef → LiveSet → LiveSet
add_deltas [] live = live
add_deltas (r ∷ refs) live = add_deltas refs (add_key r.key live)

unfoldable pub add_reachability : Option ReachabilityRef → LiveSet → LiveSet
add_reachability none live = live
add_reachability (some r) live = add_deltas r.deltas live

unfoldable pub add_bundles : List BundleEntry → LiveSet → LiveSet
add_bundles [] live = live
add_bundles (b ∷ bundles) live =
    add_bundles bundles (add_key b.sidecar_key (add_key b.bundle_key live))

unfoldable pub add_shards : List RefShard → LiveSet → LiveSet
add_shards [] live = live
add_shards (sh ∷ shards) live = add_shards shards (add_key sh.key live)

unfoldable pub header_keys_of : RepoKeys → RootHeader → LiveSet
header_keys_of k h =
    if is_empty h.latest_tx
    then root_manifest_key k ∷ []
    else commit_marker_key k h.latest_tx ∷ tx_record_key k h.latest_tx ∷ root_manifest_key k ∷ []

unfoldable pub add_body : WholeBody → LiveSet → LiveSet
add_body b live = add_shards b.refs.ref_shards (
    add_bundles b.bundles (
      add_reachability b.indexes.reachability (
        add_index b.indexes.commit_graph
          (add_index b.indexes.object_map (add_packs b.packs live)))))

-- `UnmarshalBody`, over `json.Unmarshal` into the struct.
unfoldable pub unmarshal_body : (Assoc Json → Result WholeBody) → Assoc Json → Result WholeBody
unmarshal_body decode raw = do b ← decode raw; validate_body b.refs; ok b

-- `BuildLiveSet`. Its callers give up on an error, so no set comes with it. `none` is an empty text.
unfoldable pub build_live_set :
    (Assoc Json → Result WholeBody) → RepoKeys → RootHeader → Option (Assoc Json) → Result LiveSet
build_live_set decode k h none = ok (header_keys_of k h)
build_live_set decode k h (some raw) = do
  b ← unmarshal_body decode raw
  ok (add_body b (header_keys_of k h))
