-- ===== src/Repo/Keys.antt =====
-- internal/repo/keys: the durable keys of a repository, and which names may stand in them.
pub mod Isolation
use bucketvcs.Prelude.{
  ℕ, zero, suc, ◌+◌, ◌-◌, ◌*◌, ◌≤◌, ◌<◌, ◌≡◌, ◌≢◌, refl, sym, ap, ◌∙◌, ◌↔◌, ◌⊎◌, inl, inr, Bool,
  true, false, not, ◌&&◌, ◌||◌, List, [], ◌∷◌, ◌++◌, Option, none, some, arith, ltb, leb, ◌==◌,
  if◌then◌else◌, length, take, drop, Bytes, codes, eqb, has_prefix, has_suffix, contains, split,
  is_empty, Bool-cases, Option-cases, eqb_iff, eqb_refl, All, append-nil, append_assoc,
  length-append,
}
use bucketvcs.Prelude.Assoc.{Assoc, lookup, insert, remove, lookup-insert, lookup-remove, map_laws}

pub data IdError : Type 0 where
  invalid_tenant_id invalid_repo_id : IdError

-- One byte of the class `[A-Za-z0-9_-]`.
unfoldable pub is_id_byte : ℕ → Bool
is_id_byte c =
    leb b'A' c && leb c b'Z'
    || leb b'a' c && leb c b'z'
    || leb b'0' c && leb c b'9'
    || c == b'_'
    || c == b'-'

unfoldable pub all_id_bytes : Bytes → Bool
all_id_bytes [] = true
all_id_bytes (c ∷ s) = is_id_byte c && all_id_bytes s

-- `idPattern.MatchString`
unfoldable pub matches_id_pattern : Bytes → Bool
matches_id_pattern s = leb 1 (length s) && leb (length s) 128 && all_id_bytes s

-- `ValidateID`
unfoldable pub validate_id : Bytes → Bool
validate_id s =
    if not (matches_id_pattern s)
    then false
    else if eqb s (codes ".") || eqb s (codes "..") || contains s (codes "..")
    then false
    else true

-- `Repo` of the package, with its computed prefix.
pub record RepoKeys : Type 0 where
  pub tenant_id : Bytes
  pub repo_id : Bytes
  pub prefix : Bytes

abbrev pub prefix_of : Bytes → Bytes → Bytes
prefix_of tenant_id repo_id =
    codes "tenants/" ++ (tenant_id ++ (codes "/repos/" ++ (repo_id ++ codes "/")))

-- `NewRepo`
unfoldable pub new_repo : Bytes → Bytes → RepoKeys ⊎ IdError
new_repo tenant_id repo_id =
    if not (validate_id tenant_id)
    then inr invalid_tenant_id
    else if not (validate_id repo_id)
    then inr invalid_repo_id
    else inl
        (record { tenant_id = tenant_id; repo_id = repo_id; prefix = prefix_of tenant_id repo_id })

module _ (r : RepoKeys) where
  unfoldable pub root_manifest_key : Bytes
  root_manifest_key = r.prefix ++ codes "manifest/root.json"

  unfoldable pub tx_prefix : Bytes
  tx_prefix = r.prefix ++ codes "tx/"

  unfoldable pub tx_record_key : Bytes → Bytes
  tx_record_key tx_id = r.prefix ++ (codes "tx/" ++ (tx_id ++ codes ".json"))

  unfoldable pub commit_marker_key : Bytes → Bytes
  commit_marker_key tx_id = tx_record_key tx_id ++ codes ".commit"

  unfoldable pub canonical_pack_key : Bytes → Bytes
  canonical_pack_key pack_hash =
      r.prefix ++ (codes "packs/canonical/" ++ (pack_hash ++ codes ".pack"))

  unfoldable pub generated_pack_key : Bytes → Bytes
  generated_pack_key pack_hash =
      r.prefix ++ (codes "packs/generated/" ++ (pack_hash ++ codes ".pack"))

  unfoldable pub pack_bitmap_key : Bytes → Bytes
  pack_bitmap_key pack_hash =
      r.prefix ++ (codes "packs/canonical/" ++ (pack_hash ++ codes ".bitmap"))

  unfoldable pub commit_graph_key : Bytes → Bytes
  commit_graph_key graph_hash =
      r.prefix ++ (codes "indexes/commit-graph/" ++ (graph_hash ++ codes ".bvcg"))

  unfoldable pub object_map_key : Bytes → Bytes
  object_map_key h = r.prefix ++ (codes "indexes/object-map/" ++ (h ++ codes ".bvom"))

  unfoldable pub reachability_key : Bytes → Bytes
  reachability_key h = r.prefix ++ (codes "indexes/reachability/" ++ (h ++ codes ".json"))

  unfoldable pub bundle_key : Bytes → Bytes
  bundle_key bundle_id = r.prefix ++ (codes "bundles/" ++ (bundle_id ++ codes ".bundle"))

  unfoldable pub bundle_manifest_key : Bytes → Bytes
  bundle_manifest_key bundle_id = r.prefix ++ (codes "bundles/" ++ (bundle_id ++ codes ".json"))

  unfoldable pub lfs_object_key : Bytes → Bytes
  lfs_object_key sha256 = r.prefix ++ (codes "lfs/objects/" ++ sha256)

  unfoldable pub hook_key : Bytes → Bytes → Bytes
  hook_key hook_id name = r.prefix ++ (codes "hooks/" ++ (hook_id ++ (codes "/" ++ name)))

  unfoldable pub gc_mark_key : Bytes → Bytes
  gc_mark_key mark_id = r.prefix ++ (codes "gc/marks/" ++ (mark_id ++ codes ".json"))

  unfoldable pub gc_sweep_key : Bytes → Bytes
  gc_sweep_key sweep_id = r.prefix ++ (codes "gc/sweeps/" ++ (sweep_id ++ codes ".json"))

  unfoldable pub ref_shard_key : Bytes → Bytes
  ref_shard_key shard_hash =
      r.prefix ++ (codes "manifest/ref-shards/" ++ (shard_hash ++ codes ".json"))

  unfoldable pub reachability_delta_prefix : Bytes
  reachability_delta_prefix = r.prefix ++ codes "indexes/reachability-delta/"

  unfoldable pub reachability_delta_key : Bytes → Bytes
  reachability_delta_key h =
      r.prefix ++ (codes "indexes/reachability-delta/" ++ (h ++ codes ".bvrd"))

  -- `none` is the panic of `checkPackArea` on an unknown area.
  unfoldable pub pack_idx_key : Bytes → Bytes → Option Bytes
  pack_idx_key pack_hash area =
      if not (eqb area (codes "canonical")) && not (eqb area (codes "generated"))
      then none
      else some
          (r.prefix ++ (codes "packs/" ++ (area ++ (codes "/" ++ (pack_hash ++ codes ".idx")))))
