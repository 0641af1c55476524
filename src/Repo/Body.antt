-- ===== src/Repo/Body.antt =====
-- internal/repo/manifest/body.go: the packs, indexes and bundles of a manifest body.
use bucketvcs.Prelude.{ℕ, List, Option, Bytes}
use bucketvcs.Prelude.Int.{ℤ}
use bucketvcs.Repo.RefStore.Shape.{Body}

-- `PackEntry`
pub record PackEntry : Type 0 where
  pub pack_id : Bytes
  pub pack_key : Bytes
  pub idx_key : Bytes
  pub size_bytes : ℤ
  pub object_count : ℤ
  pub pack_checksum : Bytes
  pub bitmap_key : Bytes

-- `IndexRef`
pub record IndexRef : Type 0 where
  pub key : Bytes
  pub hash : Bytes
  pub size_bytes : ℤ

-- `ReachabilityRef`
pub record ReachabilityRef : Type 0 where
  pub base_manifest : Bytes
  pub deltas : List IndexRef

-- `Indexes`
pub record Indexes : Type 0 where
  pub object_map : Option IndexRef
  pub commit_graph : Option IndexRef
  pub reachability : Option ReachabilityRef

-- `BundleEntry`
pub record BundleEntry : Type 0 where
  pub id : Bytes
  pub bundle_kind : Bytes
  pub bundle_key : Bytes
  pub sidecar_key : Bytes
  pub bundle_hash : Bytes
  pub covered_ref : Bytes
  pub tip_oid : Bytes
  pub covers_manifest_version : ℕ
  pub byte_size : ℤ
  pub generated_at : Bytes

-- `Body`, whose fields on refs are those of `Shape.Body`.
pub record WholeBody : Type 0 where
  pub refs : Body
  pub packs : List PackEntry
  pub indexes : Indexes
  pub bundles : List BundleEntry
