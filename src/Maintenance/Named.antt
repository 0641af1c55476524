-- ===== src/Maintenance/Named.antt =====
-- Which keys the fields of a manifest body name, for the live set of internal/gc.
use bucketvcs.Prelude.{
  ◌≡◌, refl, Bool, false, not, ◌&&◌, ◌||◌, List, [], ◌∷◌, Option, none, some, arith, Bytes, eqb,
  is_empty,
}
use bucketvcs.Prelude.Sort.{member}
use bucketvcs.Repo.RefStore.Shape.{RefShard}
use bucketvcs.Repo.Body.{PackEntry, IndexRef, ReachabilityRef, BundleEntry, WholeBody}
use bucketvcs.Gc.LiveSet.{
  LiveSet, add_key, add_packs, add_index, add_deltas, add_reachability, add_bundles, add_shards,
  add_body,
}

-- Whether a field names the key.
unfoldable pub holds : Bytes → Bytes → Bool
holds key field = not (is_empty field) && eqb field key

unfoldable pub pack_holds : Bytes → PackEntry → Bool
pack_holds key p = holds key p.bitmap_key || holds key p.idx_key || holds key p.pack_key

unfoldable pub packs_hold : Bytes → List PackEntry → Bool
packs_hold key [] = false
packs_hold key (p ∷ ps) = pack_holds key p || packs_hold key ps

unfoldable pub index_holds : Bytes → Option IndexRef → Bool
index_holds key none = false
index_holds key (some r) = holds key r.key

unfoldable pub deltas_hold : Bytes → List IndexRef → Bool
deltas_hold key [] = false
deltas_hold key (r ∷ rs) = holds key r.key || deltas_hold key rs

unfoldable pub bundles_hold : Bytes → List BundleEntry → Bool
bundles_hold key [] = false
bundles_hold key (b ∷ bs) =
    (holds key b.sidecar_key || holds key b.bundle_key) || bundles_hold key bs

unfoldable pub shards_hold : Bytes → List RefShard → Bool
shards_hold key [] = false
shards_hold key (sh ∷ shs) = holds key sh.key || shards_hold key shs

abbrev pub deltas_of : Option ReachabilityRef → List IndexRef
deltas_of none = []
deltas_of (some r) = r.deltas

module _ (key : Bytes) where
  member-add_key :
      (k : Bytes) (live : LiveSet) → member key (add_key k live) ≡ (holds key k || member key live)
  unfolding member add_key holds
  member-add_key k live = ground arith

  member-add_packs :
      (ps : List PackEntry) (live : LiveSet)
      → member key (add_packs ps live) ≡ (packs_hold key ps || member key live)
  unfolding add_packs packs_hold pack_holds
  member-add_packs [] live = refl
  member-add_packs (p ∷ ps) live =
      let a = add_key p.pack_key live in
      let b = add_key p.idx_key a in
      ground (
        arith,
        member-add_packs ps (add_key p.bitmap_key b),
        member-add_key p.bitmap_key b,
        member-add_key p.idx_key a,
        member-add_key p.pack_key live,
      )

  member-add_index :
      (o : Option IndexRef) (live : LiveSet)
      → member key (add_index o live) ≡ (index_holds key o || member key live)
  unfolding add_index index_holds
  member-add_index none live = refl
  member-add_index (some r) live = member-add_key r.key live

  member-add_deltas :
      (rs : List IndexRef) (live : LiveSet)
      → member key (add_deltas rs live) ≡ (deltas_hold key rs || member key live)
  unfolding add_deltas deltas_hold
  member-add_deltas [] live = refl
  member-add_deltas (r ∷ rs) live =
      ground (arith, member-add_deltas rs (add_key r.key live), member-add_key r.key live)

  member-add_reachability :
      (o : Option ReachabilityRef) (live : LiveSet)
      → member key (add_reachability o live) ≡ (deltas_hold key (deltas_of o) || member key live)
  unfolding add_reachability deltas_hold
  member-add_reachability none live = refl
  member-add_reachability (some r) live = member-add_deltas r.deltas live

  member-add_bundles :
      (bs : List BundleEntry) (live : LiveSet)
      → member key (add_bundles bs live) ≡ (bundles_hold key bs || member key live)
  unfolding add_bundles bundles_hold
  member-add_bundles [] live = refl
  member-add_bundles (b ∷ bs) live =
      let a = add_key b.bundle_key live in
      ground (
        arith,
        member-add_bundles bs (add_key b.sidecar_key a),
        member-add_key b.sidecar_key a,
        member-add_key b.bundle_key live,
      )

  member-add_shards :
      (shs : List RefShard) (live : LiveSet)
      → member key (add_shards shs live) ≡ (shards_hold key shs || member key live)
  unfolding add_shards shards_hold
  member-add_shards [] live = refl
  member-add_shards (sh ∷ shs) live =
      ground (arith, member-add_shards shs (add_key sh.key live), member-add_key sh.key live)

  pub member-add_body :
      (b : WholeBody)
      → member key (add_body b []) ≡ (
          shards_hold key b.refs.ref_shards
          || (bundles_hold key b.bundles
              || (deltas_hold key (deltas_of b.indexes.reachability)
                  || (index_holds key b.indexes.commit_graph
                      || (index_holds key b.indexes.object_map || packs_hold key b.packs)))))
  unfolding add_body member
  member-add_body b =
      let p = add_packs b.packs [] in
      let o = add_index b.indexes.object_map p in
      let c = add_index b.indexes.commit_graph o in
      let r = add_reachability b.indexes.reachability c in
      let s = add_bundles b.bundles r in
      ground (
        arith,
        member-add_shards b.refs.ref_shards s,
        member-add_bundles b.bundles r,
        member-add_reachability b.indexes.reachability c,
        member-add_index b.indexes.commit_graph o,
        member-add_index b.indexes.object_map p,
        member-add_packs b.packs [],
      )
