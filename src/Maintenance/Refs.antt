-- ===== src/Maintenance/Refs.antt =====
-- What the bodies of internal/maintenance/casmerge.go say of the refs.
use bucketvcs.Prelude.{◌≡◌, refl, sym, ap, ◌∙◌, true, false, List, [], ◌∷◌, arith, Bytes, is_empty}
use bucketvcs.Repo.Errors.{ok}
use bucketvcs.Repo.RefStore.Shape.{Body, RefShard, validate_body}
use bucketvcs.Repo.RefStore.{inline_ref_store, new}
use bucketvcs.Repo.Body.{WholeBody}
use bucketvcs.Maintenance.{
  MergeInput, CompactOnlyInput, inline_of, nothing_to_repack, build_merged_body,
  build_compact_only_body,
}

-- The new body is valid. Its refs are those of the old body if that held them inline, and it has none
-- if the old body had shards.
abbrev pub RefsAfter : Body → Body → Type 0
RefsAfter old next =
    (validate_body next ≡ ok tt)
    × ((is_empty old.ref_shards ≡ true) → next ≡ old)
    × ((is_empty old.ref_shards ≡ false) → new next ≡ ok (inline_ref_store []))

is_empty-nil {ℓ} : {A : Type ℓ} (xs : List A) → is_empty xs ≡ true → xs ≡ []
unfolding is_empty
is_empty-nil [] h = refl
is_empty-nil (x ∷ xs) h = cc

module _ (old : Body) (valid : validate_body old ≡ ok tt) where
  inline_valid : validate_body (inline_of old) ≡ ok tt
  unfolding validate_body is_empty
  inline_valid = ground arith

  no_tag : is_empty old.ref_shards ≡ true → old.ref_sharding ≡ []
  unfolding validate_body
  no_tag h = is_empty-nil old.ref_sharding (ground arith)

  unchanged : is_empty old.ref_shards ≡ true → inline_of old ≡ old
  unchanged h =
      ap
        (λ (tag : Bytes). record {
          default_branch = old.default_branch;
          refs = old.refs;
          ref_sharding = tag;
          ref_shards = [];
        })
        (sym (no_tag h))
      ∙ ap
          (λ (shards : List RefShard). record {
            default_branch = old.default_branch;
            refs = old.refs;
            ref_sharding = old.ref_sharding;
            ref_shards = shards;
          })
          (sym (is_empty-nil old.ref_shards h))

  no_refs : is_empty old.ref_shards ≡ false → old.refs ≡ []
  unfolding validate_body
  no_refs h = is_empty-nil old.refs (ground arith)

  emptied : is_empty old.ref_shards ≡ false → new (inline_of old) ≡ ok (inline_ref_store [])
  unfolding new is_empty
  emptied h = ap (λ refs. ok (inline_ref_store refs)) (no_refs h)

  inline_of-RefsAfter : RefsAfter old (inline_of old)
  inline_of-RefsAfter = (inline_valid, unchanged, emptied)

  sharded-nothing_to_repack :
      (b : WholeBody) → b.refs ≡ old → is_empty old.ref_shards ≡ false → nothing_to_repack b ≡ true
  unfolding nothing_to_repack is_empty
  sharded-nothing_to_repack b e h =
      let none_left : b.refs.refs ≡ [] = ap (λ (o : Body). o.refs) e ∙ no_refs h in
      rw none_left refl

-- Over a valid manifest with inline refs, the body of a repack and that of a compaction have just the
-- refs and the default branch that the manifest has. Over a valid one with shards, both are valid
-- bodies without any ref, and a run that starts from one finds nothing to repack.
pub merged-RefsAfter :
    (prev : WholeBody) (i : MergeInput) (c : CompactOnlyInput)
    → validate_body prev.refs ≡ ok tt
    → RefsAfter prev.refs (build_merged_body prev i).refs
      × RefsAfter prev.refs (build_compact_only_body prev c).refs
      × ((is_empty prev.refs.ref_shards ≡ false) → nothing_to_repack prev ≡ true)
unfolding build_merged_body build_compact_only_body
merged-RefsAfter prev i c valid = (
  inline_of-RefsAfter prev.refs valid,
  inline_of-RefsAfter prev.refs valid,
  sharded-nothing_to_repack prev.refs valid prev refl,
)
