-- ===== src/Importer.antt =====
-- internal/importer/buildcommit.go: the guard of `BuildAndCommit` on the default branch.
mod Tests
use bucketvcs.Prelude.{
  ℕ, zero, suc, ◌+◌, ◌-◌, ◌*◌, ◌≤◌, ◌<◌, ◌≡◌, ◌≢◌, refl, sym, ap, ap₂, ◌∙◌, ◌↔◌, ◌⊎◌, inl, inr,
  Bool, true, false, not, ◌&&◌, ◌||◌, List, [], ◌∷◌, ◌++◌, Option, none, some, arith, ltb, leb,
  ◌==◌, if◌then◌else◌, length, take, drop, Bytes, codes, eqb, has_prefix, has_suffix, contains,
  split, is_empty, Bool-cases, Option-cases, eqb_iff, eqb_refl, All, append-nil, append_assoc,
  length-append,
}
use bucketvcs.Prelude.Assoc.{Assoc, lookup, insert, remove, lookup-insert, lookup-remove, map_laws}
use mathlib.Core.Path.{subst}
use bucketvcs.Prelude.Sort.{find_by, find_by-sort_by, sort_by, insert_by, keys_of, self}
use bucketvcs.Storage.{ObjectStore}
use bucketvcs.Repo.Errors.{RepoError, lookup_not_in_stage, Result, ok, err, ◌>>=◌}
use bucketvcs.Repo.Keys.{RepoKeys}
use bucketvcs.Repo.Manifest.{Content}
use bucketvcs.Repo.RefStore.Shape.{RefShard, find_shard, DistinctShards}
use bucketvcs.Repo.RefStore.{
  Stage, mode_inline, mode_sharded, RefStore, inline_ref_store, sharded_ref_store, deletes,
  apply_updates, or_empty, Sha256, index_shards, has_group, untouched, fetch_shard, load_shard,
  load_shards, publish_shard, stage_shard, stage_shards, stage_sharded, stage_groups, stage_inline,
  lookup_sharded, lookup_in, group_updates, shard_key, stage_lookup, lookup_ref, stage_refs,
}
use bucketvcs.Repo.RefStore.Grouping.{DistinctKeys, updated, apply_updates_lem}
use bucketvcs.Repo.RefStore.Shards.{index_shards_lem, find-untouched}

-- How the guard ends.
pub data Guard : Type 0 where
  passes refuses_to_delete : Guard
  fails : RepoError → Guard

unfoldable pub is_some {ℓ} : {A : Type ℓ} → Option A → Bool
is_some none = false
is_some (some a) = true

-- Whether the branch is there after the stage.
unfoldable pub has_after : Bool → Result (Option Bytes) → Result Bool
has_after had_before (ok r) = ok (is_some r)
has_after had_before (err lookup_not_in_stage) = ok had_before
has_after had_before (err e) = err e

unfoldable pub judge : Bool → Result Bool → Guard
judge had_before (err e) = fails e
judge had_before (ok after) = if had_before && not after then refuses_to_delete else passes

module _ (sha : Sha256) {S V : Type 0} (store : ObjectStore S Content V) where
  -- The guard, with the refs before the stage.
  unfoldable pub default_branch_guard : S → RefStore → Stage → Bytes → Guard
  default_branch_guard s rs st default_branch =
      if is_empty default_branch then passes else elim (lookup_ref sha store s rs default_branch) [
        | err e ↦ fails e
        | ok before ↦
            judge (is_some before) (has_after (is_some before) (stage_lookup sha st default_branch))
      ]

  -- On inline refs the guard passes exactly the stages that leave a default branch that was there.
  pub default_branch_guard-inline :
      (s : S) (refs us : Assoc Bytes) (branch : Bytes)
      → DistinctKeys us
      → branch ≢ []
      → default_branch_guard s (inline_ref_store refs) (stage_inline refs us) branch ≡ (
          if is_some (lookup branch refs)
            && not (is_some (updated (lookup branch us) (lookup branch refs)))
          then refuses_to_delete
          else passes)
  unfolding default_branch_guard stage_inline stage_lookup lookup_ref has_after judge is_empty
  default_branch_guard-inline s refs us [] d ne = absurd (ne refl)
  default_branch_guard-inline s refs us (c ∷ branch) d ne =
      rw (apply_updates_lem (c ∷ branch) us refs d) refl

  module _ (k : RepoKeys) (s : S) (shards : List RefShard) (distinct : DistinctShards shards) where
    module _ (branch oid : Bytes) (sh : RefShard)
        (found : find_shard (shard_key sha branch) shards ≡ some sh)
        (fetched : fetch_shard sha store s sh ≡ ok (some ((branch, oid) ∷ []))) where
      abbrev one_group : Assoc (Assoc Bytes)
      one_group = (shard_key sha branch, (branch, []) ∷ []) ∷ []

      one_found : lookup (shard_key sha branch) (index_shards shards []) ≡ some sh
      unfolding lookup
      one_found = index_shards_lem (shard_key sha branch) shards [] distinct ∙ rw found refl

      one_loaded :
          load_shards sha store s (index_shards shards []) one_group
          ≡ ok ((shard_key sha branch, some ((branch, oid) ∷ [])) ∷ [])
      unfolding load_shards load_shard
      one_loaded = ground (arith, one_found, fetched)

      one_staged :
          stage_shards sha k
            (index_shards shards [])
            one_group
            ((shard_key sha branch, some ((branch, oid) ∷ [])) ∷ [])
            (shard_key sha branch ∷ [])
          ≡ ok ([], [])
      unfolding stage_shards stage_shard publish_shard lookup or_empty apply_updates deletes remove
          is_empty
      one_staged = ground (arith, eqb_refl (shard_key sha branch), eqb_refl branch)

      one_left :
          find_shard
            (shard_key sha branch)
            (sort_by (λ (sh : RefShard). sh.shard) (untouched one_group shards))
          ≡ none
      unfolding has_group lookup
      one_left =
          find_by-sort_by (λ (sh : RefShard). sh.shard) (shard_key sha branch)
            (untouched one_group shards)
          ∙ (find-untouched (shard_key sha branch) one_group shards
              ∙ ground (arith, eqb_refl (shard_key sha branch)))

    -- A default branch that is the only ref of its shard can be deleted: the stage that deletes it passes
    -- the guard, and afterwards no lookup finds the branch.
    pub default_branch_guard-only_ref :
        (branch oid : Bytes) (sh : RefShard)
        → branch ≢ []
        → find_shard (shard_key sha branch) shards ≡ some sh
        → fetch_shard sha store s sh ≡ ok (some ((branch, oid) ∷ []))
        → (st : Stage) × (stage_sharded sha store k s shards ((branch, []) ∷ []) ≡ ok st)
          × (default_branch_guard s (sharded_ref_store shards) st branch ≡ passes)
          × ((u : S) → lookup_sharded sha store u st.new_ref_shards branch ≡ ok none)
    unfolding stage_sharded load_shards load_shard stage_shards stage_shard publish_shard
        group_updates lookup insert remove or_empty sort_by insert_by keys_of apply_updates deletes
        is_empty default_branch_guard lookup_ref lookup_sharded stage_lookup has_after judge
        lookup_in is_some find_by has_group
    default_branch_guard-only_ref branch oid sh ne found fetched =
        let st : Stage = record {
          mode = mode_sharded;
          new_inline_refs = [];
          new_shard_objects = [];
          new_ref_shards =
              sort_by (λ (sh : RefShard). sh.shard)
                (untouched (one_group branch oid sh found fetched) shards);
        } in
        (
          st,
          rw (one_loaded branch oid sh found fetched)
              (rw (one_staged branch oid sh found fetched) refl),
          elim (Bool-cases (is_empty branch)) [
            | inl e ↦ ground arith
            | inr e ↦ ground (arith, eqb_refl branch)
          ],
          λ u. ground (arith, one_left branch oid sh found fetched),
        )
