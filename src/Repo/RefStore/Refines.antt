-- ===== src/Repo/RefStore/Refines.antt =====
-- Staging and publishing on shards does what applying the updates to one map of refs does.
use bucketvcs.Prelude.{
  ◌≡◌, refl, sym, ap, ◌∙◌, inl, inr, true, false, List, [], ◌∷◌, ◌++◌, Option, none, some, arith,
  if◌then◌else◌, Bytes, Bool-cases, Option-cases, All,
}
use bucketvcs.Prelude.Assoc.{Assoc, lookup}
use bucketvcs.Prelude.Sort.{
  member, keys_of, member-keys_of, member-sort, sort_by, find_by, find_by-append, find_by-sort_by,
  self,
}
use bucketvcs.Storage.{ObjectStore}
use bucketvcs.Repo.Errors.{ok, Result-cases}
use bucketvcs.Repo.Keys.{RepoKeys}
use bucketvcs.Repo.Manifest.{Content}
use bucketvcs.Repo.RefStore.Shape.{RefShard, find_shard, DistinctShards}
use bucketvcs.Repo.RefStore.{
  ShardWrite, Stage, mode_sharded, unmarshal_refs, lookup_in, or_empty, Sha256, index_shards,
  has_group, untouched, fetch_shard, load_shard, load_shards, publish_shard, stage_shard,
  stage_shards, loaded_at, apply_updates, has_upsert, lookup_sharded, stage_sharded, stage_groups,
  group_updates, shard_key,
}
use bucketvcs.Repo.RefStore.Encoding.{
  AllUtf8, apply_updates-AllUtf8, unmarshal_refs-AllUtf8, group_updates-AllUtf8,
}
use bucketvcs.Repo.RefStore.Grouping.{
  DistinctKeys, updated, apply_updates_lem, has_upsert-none, group_updates-DistinctGroups,
  group_updates_lem,
}
use bucketvcs.Repo.RefStore.Shards.{
  index_shards_lem, find-untouched, load_shards_lem, stage_shards-others, stage_shards-Staged,
}
use bucketvcs.Repo.RefStore.Publish.{
  All-find, fetch_shard-ok, Publishes, CollisionFree, Holds, lookup_found, Old, publish_shard_lem,
}

module _ (sha : Sha256) {S V : Type 0} (store : ObjectStore S Content V) (k : RepoKeys) where
  module _ (s s' : S) (collision_free : CollisionFree sha store k s) where
    module _ (shards : List RefShard) (distinct : DistinctShards shards)
        (kept : All (λ (sh : RefShard). store.get s' sh.key ≡ store.get s sh.key) shards) where
      lookup_kept :
          (n : Bytes)
          → lookup_found sha store k s' n (find_shard (shard_key sha n) shards)
            ≡ lookup_found sha store k s n (find_shard (shard_key sha n) shards)
      unfolding fetch_shard
      lookup_kept n = elim (Option-cases (find_shard (shard_key sha n) shards)) [
        | inl q ↦ rw q refl
        | inr (sh, q) ↦ rw q (
            rw
              (
                All-find (λ (sh : RefShard). store.get s' sh.key ≡ store.get s sh.key)
                    (shard_key sha n) shards sh kept q,
                fetch_shard,
              )
              refl)
      ]

      parsed-AllUtf8 :
          (c : Content) (refs : Option (Assoc Bytes))
          → unmarshal_refs c ≡ ok refs
          → AllUtf8 (or_empty refs)
      unfolding or_empty
      parsed-AllUtf8 c none h = tt
      parsed-AllUtf8 c (some refs) h = unmarshal_refs-AllUtf8 c refs h

      -- The old shard of a loaded one, and what a lookup found in it.
      loaded-Old :
          (n : Bytes) (refs : Option (Assoc Bytes)) (r : Option Bytes) (ex : Option RefShard)
          → find_shard (shard_key sha n) shards ≡ ex
          → load_shard sha store s (index_shards shards []) (shard_key sha n) ≡ ok refs
          → lookup_found sha store k s n (find_shard (shard_key sha n) shards) ≡ ok r
          → Old sha store k s s' collision_free ex
            × (lookup_in n refs ≡ r)
            × AllUtf8 (or_empty refs)
      unfolding load_shard lookup_in lookup or_empty
      loaded-Old n refs r none q l old =
          let e = index_shards_lem (shard_key sha n) shards [] distinct in
          let empty : some [] ≡ refs = ground arith in (tt, ground arith, rw (← empty) tt)
      loaded-Old n refs r (some sh) q l old =
          let e = index_shards_lem (shard_key sha n) shards [] distinct in
          let f : fetch_shard sha store s sh ≡ ok refs = ground arith in
          let (c, v, got, hashed, parsed) = fetch_shard-ok sha store k s sh refs f in
          (
            (
              All-find (λ (sh : RefShard). store.get s' sh.key ≡ store.get s sh.key)
                  (shard_key sha n) shards sh kept q,
              (c, v, got, hashed),
            ),
            ground arith,
            parsed-AllUtf8 c refs parsed,
          )

      -- A touched shard: what is found in its new content.
      touched_lookup :
          (n : Bytes) (g : Assoc Bytes) (refs : Option (Assoc Bytes)) (r : Option Bytes)
          (ex : Option RefShard) (ws : List ShardWrite) (shs : List RefShard)
          → Old sha store k s s' collision_free ex
          → lookup_in n refs ≡ r
          → AllUtf8 (or_empty refs)
          → AllUtf8 g
          → DistinctKeys g
          → stage_shard sha k (shard_key sha n) ex g refs ≡ ok (ws, shs)
          → All (Holds sha store k s') ws
          → lookup_found sha store k s' n (find_shard (shard_key sha n) shs)
            ≡ ok (updated (lookup n g) r)
      unfolding stage_shard lookup_in find_by or_empty
      touched_lookup n g none r ex ws shs old q a b d st hold = elim (Bool-cases (has_upsert g)) [
        | inl up ↦ absurd (ground arith)
        | inr down ↦ elim (Option-cases (lookup n g)) [
          | inl l ↦ ground arith
          | inr (oid, l) ↦ ground (arith, has_upsert-none n oid g down l)
        ]
      ]
      touched_lookup n g (some refs) r ex ws shs old q a b d st hold =
          let e : publish_shard sha k (shard_key sha n) ex (apply_updates g refs) ≡ (ws, shs) =
            ground arith in
          let found =
            publish_shard_lem sha store k s s' collision_free n (shard_key sha n) ex
              (apply_updates g refs) (apply_updates-AllUtf8 g refs b a) old (rw e hold) in
          (rw e at found) ∙ ap ok (apply_updates_lem n g refs d ∙ rw q refl)

      module _ (us : Assoc Bytes) (loaded : Assoc (Option (Assoc Bytes))) (ws : List ShardWrite)
          (shs : List RefShard) (d : DistinctKeys us) (valid : AllUtf8 us) where
        abbrev groups : Assoc (Assoc Bytes)
        groups = group_updates sha us []

        abbrev new_shards : List RefShard
        new_shards = sort_by (λ (sh : RefShard). sh.shard) (shs ++ untouched groups shards)

        module _ (load : load_shards sha store s (index_shards shards []) groups ≡ ok loaded)
            (stage : stage_shards sha k
                (index_shards shards [])
                groups
                loaded
                (sort_by self (keys_of groups))
              ≡ ok (ws, shs))
            (hold : All (Holds sha store k s') ws) (n : Bytes) (r : Option Bytes)
            (old : lookup_found sha store k s n (find_shard (shard_key sha n) shards) ≡ ok r) where
          find_new :
              find_shard (shard_key sha n) new_shards ≡ elim (find_shard (shard_key sha n) shs) [
                | some sh ↦ some sh
                | none ↦
                    if has_group (shard_key sha n) groups
                    then none
                    else find_shard (shard_key sha n) shards
              ]
          find_new =
              find_by-sort_by (λ (sh : RefShard). sh.shard) (shard_key sha n)
                (shs ++ untouched groups shards)
              ∙ (find_by-append (λ (sh : RefShard). sh.shard) (shard_key sha n) shs
                    (untouched groups shards)
                  ∙ ap
                      (λ rest. elim (find_shard (shard_key sha n) shs) [
                        | some sh ↦ some sh
                        | none ↦ rest
                      ])
                      (find-untouched (shard_key sha n) groups shards))

          assembled_untouched :
              lookup (shard_key sha n) groups ≡ none
              → lookup_found sha store k s' n (find_shard (shard_key sha n) new_shards)
                ≡ ok (updated (lookup n us) r)
          unfolding has_group or_empty lookup
          assembled_untouched q =
              let absent : member (shard_key sha n) (sort_by self (keys_of groups)) ≡ false =
                member-sort (shard_key sha n) (keys_of groups)
                ∙ (member-keys_of (shard_key sha n) groups ∙ rw q refl) in
              let f =
                stage_shards-others sha k (index_shards shards []) groups loaded (shard_key sha n)
                  (sort_by self (keys_of groups)) ws shs stage absent in
              let fresh : lookup n us ≡ none = ground (arith, group_updates_lem sha n us [] d) in
              let alone : has_group (shard_key sha n) groups ≡ false = rw (q, has_group) refl in
              let at_new : find_shard (shard_key sha n) new_shards
                  ≡ find_shard (shard_key sha n) shards =
                find_new ∙ rw f (rw alone refl) in
              rw fresh (rw at_new (lookup_kept n ∙ old))

          assembled_touched :
              (g : Assoc Bytes)
              → lookup (shard_key sha n) groups ≡ some g
              → lookup_found sha store k s' n (find_shard (shard_key sha n) new_shards)
                ≡ ok (updated (lookup n us) r)
          unfolding has_group or_empty lookup
          assembled_touched g q =
              let there : member (shard_key sha n) (sort_by self (keys_of groups)) ≡ true =
                member-sort (shard_key sha n) (keys_of groups)
                ∙ (member-keys_of (shard_key sha n) groups ∙ rw q refl) in
              let st =
                stage_shards-Staged sha k (index_shards shards []) groups loaded (shard_key sha n)
                  (Holds sha store k s') (sort_by self (keys_of groups)) ws shs stage there hold in
              let l =
                load_shards_lem sha store s (index_shards shards []) (shard_key sha n) groups g
                  loaded load q in
              let (o, found, fetched) =
                loaded-Old n (loaded_at (shard_key sha n) loaded) r
                  (find_shard (shard_key sha n) shards) refl l old in
              let alone : has_group (shard_key sha n) groups ≡ true = rw (q, has_group) refl in
              let distinct_group =
                group_updates-DistinctGroups sha us [] (λ sid. tt) (shard_key sha n) in
              let e : lookup n (or_empty (lookup (shard_key sha n) groups)) ≡ lookup n us =
                group_updates_lem sha n us [] d ∙ elim (Option-cases (lookup n us)) [
                  | inl z ↦ rw z refl
                  | inr (oid, z) ↦ rw z refl
                ] in
              let index = index_shards_lem (shard_key sha n) shards [] distinct in
              let same_existing : lookup (shard_key sha n) (index_shards shards [])
                  ≡ find_shard (shard_key sha n) shards =
                index ∙ elim (Option-cases (find_shard (shard_key sha n) shards)) [
                  | inl z ↦ rw z refl
                  | inr (sh, z) ↦ rw z refl
                ] in
              let at_new : find_shard (shard_key sha n) new_shards
                  ≡ find_shard (shard_key sha n) st.own_shards =
                find_new
                ∙ (elim (Option-cases (find_shard (shard_key sha n) shs)) [
                  | inl z ↦ rw z (rw alone refl)
                  | inr (sh, z) ↦ rw z refl
                ]
                    ∙ st.found) in
              rw at_new (
                rw (← e) (
                  touched_lookup n (or_empty (lookup (shard_key sha n) groups))
                    (loaded_at (shard_key sha n) loaded) r (find_shard (shard_key sha n) shards)
                    st.own_writes st.own_shards o found fetched
                    (group_updates-AllUtf8 sha us [] valid (λ sid. tt) (shard_key sha n))
                    distinct_group (rw same_existing at st.staged) st.own_hold))

      groups_lookup :
          (us : Assoc Bytes) (st : Stage) (n : Bytes) (r : Option Bytes)
          → DistinctKeys us
          → AllUtf8 us
          → stage_groups sha store k s shards (group_updates sha us []) ≡ ok st
          → All (Holds sha store k s') st.new_shard_objects
          → lookup_found sha store k s n (find_shard (shard_key sha n) shards) ≡ ok r
          → lookup_found sha store k s' n (find_shard (shard_key sha n) st.new_ref_shards)
            ≡ ok (updated (lookup n us) r)
      groups_lookup us st n r d valid h hold old =
          let groups = group_updates sha us [] in
          let existing = index_shards shards [] in
          elim (Result-cases (load_shards sha store s existing groups)) [
            | inr (e, q) ↦ absurd (ground arith)
            | inl (loaded, q) ↦
                elim (Result-cases
                  (stage_shards sha k existing groups loaded (sort_by self (keys_of groups)))) [
                    | inr (e, p) ↦ absurd (ground arith)
                    | inl ((ws, shs), p) ↦
                        let e : st ≡ record {
                          mode = mode_sharded;
                          new_inline_refs = [];
                          new_shard_objects = ws;
                          new_ref_shards = new_shards us loaded ws shs d valid;
                        } =
                          ground arith in
                        let hold' : All (Holds sha store k s') ws =
                          rw (ap (λ (x : Stage). x.new_shard_objects) e) at hold in
                        rw e (elim (Option-cases (lookup (shard_key sha n) groups)) [
                          | inl z ↦ assembled_untouched us loaded ws shs d valid q p hold' n r old z
                          | inr (g, z) ↦
                              assembled_touched us loaded ws shs d valid q p hold' n r old g z
                        ])
                  ]
          ]

  lookup_sharded-found :
      (s : S) (shards : List RefShard) (n : Bytes)
      → lookup_sharded sha store s shards n
        ≡ lookup_found sha store k s n (find_shard (shard_key sha n) shards)
  unfolding lookup_sharded
  lookup_sharded-found s shards n = elim (Option-cases (find_shard (shard_key sha n) shards)) [
    | inl z ↦ ground arith
    | inr (sh, z) ↦ ground arith
  ]

  -- After the objects of a stage are published, a lookup under its new shards finds what applying the
  -- updates to the old value gives: nothing for a deleted ref, the new value for a written one, and
  -- the old value for any other. The old shards have distinct ids, the updates distinct names that are
  -- valid UTF-8, as are their ids, and no object of the bucket has the hash of another content.
  pub stage_sharded-lookup :
      (s s' : S) (shards : List RefShard) (us : Assoc Bytes) (st : Stage) (n : Bytes)
      (r : Option Bytes)
      → CollisionFree sha store k s
      → DistinctShards shards
      → DistinctKeys us
      → AllUtf8 us
      → stage_sharded sha store k s shards us ≡ ok st
      → Publishes sha store k s s' shards st.new_shard_objects
      → lookup_sharded sha store s shards n ≡ ok r
      → lookup_sharded sha store s' st.new_ref_shards n ≡ ok (updated (lookup n us) r)
  unfolding stage_sharded lookup
  stage_sharded-lookup s s' shards [] st n r free distinct d valid h pub_ old =
      let e : shards ≡ st.new_ref_shards = ground arith in
      rw (← e) (
        lookup_sharded-found s' shards n
        ∙ (lookup_kept s s' free shards distinct pub_.kept n
            ∙ (sym (lookup_sharded-found s shards n) ∙ old)))
  stage_sharded-lookup s s' shards (u ∷ us) st n r free distinct d valid h pub_ old =
      lookup_sharded-found s' st.new_ref_shards n
      ∙ groups_lookup s s' free shards distinct pub_.kept (u ∷ us) st n r d valid h pub_.written
          (sym (lookup_sharded-found s shards n) ∙ old)
