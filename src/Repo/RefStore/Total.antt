-- ===== src/Repo/RefStore/Total.antt =====
-- Staging on shards succeeds if every shard can be fetched.
use bucketvcs.Prelude.{
  ◌≡◌, refl, ◌∙◌, inl, inr, true, false, List, [], ◌∷◌, ◌++◌, Option, some, arith, Bytes, eqb,
  Bool-cases, Option-cases, eqb_refl, All,
}
use bucketvcs.Prelude.Assoc.{Assoc, lookup, insert, lookup-insert}
use mathlib.Core.Path.{subst}
use bucketvcs.Prelude.Sort.{member, keys_of, member-keys_of, member-sort, sort_by, self}
use bucketvcs.Storage.{ObjectStore}
use bucketvcs.Repo.Errors.{ok}
use bucketvcs.Repo.Keys.{RepoKeys}
use bucketvcs.Repo.Manifest.{Content}
use bucketvcs.Repo.RefStore.Shape.{RefShard}
use bucketvcs.Repo.RefStore.{
  ShardWrite, Stage, mode_sharded, or_empty, Sha256, index_shards, untouched, fetch_shard,
  load_shard, load_shards, publish_shard, apply_updates, stage_shard, stage_shards, loaded_at,
  stage_sharded, group_updates,
}
use bucketvcs.Repo.RefStore.Shards.{load_shards_lem}

All-of_member {κ} :
    (P : Bytes → Type κ) (ks : List Bytes) → ((k : Bytes) → member k ks ≡ true → P k) → All P ks
unfolding member
All-of_member P [] h = tt
All-of_member P (k ∷ ks) h =
    (h k (ground (arith, eqb_refl k)), All-of_member P ks (λ j m. h j (ground arith)))

module _ (sha : Sha256) {S V : Type 0} (store : ObjectStore S Content V) (k : RepoKeys)
    (s : S) where
  -- The shard is there, with the content that its hash names, and parses.
  abbrev pub IsFetched : RefShard → Type 0
  IsFetched sh = (refs : Assoc Bytes) × (fetch_shard sha store s sh ≡ ok (some refs))

  index-IsFetched :
      (sid : Bytes) (sh : RefShard) (shards : List RefShard) (acc : Assoc RefShard)
      → All IsFetched shards
      → ((sh' : RefShard) → lookup sid acc ≡ some sh' → IsFetched sh')
      → lookup sid (index_shards shards acc) ≡ some sh
      → IsFetched sh
  unfolding index_shards
  index-IsFetched sid sh [] acc h known q = known sh q
  index-IsFetched sid sh (x ∷ shards) acc (f, h) known q =
      index-IsFetched sid sh shards (insert x.shard x acc) h
        (λ sh' q'. elim (Bool-cases (eqb x.shard sid)) [
          | inl same ↦
              let e : x ≡ sh' = ground (arith, lookup-insert x.shard sid x acc) in
              subst IsFetched e f
          | inr other ↦ known sh' (ground (arith, lookup-insert x.shard sid x acc))
        ])
        q

  module _ (shards : List RefShard) (fetched : All IsFetched shards) where
    load_shard_total :
        (sid : Bytes)
        → (refs : Assoc Bytes) × (load_shard sha store s (index_shards shards []) sid
            ≡ ok (some refs))
    unfolding load_shard lookup
    load_shard_total sid = elim (Option-cases (lookup sid (index_shards shards []))) [
      | inl q ↦ ([], rw (q, load_shard) refl)
      | inr (sh, q) ↦
          let (refs, f) = index-IsFetched sid sh shards [] fetched (λ sh' n. cc) q in
          (refs, rw (q, load_shard) f)
    ]

    load_shards_total :
        (groups : Assoc (Assoc Bytes))
        → (loaded : Assoc (Option (Assoc Bytes))) × (load_shards sha store s
              (index_shards shards [])
              groups
            ≡ ok loaded)
    unfolding load_shards
    load_shards_total [] = ([], refl)
    load_shards_total ((sid, g) ∷ groups) =
        let (refs, f) = load_shard_total sid in
        let (loaded, h) = load_shards_total groups in ((sid, some refs) ∷ loaded, rw f (rw h refl))

    stage_shards_total :
        (groups : Assoc (Assoc Bytes)) (loaded : Assoc (Option (Assoc Bytes))) (ids : List Bytes)
        → All (λ sid. (refs : Assoc Bytes) × (loaded_at sid loaded ≡ some refs)) ids
        → (r : List ShardWrite × List RefShard) × (stage_shards sha k
              (index_shards shards [])
              groups
              loaded
              ids
            ≡ ok r)
    unfolding stage_shards stage_shard
    stage_shards_total groups loaded [] h = (([], []), refl)
    stage_shards_total groups loaded (sid ∷ ids) ((refs, f), h) =
        let (rest, e) = stage_shards_total groups loaded ids h in
        let own =
          publish_shard sha k sid (lookup sid (index_shards shards []))
            (apply_updates (or_empty (lookup sid groups)) refs) in
        ((own.0 ++ rest.0, own.1 ++ rest.1), rw f (rw e refl))

    loaded_total :
        (groups : Assoc (Assoc Bytes)) (loaded : Assoc (Option (Assoc Bytes)))
        → load_shards sha store s (index_shards shards []) groups ≡ ok loaded
        → (sid : Bytes) → member sid (sort_by self (keys_of groups)) ≡ true
        → (refs : Assoc Bytes) × (loaded_at sid loaded ≡ some refs)
    loaded_total groups loaded h sid m = elim (Option-cases (lookup sid groups)) [
      | inl q ↦
          let absent : member sid (keys_of groups) ≡ false =
            member-keys_of sid groups ∙ rw q refl in
          absurd (cc (member-sort sid (keys_of groups), absent, m))
      | inr (g, q) ↦
          let (refs, f) = load_shard_total sid in
          (
            refs,
            ground (
              arith,
              load_shards_lem sha store s (index_shards shards []) sid groups g loaded h q,
            ),
          )
    ]

    -- Staging on shards succeeds, whatever the updates are, if every shard is there with the content
    -- that its hash names and parses into a map.
    pub stage_sharded_total :
        (us : Assoc Bytes) → (st : Stage) × (stage_sharded sha store k s shards us ≡ ok st)
    unfolding stage_sharded
    stage_sharded_total [] = (_, refl)
    stage_sharded_total (u ∷ us) =
        let groups = group_updates sha (u ∷ us) [] in
        let (loaded, h) = load_shards_total groups in
        let (r, e) = stage_shards_total groups loaded (sort_by self (keys_of groups)) (
          All-of_member (λ sid. (refs : Assoc Bytes) × (loaded_at sid loaded ≡ some refs))
            (sort_by self (keys_of groups)) (loaded_total groups loaded h)) in
        let st : Stage = record {
          mode = mode_sharded;
          new_inline_refs = [];
          new_shard_objects = r.0;
          new_ref_shards = sort_by (λ (sh : RefShard). sh.shard) (r.1 ++ untouched groups shards);
        } in
        (st, rw h (rw e refl))
