-- ===== src/Repo/RefStore/Publish.antt =====
-- What a lookup finds in a shard that was published (internal/repo/refstore/sharded.go).
use bucketvcs.Prelude.{
  ◌≡◌, refl, ap, ◌∙◌, inl, inr, List, [], ◌∷◌, Option, none, some, arith, Bytes, eqb, is_empty,
  Bool-cases, eqb_iff, eqb_refl, All,
}
use bucketvcs.Prelude.Assoc.{Assoc, lookup}
use mathlib.Core.Path.{subst}
use bucketvcs.Prelude.Sort.{find_by}
use bucketvcs.Storage.{ObjectStore, ok as stored, Result-cases as stored_cases}
use bucketvcs.Repo.Errors.{Result, ok, ◌>>=◌}
use bucketvcs.Repo.Keys.{RepoKeys, ref_shard_key}
use bucketvcs.Repo.Manifest.{Content}
use bucketvcs.Repo.RefStore.Shape.{RefShard, find_shard}
use bucketvcs.Repo.RefStore.Encoding.{AllUtf8}
use bucketvcs.Repo.RefStore.{
  ShardWrite, marshal_shard_content, unmarshal_refs, lookup_in, Sha256, fetch_shard, has_hash,
  key_for, publish_shard, hash_shard_content,
}
use bucketvcs.Repo.RefStore.Shards.{unmarshal-marshal}

pub All-find {κ} :
    (P : RefShard → Type κ) (sid : Bytes) (shards : List RefShard) (sh : RefShard)
    → All P shards
    → find_shard sid shards ≡ some sh
    → P sh
unfolding find_by
All-find P sid [] sh h q = cc
All-find P sid (x ∷ shards) sh h q = elim (Bool-cases (eqb x.shard sid)) [
  | inl same ↦ let e : x ≡ sh = ground arith in subst P e h.0
  | inr other ↦ All-find P sid shards sh h.1 (ground arith)
]

module _ (sha : Sha256) {S V : Type 0} (store : ObjectStore S Content V) (k : RepoKeys) where
  pub fetch_shard-ok :
      (s : S) (sh : RefShard) (refs : Option (Assoc Bytes))
      → fetch_shard sha store s sh ≡ ok refs
      → (c : Content) × (v : V) × (store.get s sh.key ≡ stored (c, v))
        × (hash_shard_content sha c ≡ sh.hash)
        × (unmarshal_refs c ≡ ok refs)
  unfolding fetch_shard
  fetch_shard-ok s sh refs h = elim (stored_cases (store.get s sh.key)) [
    | inr (e, q) ↦ absurd (ground arith)
    | inl ((c, v), q) ↦
        (c, v, q, ground (arith, eqb_iff (hash_shard_content sha c) sh.hash), ground arith)
  ]

  pub fetch_shard-of :
      (s : S) (sh : RefShard) (c : Content) (v : V)
      → store.get s sh.key ≡ stored (c, v)
      → hash_shard_content sha c ≡ sh.hash
      → fetch_shard sha store s sh ≡ unmarshal_refs c
  unfolding fetch_shard
  fetch_shard-of s sh c v q h = ground (arith, eqb_iff (hash_shard_content sha c) sh.hash)

  -- The shards were published: every new object is there, and the objects of the old shards are as
  -- they were.
  pub record Publishes (s s' : S) (shards : List RefShard) (writes : List ShardWrite) : Type 0 where
    pub written :
        All (λ (w : ShardWrite). (v : V) × (store.get s' w.key ≡ stored (w.contents, v))) writes
    pub kept : All (λ (sh : RefShard). store.get s' sh.key ≡ store.get s sh.key) shards

  -- No object of the bucket has the hash of another content.
  abbrev pub CollisionFree : S → Type 0
  CollisionFree s =
      (key : Bytes) (c d : Content) (v : V)
      → store.get s key ≡ stored (c, v)
      → hash_shard_content sha c ≡ hash_shard_content sha d
      → c ≡ d

  abbrev pub Holds : S → ShardWrite → Type 0
  Holds s' w = (v : V) × (store.get s' w.key ≡ stored (w.contents, v))

  abbrev pub lookup_found : S → Bytes → Option RefShard → Result (Option Bytes)
  lookup_found s n none = ok none
  lookup_found s n (some sh) = fetch_shard sha store s sh >>= λ refs. ok (lookup_in n refs)

  pub lookup_found_content :
      (n : Bytes) (s' : S) (sh : RefShard) (refs : Assoc Bytes) (v : V)
      → AllUtf8 refs
      → store.get s' sh.key ≡ stored (marshal_shard_content refs, v)
      → hash_shard_content sha (marshal_shard_content refs) ≡ sh.hash
      → lookup_found s' n (some sh) ≡ ok (lookup n refs)
  unfolding lookup_in
  lookup_found_content n s' sh refs v a got h =
      let (out, parsed, same) = unmarshal-marshal n refs a in
      rw (fetch_shard-of s' sh (marshal_shard_content refs) v got h) (rw parsed (ap ok same))

  module _ (s s' : S) (collision_free : CollisionFree s) where
    -- What the loop knows of the old shard.
    abbrev pub Old : Option RefShard → Type 0
    Old none = Unit
    Old (some sh) =
        (store.get s' sh.key ≡ store.get s sh.key)
        × ((c : Content) × (v : V) × (store.get s sh.key ≡ stored (c, v))
            × (hash_shard_content sha c ≡ sh.hash))

    pub publish_shard_lem :
        (n sid : Bytes) (ex : Option RefShard) (refs : Assoc Bytes)
        → AllUtf8 refs
        → Old ex
        → All (Holds s') (publish_shard sha k sid ex refs).0
        → lookup_found s' n (find_shard sid (publish_shard sha k sid ex refs).1)
          ≡ ok (lookup n refs)
    unfolding publish_shard is_empty lookup find_by has_hash key_for
    publish_shard_lem n sid ex [] a old hold = refl
    publish_shard_lem n sid none (r ∷ refs) a old hold =
        let c = marshal_shard_content (r ∷ refs) in
        rw (eqb_refl sid) (
          lookup_found_content n s'
            (record {
              shard = sid;
              key = ref_shard_key k (hash_shard_content sha c);
              hash = hash_shard_content sha c;
              ref_count = _;
            })
            (r ∷ refs) hold.0.0 a hold.0.1 refl)
    publish_shard_lem n sid (some sh) (r ∷ refs) a (kept, (c, v, got, hashed)) hold =
        let d = marshal_shard_content (r ∷ refs) in
        let h = hash_shard_content sha d in
        elim (Bool-cases (eqb sh.hash h)) [
          | inl same ↦
              let e : hash_shard_content sha c ≡ h = hashed ∙ (eqb_iff sh.hash h).0 same in
              let got' : store.get s' sh.key ≡ stored (d, v) =
                kept ∙ (got ∙ rw (collision_free sh.key c d v got e) refl) in
              rw same (
                rw (eqb_refl sid) (
                  lookup_found_content n s'
                    (record { shard = sid; key = sh.key; hash = h; ref_count = _ }) (r ∷ refs) v a
                    got' refl))
          | inr other ↦
              let hold' : Holds s'
                  (record { shard = sid; key = ref_shard_key k h; hash = h; contents = d }) =
                (rw other at hold).0 in
              rw other (
                rw (eqb_refl sid) (
                  lookup_found_content n s'
                    (record { shard = sid; key = ref_shard_key k h; hash = h; ref_count = _ })
                    (r ∷ refs) hold'.0 a hold'.1 refl))
        ]
