-- ===== src/Repo/RefStore/Shards.antt =====
-- The content of a shard, and the shards that a stage loads, changes and forwards.
use bucketvcs.Prelude.{
  ◌≡◌, refl, ◌∙◌, inl, inr, true, false, List, [], ◌∷◌, ◌++◌, Option, none, some, arith,
  if◌then◌else◌, Bytes, eqb, Bool-cases, Option-cases, eqb_iff, eqb_refl, All,
}
use bucketvcs.Prelude.Assoc.{Assoc, lookup, insert, lookup-insert}
use bucketvcs.Prelude.Sort.{
  member, keys_of, member-keys_of, member-sort, sort_by, sort_by-All, find_by, find_by-append, self,
}
use bucketvcs.Prelude.Utf8.{IsUtf8}
use bucketvcs.Storage.{ObjectStore}
use bucketvcs.Repo.Errors.{ok, Result-cases}
use bucketvcs.Repo.Keys.{RepoKeys}
use bucketvcs.Repo.Manifest.{Content}
use bucketvcs.Repo.RefStore.Shape.{RefShard, find_shard, DistinctShards}
use bucketvcs.Repo.RefStore.Encoding.{AllUtf8, at-IsUtf8, keys_of-IsUtf8}
use bucketvcs.Repo.RefStore.{
  ShardWrite, at, entries, marshal_shard_content, unmarshal_entries, unmarshal_refs, or_empty,
  Sha256, index_shards, has_group, untouched, load_shard, load_shards, publish_shard, stage_shard,
  stage_shards, loaded_at,
}

unmarshal-entries :
    (n : Bytes) (refs acc : Assoc Bytes) (ns : List Bytes)
    → AllUtf8 refs
    → All IsUtf8 ns
    → (out : Assoc Bytes) × (unmarshal_entries (entries refs ns) acc ≡ ok out)
      × (lookup n out ≡ (if member n ns then some (at refs n) else lookup n acc))
unfolding unmarshal_entries entries member
unmarshal-entries n refs acc [] a b = (acc, refl, refl)
unmarshal-entries n refs acc (m ∷ ns) a (p, b) =
    let (out, e, l) = unmarshal-entries n refs (insert m (at refs m) acc) ns a b in
    (
      out,
      rw (p, p, at-IsUtf8 refs m a, at-IsUtf8 refs m a) e,
      ground (arith, l, lookup-insert m n (at refs m) acc, eqb_iff m n),
    )

-- The content of a shard of valid refs parses into a map with the same refs.
pub unmarshal-marshal :
    (n : Bytes) (refs : Assoc Bytes)
    → AllUtf8 refs
    → (out : Assoc Bytes) × (unmarshal_refs (marshal_shard_content refs) ≡ ok (some out))
      × (lookup n out ≡ lookup n refs)
unfolding unmarshal_refs marshal_shard_content at lookup
unmarshal-marshal n refs a =
    let (out, e, l) =
      unmarshal-entries n refs [] (sort_by self (keys_of refs)) a
        (sort_by-All self IsUtf8 (keys_of refs) (keys_of-IsUtf8 refs a)) in
    (
      out,
      rw e refl,
      l
          ∙ rw (member-sort n (keys_of refs))
              (rw (member-keys_of n refs) (known (lookup n refs) refl)),
    )
  where
    known :
        (r : Option Bytes)
        → lookup n refs ≡ r
        → (if elim r [ none ↦ false | some v ↦ true ]
            then some (elim r [ none ↦ [] | some v ↦ v ])
            else none)
          ≡ r
    known none q = refl
    known (some v) q = refl

pub index_shards_lem :
    (sid : Bytes) (shards : List RefShard) (acc : Assoc RefShard)
    → DistinctShards shards
    → lookup sid (index_shards shards acc)
      ≡ elim (find_shard sid shards) [ some sh ↦ some sh | none ↦ lookup sid acc ]
unfolding index_shards find_by
index_shards_lem sid [] acc d = refl
index_shards_lem sid (sh ∷ shs) acc (fresh, d) = ground (
  arith,
  eqb_iff sh.shard sid,
  index_shards_lem sid shs (insert sh.shard sh acc) d,
  lookup-insert sh.shard sid sh acc,
)

pub find-untouched :
    (sid : Bytes) (groups : Assoc (Assoc Bytes)) (shards : List RefShard)
    → find_shard sid (untouched groups shards)
      ≡ (if has_group sid groups then none else find_shard sid shards)
unfolding untouched find_by
find-untouched sid groups [] = ground arith
find-untouched sid groups (sh ∷ shs) =
    ground (arith, eqb_iff sh.shard sid, find-untouched sid groups shs)

module _ (sha : Sha256) {S V : Type 0} (store : ObjectStore S Content V) where
  pub load_shards_lem :
      (s : S) (existing : Assoc RefShard) (sid : Bytes) (groups : Assoc (Assoc Bytes))
      (g : Assoc Bytes) (loaded : Assoc (Option (Assoc Bytes)))
      → load_shards sha store s existing groups ≡ ok loaded
      → lookup sid groups ≡ some g
      → load_shard sha store s existing sid ≡ ok (loaded_at sid loaded)
  unfolding load_shards lookup
  load_shards_lem s existing sid [] g loaded h q = cc
  load_shards_lem s existing sid ((sid', g') ∷ groups) g loaded h q =
      elim (Result-cases (load_shard sha store s existing sid')) [
        | inr (e, p) ↦ absurd (ground arith)
        | inl (refs, p) ↦ elim (Result-cases (load_shards sha store s existing groups)) [
          | inr (e, r) ↦ absurd (ground arith)
          | inl (rest, r) ↦ elim (Bool-cases (eqb sid' sid)) [
            | inl same ↦ rw (← (eqb_iff sid' sid).0 same) (ground (arith, eqb_refl sid'))
            | inr other ↦ ground (arith, load_shards_lem s existing sid groups g rest r)
          ]
        ]
      ]

-- What the loop over the touched shards leaves for one of them.
pub record Staged (sha : Sha256) (k : RepoKeys) (existing : Assoc RefShard)
    (groups : Assoc (Assoc Bytes)) (loaded : Assoc (Option (Assoc Bytes))) (sid : Bytes)
    (P : ShardWrite → Type 0) (shs : List RefShard) : Type 0 where
  pub own_writes : List ShardWrite
  pub own_shards : List RefShard
  pub staged :
      stage_shard sha k sid
        (lookup sid existing)
        (or_empty (lookup sid groups))
        (loaded_at sid loaded)
      ≡ ok (own_writes, own_shards)
  pub own_hold : All P own_writes
  pub found : find_shard sid shs ≡ find_shard sid own_shards

All-split {ℓ κ} :
    {A : Type ℓ} (P : A → Type κ) (xs ys : List A) → All P (xs ++ ys) → All P xs × All P ys
All-split P [] ys h = (tt, h)
All-split P (x ∷ xs) ys h = let (a, b) = All-split P xs ys h.1 in ((h.0, a), b)

module _ (sha : Sha256) (k : RepoKeys) (existing : Assoc RefShard) (groups : Assoc (Assoc Bytes))
    (loaded : Assoc (Option (Assoc Bytes))) where
  stage_shard-others :
      (sid j : Bytes) (ex : Option RefShard) (g : Assoc Bytes) (refs : Option (Assoc Bytes))
      (ws : List ShardWrite) (shs : List RefShard)
      → stage_shard sha k j ex g refs ≡ ok (ws, shs)
      → eqb j sid ≡ false
      → find_shard sid shs ≡ none
  unfolding stage_shard publish_shard find_by
  stage_shard-others sid j ex g none ws shs h ne = ground arith
  stage_shard-others sid j ex g (some refs) ws shs h ne = ground arith

  pub stage_shards-others :
      (sid : Bytes) (ids : List Bytes) (ws : List ShardWrite) (shs : List RefShard)
      → stage_shards sha k existing groups loaded ids ≡ ok (ws, shs)
      → member sid ids ≡ false
      → find_shard sid shs ≡ none
  unfolding stage_shards member find_by
  stage_shards-others sid [] ws shs h out_of = ground arith
  stage_shards-others sid (j ∷ ids) ws shs h out_of =
      elim (Result-cases (
        stage_shard sha k j (lookup j existing) (or_empty (lookup j groups))
          (loaded_at j loaded))) [
            | inr (e, p) ↦ absurd (ground arith)
            | inl ((ws1, shs1), p) ↦
                elim (Result-cases (stage_shards sha k existing groups loaded ids)) [
                  | inr (e, r) ↦ absurd (ground arith)
                  | inl ((ws2, shs2), r) ↦
                      let out : shs1 ++ shs2 ≡ shs = ground arith in
                      rw (← out) (
                        find_by-append (λ (sh : RefShard). sh.shard) sid shs1 shs2
                        ∙ ground (
                          arith,
                          stage_shard-others sid j (lookup j existing) (or_empty (lookup j groups))
                              (loaded_at j loaded) ws1 shs1 p,
                          stage_shards-others sid ids ws2 shs2 r,
                        ))
                ]
          ]

  -- The touched shard at the head of the list.
  Staged-head :
      (sid : Bytes) (P : ShardWrite → Type 0) (ids : List Bytes) (ws1 ws2 : List ShardWrite)
      (shs1 shs2 : List RefShard)
      → stage_shard sha k sid
          (lookup sid existing)
          (or_empty (lookup sid groups))
          (loaded_at sid loaded)
        ≡ ok (ws1, shs1)
      → All P ws1
      → ((member sid ids ≡ true → Staged sha k existing groups loaded sid P shs2))
      → (member sid ids ≡ false → find_shard sid shs2 ≡ none)
      → Staged sha k existing groups loaded sid P (shs1 ++ shs2)
  Staged-head sid P ids ws1 ws2 shs1 shs2 p hold again never = record {
    own_writes = ws1;
    own_shards = shs1;
    staged = p;
    own_hold = hold;
    found =
        find_by-append (λ (sh : RefShard). sh.shard) sid shs1 shs2
        ∙ elim (Option-cases (find_shard sid shs1)) [
          | inr (x, q) ↦ rw q refl
          | inl q ↦ rw q (elim (Bool-cases (member sid ids)) [
            | inr absent ↦ never absent
            | inl there ↦ let st = again there in ground (arith, st.found, st.staged)
          ])
        ];
  }

  pub stage_shards-Staged :
      (sid : Bytes) (P : ShardWrite → Type 0) (ids : List Bytes) (ws : List ShardWrite)
      (shs : List RefShard)
      → stage_shards sha k existing groups loaded ids ≡ ok (ws, shs)
      → member sid ids ≡ true
      → All P ws
      → Staged sha k existing groups loaded sid P shs
  unfolding stage_shards member
  stage_shards-Staged sid P [] ws shs h inside hold = absurd (ground arith)
  stage_shards-Staged sid P (j ∷ ids) ws shs h inside hold =
      elim (Result-cases (
        stage_shard sha k j (lookup j existing) (or_empty (lookup j groups))
          (loaded_at j loaded))) [
            | inr (e, p) ↦ absurd (ground arith)
            | inl ((ws1, shs1), p) ↦
                elim (Result-cases (stage_shards sha k existing groups loaded ids)) [
                  | inr (e, r) ↦ absurd (ground arith)
                  | inl ((ws2, shs2), r) ↦
                      let out : shs1 ++ shs2 ≡ shs = ground arith in
                      let out' : ws1 ++ ws2 ≡ ws = ground arith in
                      let (hold1, hold2) = All-split P ws1 ws2 (rw out' hold) in
                      elim (Bool-cases (eqb j sid)) [
                        | inl same ↦
                            let e = (eqb_iff j sid).0 same in
                            rw (← out) (
                              Staged-head sid P ids ws1 ws2 shs1 shs2 (rw (← e) p) hold1
                                (λ m. stage_shards-Staged sid P ids ws2 shs2 r m hold2)
                                (λ m. stage_shards-others sid ids ws2 shs2 r m))
                        | inr other ↦
                            let st =
                              stage_shards-Staged sid P ids ws2 shs2 r (ground arith) hold2 in
                            record {
                              own_writes = st.own_writes;
                              own_shards = st.own_shards;
                              staged = st.staged;
                              own_hold = st.own_hold;
                              found = rw (← out) (
                                  find_by-append (λ (sh : RefShard). sh.shard) sid shs1 shs2
                                  ∙ rw
                                      (stage_shard-others sid j (lookup j existing)
                                        (or_empty (lookup j groups)) (loaded_at j loaded) ws1 shs1 p
                                        other)
                                      st.found);
                            }
                      ]
                ]
          ]
