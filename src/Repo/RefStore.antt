-- ===== src/Repo/RefStore.antt =====
-- internal/repo/refstore: the refs of a repository, inline in the manifest body or in shards, and the
-- staging of updates. A map is iterated in the order of its list; parallel fetches run one by one.
pub mod Shape
pub mod Grouping
pub mod Encoding
pub mod Shards
pub mod Publish
pub mod Refines
pub mod Total
mod Tests
use bucketvcs.Prelude.{
  ℕ, zero, suc, ◌+◌, ◌-◌, ◌*◌, ◌/◌, ◌%◌, ◌≤◌, ◌<◌, ◌≡◌, ◌≢◌, refl, sym, ap, ap₂, ◌∙◌, ◌↔◌, ◌⊎◌, inl,
  inr, Bool, true, false, not, ◌&&◌, ◌||◌, List, [], ◌∷◌, ◌++◌, Option, none, some, arith, ltb, leb,
  ◌==◌, if◌then◌else◌, length, take, drop, Bytes, codes, eqb, has_prefix, has_suffix, contains,
  split, is_empty, Bool-cases, Option-cases, eqb_iff, eqb_refl, All, append-nil, append_assoc,
  length-append,
}
use bucketvcs.Prelude.Assoc.{Assoc, lookup, insert, remove, lookup-insert, lookup-remove, map_laws}
use bucketvcs.Prelude.Sort.{sort_by, find_by, member, self, keys_of}
use bucketvcs.Prelude.Int.{ℤ, pos}
use bucketvcs.Prelude.Utf8.{to_utf8}
use bucketvcs.Storage.{StorageError, ObjectStore, ok as stored, err as refused}
use bucketvcs.Repo.Errors.{
  RepoError, invalid_manifest, shard_corrupt, lookup_not_in_stage, nil_map, parse_failed,
  storage_failed, Result, ok, err, ◌>>=◌, ◌>>◌,
}
use bucketvcs.Repo.Keys.{RepoKeys, ref_shard_key}
use bucketvcs.Repo.Manifest.{Json, null, str, Content, object, null_text, text}
use Shape.{RefShard, Body, is_supported_ref_sharding}

pub data Mode : Type 0 where
  mode_inline mode_sharded : Mode

pub record ShardWrite : Type 0 where
  pub shard : Bytes
  pub key : Bytes
  pub hash : Bytes
  pub contents : Content

-- `Stage`
pub record Stage : Type 0 where
  pub mode : Mode
  pub new_inline_refs : Assoc Bytes
  pub new_shard_objects : List ShardWrite
  pub new_ref_shards : List RefShard

abbrev pub null_oid_hex : Bytes
null_oid_hex = codes "0000000000000000000000000000000000000000"

-- `oid == "" || oid == oidconst.NullOIDHex`
unfoldable pub deletes : Bytes → Bool
deletes oid = is_empty oid || eqb oid null_oid_hex

-- The loop that applies updates to a map.
unfoldable pub apply_updates : Assoc Bytes → Assoc Bytes → Assoc Bytes
apply_updates [] refs = refs
apply_updates ((name, oid) ∷ us) refs =
    apply_updates us (if deletes oid then remove name refs else insert name oid refs)

-- `(*InlineRefStore).Stage`
unfoldable pub stage_inline : Assoc Bytes → Assoc Bytes → Stage
stage_inline refs updates = record {
  mode = mode_inline;
  new_inline_refs = apply_updates updates refs;
  new_shard_objects = [];
  new_ref_shards = [];
}

-- `refs[n]`, where a missing key reads as the empty string.
unfoldable pub at : Assoc Bytes → Bytes → Bytes
at refs n = elim (lookup n refs) [ none ↦ [] | some v ↦ v ]

-- `json.Marshal` of each name and of its value.
unfoldable pub entries : Assoc Bytes → List Bytes → Assoc Json
entries refs [] = []
entries refs (n ∷ ns) = (to_utf8 n, str (to_utf8 (at refs n))) ∷ entries refs ns

-- `marshalShardContent`, up to the layout of the text: the entries in the order of their names.
unfoldable pub marshal_shard_content : Assoc Bytes → Content
marshal_shard_content refs = object (entries refs (sort_by self (keys_of refs)))

-- `json.Unmarshal` of an object into a `map[string]string`.
unfoldable pub unmarshal_entries : Assoc Json → Assoc Bytes → Result (Assoc Bytes)
unmarshal_entries [] acc = ok acc
unmarshal_entries ((k, str v) ∷ m) acc = unmarshal_entries m (insert (to_utf8 k) (to_utf8 v) acc)
unmarshal_entries ((k, null) ∷ m) acc = unmarshal_entries m (insert (to_utf8 k) [] acc)
unmarshal_entries ((k, _) ∷ m) acc = err parse_failed

-- `json.Unmarshal` into a `map[string]string` that was nil; it stays nil on `null`.
unfoldable pub unmarshal_refs : Content → Result (Option (Assoc Bytes))
unmarshal_refs (object m) = unmarshal_entries m [] >>= λ refs. ok (some refs)
unmarshal_refs null_text = ok none
unmarshal_refs (text s) = err parse_failed

-- Reading a map that may be nil.
unfoldable pub lookup_in : Bytes → Option (Assoc Bytes) → Option Bytes
lookup_in n none = none
lookup_in n (some refs) = lookup n refs

-- SHA-256, of a name and of the text of a document.
pub record Sha256 : Type 0 where
  pub of_name : Bytes → Bytes
  pub of_content : Content → Bytes

unfoldable pub hex_digit : ℕ → ℕ
hex_digit n = if ltb n 10 then b'0' + n else b'a' + (n - 10)

-- `hex.EncodeToString`
unfoldable pub hex_encode : Bytes → Bytes
hex_encode [] = []
hex_encode (c ∷ s) = hex_digit (c / 16) ∷ hex_digit (c % 16) ∷ hex_encode s

-- The updates by shard; each map is a map of refnames.
unfoldable pub or_empty : Option (Assoc Bytes) → Assoc Bytes
or_empty none = []
or_empty (some g) = g

-- `existingByShard`: of two shards with one id the last stands.
unfoldable pub index_shards : List RefShard → Assoc RefShard → Assoc RefShard
index_shards [] acc = acc
index_shards (sh ∷ shs) acc = index_shards shs (insert sh.shard sh acc)

-- Whether an update assigns into the map.
unfoldable pub has_upsert : Assoc Bytes → Bool
has_upsert [] = false
has_upsert ((name, oid) ∷ us) = not (deletes oid) || has_upsert us

unfoldable pub has_group : Bytes → Assoc (Assoc Bytes) → Bool
has_group sid groups = elim (lookup sid groups) [ none ↦ false | some g ↦ true ]

-- The shards that no update touches.
unfoldable pub untouched : Assoc (Assoc Bytes) → List RefShard → List RefShard
untouched groups [] = []
untouched groups (sh ∷ shs) =
    let rest = untouched groups shs in if has_group sh.shard groups then rest else sh ∷ rest

-- `for k, v := range refs { out[k] = v }`
unfoldable pub merge : Assoc Bytes → Assoc Bytes → Assoc Bytes
merge [] out = out
merge ((k, v) ∷ m) out = merge m (insert k v out)

abbrev pub loaded_at : Bytes → Assoc (Option (Assoc Bytes)) → Option (Assoc Bytes)
loaded_at sid loaded = elim (lookup sid loaded) [ none ↦ none | some refs ↦ refs ]

unfoldable pub has_hash : Option RefShard → Bytes → Bool
has_hash none h = false
has_hash (some sh) h = eqb sh.hash h

unfoldable pub key_for : RepoKeys → Option RefShard → Bytes → Bytes
key_for k none h = ref_shard_key k h
key_for k (some sh) h = if eqb sh.hash h then sh.key else ref_shard_key k h

module _ (sha : Sha256) where
  -- `ShardKey`
  unfoldable pub shard_key : Bytes → Bytes
  shard_key name = hex_encode (take 1 (sha.of_name name))

  -- `hashShardContent`
  unfoldable pub hash_shard_content : Content → Bytes
  hash_shard_content c = codes "sha256-" ++ hex_encode (sha.of_content c)

  -- `updatesByShard`
  unfoldable pub group_updates : Assoc Bytes → Assoc (Assoc Bytes) → Assoc (Assoc Bytes)
  group_updates [] acc = acc
  group_updates ((name, oid) ∷ us) acc =
      group_updates us
        (insert (shard_key name) (insert name oid (or_empty (lookup (shard_key name) acc))) acc)

  -- The first staged object of the shard, for `(*Stage).Lookup`.
  unfoldable pub stage_lookup : Stage → Bytes → Result (Option Bytes)
  stage_lookup st name = elim st.mode [
    | mode_inline ↦ ok (lookup name st.new_inline_refs)
    | mode_sharded ↦
        elim (find_by (λ (w : ShardWrite). w.shard) (shard_key name) st.new_shard_objects) [
          | none ↦ err lookup_not_in_stage
          | some w ↦ (unmarshal_refs w.contents >>= λ refs. ok (lookup_in name refs))
        ]
  ]

  module _ {S V : Type 0} (store : ObjectStore S Content V) where
    -- `fetchShard`
    unfoldable pub fetch_shard : S → RefShard → Result (Option (Assoc Bytes))
    fetch_shard s sh = elim (store.get s sh.key) [
      | refused e ↦ err (storage_failed e)
      | stored (raw, v) ↦
          if not (eqb (hash_shard_content raw) sh.hash)
          then err shard_corrupt
          else unmarshal_refs raw
    ]

    -- `(*ShardedRefStore).Lookup`
    unfoldable pub lookup_sharded : S → List RefShard → Bytes → Result (Option Bytes)
    lookup_sharded s shards name =
        elim (find_by (λ (sh : RefShard). sh.shard) (shard_key name) shards) [
          | none ↦ ok none
          | some sh ↦ (fetch_shard s sh >>= λ refs. ok (lookup_in name refs))
        ]

    -- `(*ShardedRefStore).List`
    unfoldable pub list_sharded : S → List RefShard → Assoc Bytes → Result (Assoc Bytes)
    list_sharded s [] out = ok out
    list_sharded s (sh ∷ shs) out =
        fetch_shard s sh >>= λ refs. list_sharded s shs (merge (or_empty refs) out)

    -- What `Stage` loads for a shard with updates.
    unfoldable pub load_shard : S → Assoc RefShard → Bytes → Result (Option (Assoc Bytes))
    load_shard s existing sid = elim (lookup sid existing) [
      | none ↦ ok (some [])
      | some sh ↦ fetch_shard s sh
    ]

    unfoldable pub load_shards :
        S → Assoc RefShard → Assoc (Assoc Bytes) → Result (Assoc (Option (Assoc Bytes)))
    load_shards s existing [] = ok []
    load_shards s existing ((sid, g) ∷ groups) = do
      refs ← load_shard s existing sid
      rest ← load_shards s existing groups
      ok ((sid, refs) ∷ rest)

  -- The object to write, if the content changed, and the entry in the new body, if a ref is left.
  unfoldable pub publish_shard :
      RepoKeys → Bytes → Option RefShard → Assoc Bytes → List ShardWrite × List RefShard
  publish_shard k sid existing refs =
      if is_empty refs
      then ([], [])
      else let contents = marshal_shard_content refs in
        let h = hash_shard_content contents in
        let key = key_for k existing h in
        (
          if has_hash existing h
              then []
              else record { shard = sid; key = key; hash = h; contents = contents } ∷ [],
          record { shard = sid; key = key; hash = h; ref_count = pos (length refs) } ∷ [],
        )

  -- Assigning into a nil map panics.
  unfoldable pub stage_shard :
      RepoKeys
      → Bytes
      → Option RefShard
      → Assoc Bytes
      → Option (Assoc Bytes)
      → Result (List ShardWrite × List RefShard)
  stage_shard k sid existing group (some refs) =
      ok (publish_shard k sid existing (apply_updates group refs))
  stage_shard k sid existing group none = if has_upsert group then err nil_map else ok ([], [])

  -- The loop over the sorted ids of the shards with updates.
  unfoldable pub stage_shards :
      RepoKeys
      → Assoc RefShard
      → Assoc (Assoc Bytes)
      → Assoc (Option (Assoc Bytes))
      → List Bytes
      → Result (List ShardWrite × List RefShard)
  stage_shards k existing groups loaded [] = ok ([], [])
  stage_shards k existing groups loaded (sid ∷ ids) = do
    (ws, shs) ←
        stage_shard k sid (lookup sid existing) (or_empty (lookup sid groups))
          (loaded_at sid loaded)
    (ws', shs') ← stage_shards k existing groups loaded ids
    ok (ws ++ ws', shs ++ shs')

  module _ {S V : Type 0} (store : ObjectStore S Content V) where
    abbrev pub stage_groups : RepoKeys → S → List RefShard → Assoc (Assoc Bytes) → Result Stage
    stage_groups k s shards groups = do
      let existing = index_shards shards []
      loaded ← load_shards store s existing groups
      (ws, shs) ← stage_shards k existing groups loaded (sort_by self (keys_of groups))
      ok (record {
        mode = mode_sharded;
        new_inline_refs = [];
        new_shard_objects = ws;
        new_ref_shards = sort_by (λ (sh : RefShard). sh.shard) (shs ++ untouched groups shards);
      })

    -- `(*ShardedRefStore).Stage`
    unfoldable pub stage_sharded : RepoKeys → S → List RefShard → Assoc Bytes → Result Stage
    stage_sharded k s shards [] = ok (record {
      mode = mode_sharded;
      new_inline_refs = [];
      new_shard_objects = [];
      new_ref_shards = shards;
    })
    stage_sharded k s shards (u ∷ us) = stage_groups k s shards (group_updates (u ∷ us) [])

-- What `New` returns.
pub data RefStore : Type 0 where
  inline_ref_store : Assoc Bytes → RefStore
  sharded_ref_store : List RefShard → RefStore

-- `New`, for a body, a store and keys that are not nil.
unfoldable pub new : Body → Result RefStore
new body =
    if is_empty body.ref_shards
    then ok (inline_ref_store body.refs)
    else if not (is_supported_ref_sharding body.ref_sharding)
    then err invalid_manifest
    else ok (sharded_ref_store body.ref_shards)

module _ (sha : Sha256) {S V : Type 0} (store : ObjectStore S Content V) where
  -- The `Lookup` and the `Stage` of either kind.
  unfoldable pub lookup_ref : S → RefStore → Bytes → Result (Option Bytes)
  lookup_ref s (inline_ref_store refs) name = ok (lookup name refs)
  lookup_ref s (sharded_ref_store shards) name = lookup_sharded sha store s shards name

  unfoldable pub stage_refs : RepoKeys → S → RefStore → Assoc Bytes → Result Stage
  stage_refs k s (inline_ref_store refs) updates = ok (stage_inline refs updates)
  stage_refs k s (sharded_ref_store shards) updates = stage_sharded sha store k s shards updates
