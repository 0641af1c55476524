-- ===== src/Repo/Tx.antt =====
-- internal/repo/tx: the immutable transaction records and their commit markers.
use bucketvcs.Prelude.{
  ℕ, Bool, false, ◌||◌, List, [], ◌∷◌, ◌++◌, Option, none, some, if◌then◌else◌, Bytes, codes, eqb,
}
use bucketvcs.Prelude.Assoc.{Assoc, lookup, insert}
use bucketvcs.Storage.{already_exists, ObjectStore, ok as stored, err as refused}
use bucketvcs.Repo.Errors.{not_an_object, key_collision, storage_failed, Result, ok, err, ◌>>=◌}
use bucketvcs.Repo.Manifest.{Json, num, str, Content, object, null_text, text}

-- `tx.Header`
pub record TxHeader : Type 0 where
  pub schema_version : ℕ
  pub tx_id : Bytes
  pub repo_id : Bytes
  pub base_manifest_version : ℕ
  pub base_manifest_object_version : Bytes
  pub started_at : Bytes

-- `tx.Body`. The three raw values are left out when empty.
pub record TxBody : Type 0 where
  pub type_name : Bytes
  pub actor : Bytes
  pub ref_updates : Option Json
  pub new_packs : Option Json
  pub validation : Option Json
  pub extra : Content

abbrev pub tx_header_keys : List Bytes
tx_header_keys =
    codes "schema_version"
    ∷ codes "tx_id"
    ∷ codes "repo_id"
    ∷ codes "base_manifest_version"
    ∷ codes "base_manifest_object_version"
    ∷ codes "started_at"
    ∷ []

abbrev pub body_known_keys : List Bytes
body_known_keys =
    codes "type" ∷ codes "actor" ∷ codes "ref_updates" ∷ codes "new_packs" ∷ codes "validation" ∷ []

-- `reservedKeySet`
abbrev pub reserved_key_set : List Bytes
reserved_key_set = tx_header_keys ++ body_known_keys

unfoldable pub encode_tx_header : TxHeader → Assoc Json
encode_tx_header h =
    (codes "schema_version", num h.schema_version)
    ∷ (codes "tx_id", str h.tx_id)
    ∷ (codes "repo_id", str h.repo_id)
    ∷ (codes "base_manifest_version", num h.base_manifest_version)
    ∷ (codes "base_manifest_object_version", str h.base_manifest_object_version)
    ∷ (codes "started_at", str h.started_at)
    ∷ []

abbrev omit_empty : Bytes → Option Json → Assoc Json
omit_empty k none = []
omit_empty k (some v) = (k, v) ∷ []

unfoldable pub encode_tx_body : TxBody → Assoc Json
encode_tx_body b =
    (codes "type", str b.type_name)
    ∷ (codes "actor", str b.actor)
    ∷ (omit_empty (codes "ref_updates") b.ref_updates
        ++ (omit_empty (codes "new_packs") b.new_packs
            ++ omit_empty (codes "validation") b.validation))

-- The loop that splices the body, with its check against the keys that are there.
unfoldable pub splice_body : Assoc Json → Assoc Json → Result (Assoc Json)
splice_body [] top = ok top
splice_body ((k, v) ∷ m) top =
    let rest = splice_body m (insert k v top) in
    elim (lookup k top) [ some _ ↦ err key_collision | none ↦ rest ]

unfoldable pub is_reserved : Bytes → List Bytes → Bool
is_reserved k [] = false
is_reserved k (j ∷ ks) = eqb j k || is_reserved k ks

-- The loop that splices `Extra`, with its check against the reserved keys.
unfoldable pub splice_extra : Assoc Json → Assoc Json → Result (Assoc Json)
splice_extra [] top = ok top
splice_extra ((k, v) ∷ m) top =
    let rest = splice_extra m (insert k v top) in
    if is_reserved k reserved_key_set then err key_collision else rest

unfoldable pub with_extra : Content → Assoc Json → Result (Assoc Json)
with_extra (text []) top = ok top
with_extra (text (c ∷ s)) top = err not_an_object
with_extra null_text top = err not_an_object
with_extra (object m) top = splice_extra m top

-- `tx.Marshal`
unfoldable pub marshal : TxHeader → TxBody → Result Content
marshal h b = do
  top ← splice_body (encode_tx_body b) (encode_tx_header h)
  whole ← with_extra b.extra top
  ok (object whole)

module _ {S V : Type 0} (store : ObjectStore S Content V) where
  unfoldable pub put_record : Bytes → Content → S → Result (Unit {0}) × S
  put_record key c s =
      let (r, s') = store.put_if_absent s key c in
      (elim r [ stored _ ↦ ok tt | refused e ↦ err (storage_failed e) ], s')

  -- `tx.Write`
  unfoldable pub write : Bytes → TxHeader → TxBody → S → Result (Unit {0}) × S
  write key h b s = elim (marshal h b) [ ok c ↦ put_record key c s | err e ↦ (err e, s) ]

  -- `tx.WriteCommitMarker`: a marker that is there is a success.
  unfoldable pub write_commit_marker : Bytes → S → Result (Unit {0}) × S
  write_commit_marker key s =
      let (r, s') = store.put_if_absent s key (text []) in
      (
        elim r [
          | stored _ ↦ ok tt
          | refused already_exists ↦ ok tt
          | refused e ↦ err (storage_failed e)
        ],
        s',
      )
