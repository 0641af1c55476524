-- ===== src/Repo/Commit.antt =====
-- internal/repo/repo.go: `Create`, and `Commit` with its retries. What other processes do to the bucket
-- between two calls of the store, what the clock and the ids are, and when the context is cancelled,
-- is the `Turn` of an attempt. Which runes beyond U+FFFF print is an argument of `Create`.
pub mod Attempt
pub mod History
pub mod GaveUp
pub mod Returned
pub mod Create
mod Tests
use bucketvcs.Prelude.{
  ℕ, zero, suc, ◌+◌, ◌-◌, ◌*◌, ◌%◌, ◌^◌, ◌≤◌, ◌<◌, ◌≡◌, ◌≢◌, refl, sym, ap, ap₂, ◌∙◌, ◌↔◌, ◌⊎◌, inl,
  inr, Bool, true, false, not, ◌&&◌, ◌||◌, List, [], ◌∷◌, ◌++◌, Option, none, some, arith, ltb, leb,
  ◌==◌, if◌then◌else◌, length, take, drop, Bytes, codes, eqb, has_prefix, has_suffix, contains,
  split, is_empty, Bool-cases, Option-cases, eqb_iff, eqb_refl, All, append-nil, append_assoc,
  length-append,
}
use bucketvcs.Prelude.Assoc.{Assoc, lookup, insert, remove, lookup-insert, lookup-remove, map_laws}
use bucketvcs.Prelude.Utf8.{between, byte_at, rune_size}
use bucketvcs.Storage.{
  StorageError, already_exists, version_mismatch, ObjectStore, ok as stored, err as refused,
}
use bucketvcs.Repo.Errors.{
  RepoError, repo_exists, invalid_tenant_id, invalid_repo_id, object_format_not_supported, canceled,
  callback_failed, gave_up, storage_failed, Result, ok, err, ◌>>=◌, ◌>>◌,
}
use bucketvcs.Repo.Keys
use bucketvcs.Repo.Keys.{RepoKeys, new_repo, root_manifest_key, tx_record_key, commit_marker_key}
use bucketvcs.Repo.Manifest.{
  Json, str, other, Content, object, text, RootHeader, Texts, current_schema_version,
  supported_reader_version, wrap_header_in_body, read_root,
}
use bucketvcs.Repo.Tx.{TxHeader, TxBody, write, write_commit_marker}

-- `RootView`, without the size of the body's text.
pub record RootView (V : Type 0) : Type 0 where
  pub header : RootHeader
  pub body : Assoc Json
  pub version : V

-- What happens around one attempt of `Commit`.
pub record Turn (S : Type 0) : Type 0 where
  pub before_read : S → S
  pub before_write : S → S
  pub before_cas : S → S
  pub before_marker : S → S
  pub canceled_at_start : Bool
  pub canceled_after_build : Bool
  pub canceled_before_cas : Bool
  pub canceled_in_backoff : Bool
  pub tx_id : Bytes
  pub started_at : Bytes
  pub updated_at : Bytes

-- `CommitPolicy`
pub record CommitPolicy : Type 0 where
  pub max_retries : ℕ
  pub backoff_base : ℕ

abbrev pub default_policy : CommitPolicy
default_policy = record { max_retries = 8; backoff_base = 5_000_000 }

-- `MaxRetries` is raised to at least 1.
unfoldable pub normalize : CommitPolicy → CommitPolicy
normalize policy = if ltb policy.max_retries 1 then record policy { max_retries = 1 } else policy

-- How one pass through the loop ends: by a return, or by `continue` after a conflict.
pub data End : Type 0 where
  returned : Result Bytes → End
  conflict : StorageError → End

-- The next header: `ManifestVersion` is a uint64.
unfoldable pub next_header : RootHeader → Bytes → Bytes → RootHeader
next_header h tx_id now = record h {
  manifest_version = (h.manifest_version + 1) % 2 ^ 64;
  latest_tx = tx_id;
  updated_at = now;
}

module _ {S V : Type 0} (texts : Texts) (store : ObjectStore S Content V) (k : RepoKeys) where
  -- The marker, and the return.
  unfoldable pub finish : Turn S → S → End × S
  finish t s = (
    returned (ok t.tx_id),
    (write_commit_marker store (commit_marker_key k t.tx_id) (t.before_marker s)).1,
  )

  -- `CASRoot`, and what follows its result.
  unfoldable pub publish : Turn S → V → Content → S → End × S
  publish t version bytes s =
      let (r, s') =
        store.put_if_version_matches (t.before_cas s) (root_manifest_key k) version bytes in
      elim r [
        | stored _ ↦ finish t s'
        | refused version_mismatch ↦ (conflict version_mismatch, s')
        | refused e ↦ (returned (err (storage_failed e)), s')
      ]

  abbrev pub tx_header_for : Turn S → RootView V → TxHeader
  tx_header_for t view = record {
    schema_version = 1;
    tx_id = t.tx_id;
    repo_id = k.repo_id;
    base_manifest_version = view.header.manifest_version;
    base_manifest_object_version = store.token_text view.version;
    started_at = t.started_at;
  }

  -- From the wrapped manifest on.
  unfoldable pub wrap_and_publish : Turn S → RootView V → Content → S → End × S
  wrap_and_publish t view new_body s =
      elim (wrap_header_in_body (next_header view.header t.tx_id t.updated_at) new_body) [
        | err e ↦ (returned (err e), s)
        | ok bytes ↦
            if t.canceled_before_cas
            then (returned (err canceled), s)
            else publish t view.version bytes s
      ]

  -- From the transaction record on.
  unfoldable pub record_and_publish : TxBody → Turn S → RootView V → Content → S → End × S
  record_and_publish tx_body t view new_body s =
      let (r, s') =
        write store (tx_record_key k t.tx_id) (tx_header_for t view) tx_body (t.before_write s) in
      elim r [ err e ↦ (returned (err e), s') | ok _ ↦ wrap_and_publish t view new_body s' ]

  -- The callback returns the new body or an error.
  unfoldable pub build_and_publish :
      TxBody → (RootView V → Content ⊎ ℕ) → Turn S → RootView V → S → End × S
  build_and_publish tx_body build_body t view s = elim (build_body view) [
    | inr e ↦ (returned (err (callback_failed e)), s)
    | inl new_body ↦
        if t.canceled_after_build
        then (returned (err canceled), s)
        else record_and_publish tx_body t view new_body s
  ]

  -- One pass through the loop of `Commit`.
  unfoldable pub attempt : TxBody → (RootView V → Content ⊎ ℕ) → Turn S → S → End × S
  attempt tx_body build_body t s =
      if t.canceled_at_start
      then (returned (err canceled), s)
      else let s' = t.before_read s in
        elim (read_root texts store s' (root_manifest_key k)) [
          | err e ↦ (returned (err e), s')
          | ok (header, body, version) ↦
              build_and_publish tx_body build_body t
                (record { header = header; body = body; version = version }) s'
        ]

  -- The loop, with the attempts that are left; the turns are numbered from 1.
  unfoldable pub commit_loop :
      ℕ
      → CommitPolicy
      → TxBody
      → (RootView V → Content ⊎ ℕ)
      → (ℕ → Turn S)
      → ℕ
      → List Bytes
      → StorageError
      → S
      → Result Bytes × S
  commit_loop zero policy tx_body build_body turns i orphans last s =
      (err (gave_up policy.max_retries orphans last), s)
  commit_loop (suc left) policy tx_body build_body turns i orphans last s =
      let (end, s') = attempt tx_body build_body (turns i) s in
      elim end [
        | returned r ↦ (r, s')
        | conflict e ↦
            let rest =
              commit_loop left policy tx_body build_body turns (i + 1)
                (orphans ++ (turns i).tx_id ∷ []) e s' in
            if ltb i policy.max_retries
              && ltb 0 policy.backoff_base
              && (turns i).canceled_in_backoff
            then (err canceled, s')
            else rest
      ]

  -- `(*Repo).Commit`
  unfoldable pub commit :
      CommitPolicy → TxBody → (RootView V → Content ⊎ ℕ) → (ℕ → Turn S) → S → Result Bytes × S
  commit policy tx_body build_body turns s =
      let p = normalize policy in
      commit_loop p.max_retries p tx_body build_body turns 1 [] version_mismatch s

-- `CreateOptions`
pub record CreateOptions : Type 0 where
  pub default_branch : Bytes
  pub object_format : Bytes
  pub actor : Bytes

-- What happens around a call of `Create`.
pub record CreateTurn (S : Type 0) : Type 0 where
  pub before_root : S → S
  pub before_marker : S → S
  pub tx_id : Bytes
  pub now : Bytes

abbrev pub or_default : Bytes → Bytes → Bytes
or_default s d = if is_empty s then d else s

-- The header of a new repository.
abbrev pub first_header : Bytes → Bytes → Bytes → Bytes → RootHeader
first_header repo_id object_format tx_id now = record {
  schema_version = current_schema_version;
  min_reader_version = supported_reader_version;
  repo_id = repo_id;
  repo_format = record { object_format = object_format; compatibility = object_format ∷ [] };
  manifest_version = 1;
  latest_tx = tx_id;
  created_at = now;
  updated_at = now;
}

abbrev pub first_body : Bytes → Assoc Json
first_body default_branch =
    (codes "refs", other (codes "{}"))
    ∷ (codes "packs", other (codes "[]"))
    ∷ (codes "indexes", other (codes "{}"))
    ∷ (codes "bundles", other (codes "[]"))
    ∷ (codes "default_branch", str default_branch)
    ∷ []

-- Whether Go's `%q` writes an ASCII byte in a way that JSON reads back: not as `\a`, `\v` or `\x00`.
unfoldable pub ascii_quotes : ℕ → Bool
ascii_quotes c = between 32 126 c || between 8 10 c || between 12 13 c

-- The code point of a rune of four bytes.
unfoldable pub long_rune : Bytes → ℕ
long_rune s =
    ((byte_at 0 s % 8 * 64 + byte_at 1 s % 64) * 64 + byte_at 2 s % 64) * 64 + byte_at 3 s % 64

module _ (is_print : ℕ → Bool) where
  -- The same of the first rune, which has that size: invalid UTF-8 is written as `\xff`; a rune that
  -- does not print as `\u0085`, which JSON has, or `\U000e0001`, which it has not.
  unfoldable pub rune_quotes : ℕ → Bytes → Bool
  rune_quotes size s =
      if size == 0
      then false
      else if size == 1
      then ascii_quotes (byte_at 0 s)
      else if size == 4
      then is_print (long_rune s)
      else true

  -- The same of a text, of which the first bytes are the rest of a rune.
  unfoldable pub quotes_from : ℕ → Bytes → Bool
  quotes_from skip [] = true
  quotes_from (suc skip) (c ∷ s) = quotes_from skip s
  quotes_from zero (c ∷ s) =
      let size = rune_size (c ∷ s) in
      let rest = quotes_from (size - 1) s in rune_quotes size (c ∷ s) && rest

  -- The text that `Sprintf` makes: an object where `%q` writes a JSON string, and no JSON otherwise.
  unfoldable pub first_content : Bytes → Content
  first_content default_branch =
      if quotes_from 0 default_branch then object (first_body default_branch) else text (codes "{")

-- The transaction record of a `Create`.
abbrev pub create_header : {S : Type 0} → RepoKeys → CreateTurn S → TxHeader
create_header k t = record {
  schema_version = 1;
  tx_id = t.tx_id;
  repo_id = k.repo_id;
  base_manifest_version = 0;
  base_manifest_object_version = [];
  started_at = t.now;
}

abbrev pub create_body : Bytes → TxBody
create_body actor = record {
  type_name = codes "create";
  actor = actor;
  ref_updates = none;
  new_packs = none;
  validation = none;
  extra = text [];
}

module _ {S V : Type 0} (is_print : ℕ → Bool) (store : ObjectStore S Content V) where
  -- From the root manifest on: the create-only write is the commit point.
  unfoldable pub create_root : RepoKeys → CreateTurn S → Content → S → Result RepoKeys × S
  create_root k t root_bytes s =
      let (r, s') = store.put_if_absent (t.before_root s) (root_manifest_key k) root_bytes in
      elim r [
        | refused already_exists ↦ (err repo_exists, s')
        | refused e ↦ (err (storage_failed e), s')
        | stored _ ↦
            (ok k, (write_commit_marker store (commit_marker_key k t.tx_id) (t.before_marker s')).1)
      ]

  unfoldable pub create_records :
      RepoKeys → CreateTurn S → Bytes → Bytes → Bytes → S → Result RepoKeys × S
  create_records k t default_branch object_format actor s =
      let (r, s') =
        write store (tx_record_key k t.tx_id) (create_header k t) (create_body actor) s in
      elim r [
        | err e ↦ (err e, s')
        | ok _ ↦
            elim (wrap_header_in_body (first_header k.repo_id object_format t.tx_id t.now)
              (first_content is_print default_branch)) [
                | err e ↦ (err e, s')
                | ok root_bytes ↦ create_root k t root_bytes s'
              ]
      ]

  -- `Create`
  unfoldable pub create : Bytes → Bytes → CreateOptions → CreateTurn S → S → Result RepoKeys × S
  create tenant_id repo_id opts t s = elim (new_repo tenant_id repo_id) [
    | inr Keys.invalid_tenant_id ↦ (err invalid_tenant_id, s)
    | inr Keys.invalid_repo_id ↦ (err invalid_repo_id, s)
    | inl k ↦
        let object_format = or_default opts.object_format (codes "sha1") in
        if not (eqb object_format (codes "sha1"))
        then (err object_format_not_supported, s)
        else create_records k t (or_default opts.default_branch (codes "refs/heads/main"))
            object_format (or_default opts.actor (codes "unknown")) s
  ]
