-- ===== src/Repo/Commit/Create.antt =====
-- What `Create` of internal/repo leaves in the bucket.
use bucketvcs.Prelude.{
  ◌≡◌, ℕ, refl, sym, ap, ◌∙◌, ◌⊎◌, inl, inr, true, false, [], Bool, if◌then◌else◌, arith, Bytes,
  codes, eqb, is_empty, Bool-cases, eqb_iff,
}
use bucketvcs.Prelude.Assoc.{Assoc, lookup}
use mathlib.Core.Path.{subst}
use bucketvcs.Storage.{
  not_found, ObjectStore, ok as stored, err as refused, Result-cases as stored_cases,
}
use bucketvcs.Repo.Errors.{ok, Result-cases}
use bucketvcs.Repo.Keys.{
  RepoKeys, IdError, invalid_tenant_id, invalid_repo_id, new_repo, root_manifest_key, tx_record_key,
  commit_marker_key,
}
use bucketvcs.Repo.Keys.Isolation.{root-ne-tx}
use bucketvcs.Repo.Manifest.{
  Json, Content, object, text, Texts, schema_gate, current_schema_version, supported_reader_version,
  wrap_header_in_body, v_prefix, read_root,
}
use bucketvcs.Repo.Manifest.RoundTrip.{parse_root-wrap}
use bucketvcs.Repo.Tx.{write, write_commit_marker}
use bucketvcs.Repo.Commit.{
  CreateOptions, CreateTurn, first_header, first_body, first_content, quotes_from, create_header,
  create_body, create_root, create_records, create, or_default,
}
use bucketvcs.Repo.Commit.History.{read_root-of_raw}

new_repo-cases :
    (tenant_id repo_id : Bytes)
    → ((k : RepoKeys) × (new_repo tenant_id repo_id ≡ inl k))
      ⊎ ((new_repo tenant_id repo_id ≡ inr invalid_tenant_id)
          ⊎ (new_repo tenant_id repo_id ≡ inr invalid_repo_id))
new_repo-cases tenant_id repo_id = go (new_repo tenant_id repo_id)
  where
    go :
        (r : RepoKeys ⊎ IdError)
        → ((k : RepoKeys) × (r ≡ inl k)) ⊎ ((r ≡ inr invalid_tenant_id) ⊎ (r ≡ inr invalid_repo_id))
    go (inl k) = inl (k, refl)
    go (inr invalid_tenant_id) = inr (inl refl)
    go (inr invalid_repo_id) = inr (inr refl)

module _ {S V : Type 0} (is_print : ℕ → Bool) (texts : Texts)
    (store : ObjectStore S Content V) where
  marker_frame :
      (k : RepoKeys) (id : Bytes) (s : S)
      → store.get (write_commit_marker store (commit_marker_key k id) s).1 (root_manifest_key k)
        ≡ store.get s (root_manifest_key k)
  unfolding write_commit_marker
  marker_frame k id s =
      store.absent_frame s (commit_marker_key k id) (root_manifest_key k) (text [])
        (λ e. (root-ne-tx k id).1 (sym e))

  -- A write of the root manifest by a `Create` that started from the state `s`. `before` is the state at
  -- the call of the store that creates the root: after the transaction record and what others did
  -- since; `after` is what that call leaves.
  pub record Created (k : RepoKeys) (object_format default_branch actor : Bytes) (t : CreateTurn S)
      (s s' : S) : Type 0 where
    pub before : S
    pub after : S
    pub at_create :
        before
        ≡ t.before_root
            (write store (tx_record_key k t.tx_id) (create_header k t) (create_body actor) s).1
    pub was_absent : store.get before (root_manifest_key k) ≡ refused not_found
    pub bytes : Content
    pub token : V
    pub quoted : quotes_from is_print 0 default_branch ≡ true
    pub wrapped :
        wrap_header_in_body
          (first_header k.repo_id object_format t.tx_id t.now)
          (object (first_body default_branch))
        ≡ ok bytes
    pub created : store.put_if_absent before (root_manifest_key k) bytes ≡ (stored token, after)
    pub written : store.get after (root_manifest_key k) ≡ stored (bytes, token)
    pub ends :
        s' ≡ (write_commit_marker store (commit_marker_key k t.tx_id) (t.before_marker after)).1

  wrap-quoted :
      (k : RepoKeys) (t : CreateTurn S) (object_format default_branch : Bytes) (bytes : Content)
      → wrap_header_in_body
          (first_header k.repo_id object_format t.tx_id t.now)
          (first_content is_print default_branch)
        ≡ ok bytes
      → (quotes_from is_print 0 default_branch ≡ true)
        × (wrap_header_in_body
              (first_header k.repo_id object_format t.tx_id t.now)
              (object (first_body default_branch))
            ≡ ok bytes)
  unfolding first_content wrap_header_in_body
  wrap-quoted k t object_format default_branch bytes w =
      elim (Bool-cases (quotes_from is_print 0 default_branch)) [
        | inl good ↦ (good, rw (good, if◌then◌else◌) at w)
        | inr bad ↦ absurd (ground arith)
      ]

  create_root-Created :
      (k k' : RepoKeys) (t : CreateTurn S) (object_format default_branch actor : Bytes)
      (bytes : Content) (s u s' : S)
      → u ≡ (write store (tx_record_key k t.tx_id) (create_header k t) (create_body actor) s).1
      → wrap_header_in_body
          (first_header k.repo_id object_format t.tx_id t.now)
          (first_content is_print default_branch)
        ≡ ok bytes
      → create_root is_print store k t bytes u ≡ (ok k', s')
      → Created k object_format default_branch actor t s s'
  unfolding create_root
  create_root-Created k k' t object_format default_branch actor bytes s u s' at w h =
      let put = store.put_if_absent (t.before_root u) (root_manifest_key k) bytes in
      let (quoted, wrapped) = wrap-quoted k t object_format default_branch bytes w in
      elim (stored_cases put.0) [
        | inr (e, q) ↦ absurd (ground arith)
        | inl (v, q) ↦
            let (absent, got) =
              store.absent_stored (t.before_root u) (root_manifest_key k) bytes v q in
            record {
              before = t.before_root u;
              after = put.1;
              at_create = ap t.before_root at;
              was_absent = absent;
              bytes = bytes;
              token = v;
              quoted = quoted;
              wrapped = wrapped;
              created = ap (λ r. (r, put.1)) q;
              written = got;
              ends = ground arith;
            }
      ]

  create_root-keys :
      (k k' : RepoKeys) (t : CreateTurn S) (bytes : Content) (s s' : S)
      → create_root is_print store k t bytes s ≡ (ok k', s')
      → k' ≡ k
  unfolding create_root
  create_root-keys k k' t bytes s s' h =
      elim (stored_cases (store.put_if_absent (t.before_root s) (root_manifest_key k) bytes).0) [
        | inr (e, q) ↦ absurd (ground arith)
        | inl (v, q) ↦ ground arith
      ]

  create_records-Created :
      (k k' : RepoKeys) (t : CreateTurn S) (default_branch object_format actor : Bytes) (s s' : S)
      → create_records is_print store k t default_branch object_format actor s ≡ (ok k', s')
      → (k' ≡ k) × Created k object_format default_branch actor t s s'
  unfolding create_records
  create_records-Created k k' t default_branch object_format actor s s' h =
      let w = write store (tx_record_key k t.tx_id) (create_header k t) (create_body actor) s in
      elim (Result-cases w.0) [
        | inr (e, q) ↦ absurd (ground arith)
        | inl (_, wrote) ↦
            elim (Result-cases (
              wrap_header_in_body (first_header k.repo_id object_format t.tx_id t.now)
                (first_content is_print default_branch))) [
                  | inr (e, q) ↦ absurd (ground arith)
                  | inl (bytes, q) ↦
                      let rest : create_root is_print store k t bytes w.1 ≡ (ok k', s') =
                        ground arith in
                      (
                        create_root-keys k k' t bytes w.1 s' rest,
                        create_root-Created k k' t object_format default_branch actor bytes s w.1 s'
                            refl q rest,
                      )
                ]
      ]

  module _ (valid : texts.is_valid (v_prefix supported_reader_version) ≡ true)
      (current : texts.is_greater
          (v_prefix supported_reader_version)
          (v_prefix supported_reader_version)
        ≡ false) where
    -- The repository reads as a new one.
    abbrev pub ReadsNew : RepoKeys → Bytes → Bytes → CreateTurn S → S → Type 0
    ReadsNew k object_format default_branch t s =
        (body : Assoc Json) × (token : V) × (read_root texts store s (root_manifest_key k)
          ≡ ok (first_header k.repo_id object_format t.tx_id t.now, body, token))
        × ((j : Bytes) → lookup j body ≡ lookup j (first_body default_branch))

    first_gate : schema_gate texts current_schema_version supported_reader_version ≡ ok tt
    unfolding schema_gate is_empty
    first_gate = ground arith

    Created-ReadsNew :
        (k : RepoKeys) (object_format default_branch actor : Bytes) (t : CreateTurn S) (s s' : S)
        → texts.is_time t.now ≡ true
        → ((u : S)
            → store.get (t.before_marker u) (root_manifest_key k)
              ≡ store.get u (root_manifest_key k))
        → Created k object_format default_branch actor t s s'
        → ReadsNew k object_format default_branch t s'
    Created-ReadsNew k object_format default_branch actor t s s' now quiet c =
        let h = first_header k.repo_id object_format t.tx_id t.now in
        let (body, round, same) =
          parse_root-wrap texts h (first_body default_branch) c.bytes c.wrapped first_gate
            (omega arith) now now in
        let got : store.get s' (root_manifest_key k) ≡ stored (c.bytes, c.token) =
          rw c.ends
            (marker_frame k t.tx_id (t.before_marker c.after) ∙ quiet c.after ∙ c.written) in
        (
          body,
          c.token,
          read_root-of_raw texts store s' (root_manifest_key k) c.bytes h body c.token got round,
          same,
        )

    -- A `Create` that succeeds was given valid names, the object format sha1 or none, and a branch that
    -- `%q` writes as JSON. One create-only write, right after the transaction record and what others did
    -- since, found no root manifest and made it; the marker's write ends the call. If other writers
    -- leave the new root alone until the marker is written, the repository then reads as version 1
    -- with the id of the creating transaction, the object format sha1, and the empty body with the
    -- default branch that was asked for.
    pub create-ReadsNew :
        (tenant_id repo_id : Bytes) (opts : CreateOptions) (t : CreateTurn S) (k : RepoKeys)
        (s s' : S)
        → texts.is_time t.now ≡ true
        → ((u : S)
            → store.get (t.before_marker u) (root_manifest_key k)
              ≡ store.get u (root_manifest_key k))
        → create is_print store tenant_id repo_id opts t s ≡ (ok k, s')
        → (new_repo tenant_id repo_id ≡ inl k)
          × (or_default opts.object_format (codes "sha1") ≡ codes "sha1")
          × Created k
              (codes "sha1")
              (or_default opts.default_branch (codes "refs/heads/main"))
              (or_default opts.actor (codes "unknown"))
              t
              s
              s'
          × ReadsNew k
              (codes "sha1")
              (or_default opts.default_branch (codes "refs/heads/main"))
              t
              s'
    unfolding create
    create-ReadsNew tenant_id repo_id opts t k s s' now quiet h =
        elim (new_repo-cases tenant_id repo_id) [
          | inr (inl q) ↦ absurd (ground arith)
          | inr (inr q) ↦ absurd (ground arith)
          | inl (k', q) ↦
              let fmt = or_default opts.object_format (codes "sha1") in
              let branch = or_default opts.default_branch (codes "refs/heads/main") in
              elim (Bool-cases (eqb fmt (codes "sha1"))) [
                | inr bad ↦ absurd (ground arith)
                | inl good ↦
                    let actor = or_default opts.actor (codes "unknown") in
                    let (e, c) =
                      create_records-Created k' k t branch fmt actor s s' (ground arith) in
                    let is_sha1 = (eqb_iff fmt (codes "sha1")).0 good in
                    let c' : Created k (codes "sha1") branch actor t s s' =
                      subst (λ f. Created k f branch actor t s s') is_sha1 (rw e c) in
                    (
                      q ∙ ap inl (sym e),
                      is_sha1,
                      c',
                      Created-ReadsNew k (codes "sha1") branch actor t s s' now quiet c',
                    )
              ]
        ]
