-- ===== src/Repo/Commit/Attempt.antt =====
-- What one pass through the loop of `Commit` publishes.
use bucketvcs.Prelude.{ℕ, zero, suc, ◌+◌, ◌≡◌, refl, ap, ◌⊎◌, inl, inr, arith, Bytes}
use bucketvcs.Storage.{StorageError, ObjectStore, ok as stored, Result-cases as stored_cases}
use bucketvcs.Repo.Errors.{ok, Result-cases}
use bucketvcs.Repo.Keys.{RepoKeys, root_manifest_key, tx_record_key}
use bucketvcs.Repo.Manifest.{Content, Texts, wrap_header_in_body, read_root}
use bucketvcs.Repo.Tx.{TxBody, write}
use bucketvcs.Repo.Commit.{
  RootView, Turn, returned, conflict, next_header, finish, publish, tx_header_for, wrap_and_publish,
  record_and_publish, build_and_publish, attempt,
}

module _ {S V : Type 0} (texts : Texts) (store : ObjectStore S Content V) (k : RepoKeys) where
  module _ (t : Turn S) where
    -- A write of the root at its moment: until then the root had the version that was read, from then
    -- on it has the new bytes.
    pub record Swaps (version : V) (bytes : Content) (s after : S) : Type 0 where
      pub held : Content
      pub current : store.get s (root_manifest_key k) ≡ stored (held, version)
      pub token : V
      pub swapped :
          store.put_if_version_matches s (root_manifest_key k) version bytes ≡ (stored token, after)
      pub written : store.get after (root_manifest_key k) ≡ stored (bytes, token)

    publish-Swaps :
        (version : V) (bytes : Content) (s s' : S) (id : Bytes)
        → publish texts store k t version bytes s ≡ (returned (ok id), s')
        → (after : S) × Swaps version bytes (t.before_cas s) after
          × (finish texts store k t after ≡ (returned (ok id), s'))
    unfolding publish
    publish-Swaps version bytes s s' id h =
        let put =
          store.put_if_version_matches (t.before_cas s) (root_manifest_key k) version bytes in
        elim (stored_cases put.0) [
          | inr (e, q) ↦ absurd (ground arith)
          | inl (w, q) ↦
              let (held, current) =
                store.matches_held (t.before_cas s) (root_manifest_key k) version bytes w q in
              (
                put.1,
                record {
                  held = held;
                  current = current;
                  token = w;
                  swapped = ap (λ r. (r, put.1)) q;
                  written =
                      store.matches_stored (t.before_cas s) (root_manifest_key k) version bytes w q;
                },
                ground arith,
              )
        ]

    -- What a successful pass did: it read a root, built a body from it, and replaced that very version
    -- of the root by the body under the next header.
    pub record Published (build_body : RootView V → Content ⊎ ℕ) (tx_body : TxBody) (s : S)
        (id : Bytes) (s' : S) : Type 0 where
      pub view : RootView V
      pub read :
          read_root texts store (t.before_read s) (root_manifest_key k)
          ≡ ok (view.header, view.body, view.version)
      pub new_body : Content
      pub built : build_body view ≡ inl new_body
      pub bytes : Content
      pub wrapped :
          wrap_header_in_body (next_header view.header t.tx_id t.updated_at) new_body ≡ ok bytes
      pub before : S
      pub at_cas :
          before
          ≡ t.before_cas
              (write store
                (tx_record_key k t.tx_id)
                (tx_header_for texts store k t view)
                tx_body
                (t.before_write (t.before_read s))).1
      pub after : S
      pub swaps : Swaps view.version bytes before after
      pub finished : finish texts store k t after ≡ (returned (ok id), s')

    module _ (build_body : RootView V → Content ⊎ ℕ) (tx_body : TxBody) (s s' : S)
        (id : Bytes) where
      wrap-Published :
          (view : RootView V) (new_body : Content) (u : S)
          → read_root texts store (t.before_read s) (root_manifest_key k)
            ≡ ok (view.header, view.body, view.version)
          → build_body view ≡ inl new_body
          → u
            ≡ (write store
                (tx_record_key k t.tx_id)
                (tx_header_for texts store k t view)
                tx_body
                (t.before_write (t.before_read s))).1
          → wrap_and_publish texts store k t view new_body u ≡ (returned (ok id), s')
          → Published build_body tx_body s id s'
      unfolding wrap_and_publish
      wrap-Published view new_body u r b at h =
          elim (Result-cases
            (wrap_header_in_body (next_header view.header t.tx_id t.updated_at) new_body)) [
              | inr (e, q) ↦ absurd (ground arith)
              | inl (bytes, q) ↦
                  let (after, swaps, f) = publish-Swaps view.version bytes u s' id (ground arith) in
                  record {
                    view = view;
                    read = r;
                    new_body = new_body;
                    built = b;
                    bytes = bytes;
                    wrapped = q;
                    before = t.before_cas u;
                    at_cas = ap t.before_cas at;
                    after = after;
                    swaps = swaps;
                    finished = f;
                  }
            ]

      record-Published :
          (view : RootView V) (new_body : Content)
          → read_root texts store (t.before_read s) (root_manifest_key k)
            ≡ ok (view.header, view.body, view.version)
          → build_body view ≡ inl new_body
          → record_and_publish texts store k tx_body t view new_body (t.before_read s)
            ≡ (returned (ok id), s')
          → Published build_body tx_body s id s'
      unfolding record_and_publish
      record-Published view new_body r b h =
          let w =
            write store (tx_record_key k t.tx_id) (tx_header_for texts store k t view) tx_body
              (t.before_write (t.before_read s)) in
          elim (Result-cases w.0) [
            | inr (e, q) ↦ absurd (ground arith)
            | inl (_, q) ↦ wrap-Published view new_body w.1 r b refl (ground arith)
          ]

      build-Published :
          (view : RootView V)
          → read_root texts store (t.before_read s) (root_manifest_key k)
            ≡ ok (view.header, view.body, view.version)
          → (built : Content ⊎ ℕ) → build_body view ≡ built
          → build_and_publish texts store k tx_body build_body t view (t.before_read s)
            ≡ (returned (ok id), s')
          → Published build_body tx_body s id s'
      unfolding build_and_publish
      build-Published view r (inr e) b h = absurd (ground arith)
      build-Published view r (inl new_body) b h = record-Published view new_body r b (ground arith)

      -- A pass that returns an id has published: the callback's body on the view that it read, under the
      -- next header with that id, in place of exactly the version of the root that it read.
      pub attempt-Published :
          attempt texts store k tx_body build_body t s ≡ (returned (ok id), s')
          → Published build_body tx_body s id s'
      unfolding attempt
      attempt-Published h =
          elim (Result-cases (read_root texts store (t.before_read s) (root_manifest_key k))) [
            | inr (e, q) ↦ absurd (ground arith)
            | inl ((header, body, version), q) ↦
                let view : RootView V = record {
                  header = header;
                  body = body;
                  version = version;
                } in
                build-Published view q (build_body view) refl (ground arith)
          ]

  module _ (tx_body : TxBody) (build_body : RootView V → Content ⊎ ℕ) (turns : ℕ → Turn S) where
    -- The `n` attempts from number `i` on each ended in a conflict, the first one started from `s`, each
    -- other one from what the one before it left, and the last one left `u`.
    abbrev pub Retries : ℕ → ℕ → S → S → Type 0
    Retries i zero s u = s ≡ u
    Retries i (suc n) s u =
        let a = attempt texts store k tx_body build_body (turns i) s in
        (e : StorageError) × (a.0 ≡ conflict e) × Retries (i + 1) n a.1 u
