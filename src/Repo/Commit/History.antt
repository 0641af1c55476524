-- ===== src/Repo/Commit/History.antt =====
-- A successful `Commit` advances the root by one version in one step.
use bucketvcs.Prelude.{
  ℕ, zero, suc, ◌+◌, ◌<◌, ◌≡◌, refl, ◌⊎◌, inl, inr, true, List, [], ◌∷◌, ◌++◌, arith, Bytes,
}
use bucketvcs.Prelude.Assoc.{Assoc, lookup}
use bucketvcs.Storage.{
  StorageError, version_mismatch, ObjectStore, ok as stored, Result-cases as stored_cases,
}
use bucketvcs.Repo.Errors.{Result, ok, Result-cases}
use bucketvcs.Repo.Keys.{RepoKeys, root_manifest_key, tx_record_key}
use bucketvcs.Repo.Manifest.{
  Json, Content, object, text, null_text, RootHeader, Texts, time_field, zero_time, schema_gate,
  decode_header, wrap_header_in_body, parse_root, read_root,
}
use bucketvcs.Repo.Manifest.RoundTrip.{parse_root-wrap}
use bucketvcs.Repo.Tx.{TxBody, write}
use bucketvcs.Repo.Commit.{
  RootView, Turn, CommitPolicy, End, returned, conflict, next_header, finish, tx_header_for,
  attempt, commit_loop, normalize, commit,
}
use bucketvcs.Repo.Commit.Attempt.{Published, attempt-Published, Retries}

-- A manifest that `ReadRoot` accepts has a header that the schema gate admits.
pub parse_root-gate :
    (texts : Texts) (raw : Content) (h : RootHeader) (body : Assoc Json)
    → parse_root texts raw ≡ ok (h, body)
    → schema_gate texts h.schema_version h.min_reader_version ≡ ok tt
unfolding parse_root decode_header
parse_root-gate texts raw h body e = ground arith

pub parse_root-created_at :
    (texts : Texts) (raw : Content) (h : RootHeader) (body : Assoc Json)
    → texts.is_time zero_time ≡ true
    → parse_root texts raw ≡ ok (h, body)
    → texts.is_time h.created_at ≡ true
unfolding parse_root decode_header time_field
parse_root-created_at texts raw h body z e = ground arith

read_root-raw :
    {S V : Type 0} (texts : Texts) (store : ObjectStore S Content V) (s : S) (key : Bytes)
    (h : RootHeader) (body : Assoc Json) (v : V)
    → read_root texts store s key ≡ ok (h, body, v)
    → (raw : Content) × (store.get s key ≡ stored (raw, v)) × (parse_root texts raw ≡ ok (h, body))
unfolding read_root
read_root-raw texts store s key h body v e = elim (stored_cases (store.get s key)) [
  | inr (x, q) ↦ absurd (ground arith)
  | inl ((raw, v'), q) ↦ elim (Result-cases (parse_root texts raw)) [
    | inr (x, p) ↦ absurd (ground arith)
    | inl ((h', body'), p) ↦ (raw, ground arith, ground arith)
  ]
]

pub read_root-of_raw :
    {S V : Type 0} (texts : Texts) (store : ObjectStore S Content V) (s : S) (key : Bytes)
    (raw : Content) (h : RootHeader) (body : Assoc Json) (v : V)
    → store.get s key ≡ stored (raw, v)
    → parse_root texts raw ≡ ok (h, body)
    → read_root texts store s key ≡ ok (h, body, v)
unfolding read_root
read_root-of_raw texts store s key raw h body v g p = ground arith

End-cases :
    (e : End) → ((r : Result Bytes) × (e ≡ returned r)) ⊎ ((x : StorageError) × (e ≡ conflict x))
End-cases (returned r) = inl (r, refl)
End-cases (conflict x) = inr (x, refl)

-- The map of a body that `WrapHeaderInBody` takes.
abbrev pub body_map : Content → Assoc Json
body_map (object top) = top
body_map _ = []

wrap-as_object :
    (h : RootHeader) (c d : Content)
    → wrap_header_in_body h c ≡ ok d
    → wrap_header_in_body h (object (body_map c)) ≡ ok d
unfolding wrap_header_in_body
wrap-as_object h (object top) d e = e
wrap-as_object h (text []) d e = e
wrap-as_object h (text (c ∷ s)) d e = cc
wrap-as_object h null_text d e = cc

module _ {S V : Type 0} (texts : Texts) (store : ObjectStore S Content V) (k : RepoKeys)
    (zero_is_time : texts.is_time zero_time ≡ true)
    (token_names : (s u : S) (key : Bytes) (c d : Content) (v : V)
      → store.get s key ≡ stored (c, v)
      → store.get u key ≡ stored (d, v)
      → c ≡ d) where
  -- One step of the root in an attempt from the state `s`: `before` is the state at the call of the
  -- store that replaces the root, which is after everything that others did since the read, and
  -- `after` is what that call leaves. The root in `before` reads as `view`, in `after` as the next
  -- header over a body with the values that the callback gave.
  pub record Advances (t : Turn S) (tx_body : TxBody) (build_body : RootView V → Content ⊎ ℕ)
      (s before after : S) : Type 0 where
    pub view : RootView V
    pub viewed :
        read_root texts store (t.before_read s) (root_manifest_key k)
        ≡ ok (view.header, view.body, view.version)
    pub at_cas :
        before
        ≡ t.before_cas
            (write store
              (tx_record_key k t.tx_id)
              (tx_header_for texts store k t view)
              tx_body
              (t.before_write (t.before_read s))).1
    pub read_before :
        read_root texts store before (root_manifest_key k)
        ≡ ok (view.header, view.body, view.version)
    pub new_body : Content
    pub built : build_body view ≡ inl new_body
    pub body : Assoc Json
    pub token : V
    pub bytes : Content
    pub wrapped :
        wrap_header_in_body (next_header view.header t.tx_id t.updated_at) new_body ≡ ok bytes
    pub swapped :
        store.put_if_version_matches before (root_manifest_key k) view.version bytes
        ≡ (stored token, after)
    pub read_after :
        read_root texts store after (root_manifest_key k)
        ≡ ok (next_header view.header t.tx_id t.updated_at, body, token)
    pub same_values : (j : Bytes) → lookup j body ≡ lookup j (body_map new_body)

  Published-Advances :
      (t : Turn S) (tx_body : TxBody) (build_body : RootView V → Content ⊎ ℕ) (s s' : S)
      (id : Bytes)
      → texts.is_time t.updated_at ≡ true
      → (p : Published texts store k t build_body tx_body s id s')
      → Advances t tx_body build_body s p.before p.after
  unfolding next_header
  Published-Advances t tx_body build_body s s' id now p =
      let next = next_header p.view.header t.tx_id t.updated_at in
      let (raw, got, parsed) =
        read_root-raw texts store (t.before_read s) (root_manifest_key k) p.view.header p.view.body
          p.view.version p.read in
      let same : raw ≡ p.swaps.held =
        token_names (t.before_read s) p.before (root_manifest_key k) raw p.swaps.held p.view.version
          got p.swaps.current in
      let (body, round, values) =
        parse_root-wrap texts next (body_map p.new_body) p.bytes
          (wrap-as_object next p.new_body p.bytes p.wrapped)
          (parse_root-gate texts raw p.view.header p.view.body parsed) (omega arith)
          (parse_root-created_at texts raw p.view.header p.view.body zero_is_time parsed) now in
      record {
        view = p.view;
        viewed = p.read;
        at_cas = p.at_cas;
        read_before =
            read_root-of_raw texts store p.before (root_manifest_key k) raw p.view.header
              p.view.body p.view.version (rw same p.swaps.current) parsed;
        new_body = p.new_body;
        built = p.built;
        body = body;
        token = p.swaps.token;
        bytes = p.bytes;
        wrapped = p.wrapped;
        swapped = p.swaps.swapped;
        read_after =
            read_root-of_raw texts store p.after (root_manifest_key k) p.bytes next body
              p.swaps.token p.swaps.written round;
        same_values = values;
      }

  module _ (tx_body : TxBody) (build_body : RootView V → Content ⊎ ℕ) (turns : ℕ → Turn S) where
    -- After `n` conflicts, the attempt with number `j` returned the id.
    abbrev Succeeds : ℕ → ℕ → Bytes → S → S → Type 0
    Succeeds i left id s s' =
        (j n : ℕ) × (u : S) × (j ≡ i + n)
        × (n < left)
        × Retries texts store k tx_body build_body turns i n s u
        × (attempt texts store k tx_body build_body (turns j) u ≡ (returned (ok id), s'))

    commit_loop-Succeeds :
        (left : ℕ) (policy : CommitPolicy) (i : ℕ) (orphans : List Bytes) (last : StorageError)
        (s s' : S) (id : Bytes)
        → commit_loop texts store k left policy tx_body build_body turns i orphans last s
          ≡ (ok id, s')
        → Succeeds i left id s s'
    unfolding commit_loop
    commit_loop-Succeeds zero policy i orphans last s s' id h = absurd (ground arith)
    commit_loop-Succeeds (suc left) policy i orphans last s s' id h =
        let a = attempt texts store k tx_body build_body (turns i) s in
        elim (End-cases a.0) [
          | inl (r, q) ↦ (i, 0, s, omega arith, omega arith, refl, ground arith)
          | inr (e, q) ↦
              let (j, n, u, at, high, tried, done) =
                commit_loop-Succeeds left policy (i + 1) (orphans ++ (turns i).tx_id ∷ []) e a.1 s'
                  id (ground arith) in
              (j, suc n, u, omega arith, omega arith, (e, q, tried), done)
        ]

    -- A `Commit` that returns an id made some number of attempts, fewer than its budget, that all ended
    -- in a conflict, and then one that advanced the root in one step. In that attempt, started from the
    -- state that the conflicts left, one conditional write takes the state just before it to the
    -- state just after it. Just before it, with all that other writers did since the attempt's read,
    -- the root still reads as the view that the callback was given, so no change of the root between
    -- the read and the write is lost; just after it the root has the next version number, that id, and
    -- the values of the callback's body. The marker's write ends the call.
    pub commit-Advances :
        (policy : CommitPolicy) (s s' : S) (id : Bytes)
        → ((j : ℕ) → texts.is_time (turns j).updated_at ≡ true)
        → commit texts store k policy tx_body build_body turns s ≡ (ok id, s')
        → (j n : ℕ) × (u before after : S) × (j ≡ 1 + n)
          × (n < (normalize policy).max_retries)
          × Retries texts store k tx_body build_body turns 1 n s u
          × Advances (turns j) tx_body build_body u before after
          × (finish texts store k (turns j) after ≡ (returned (ok id), s'))
    unfolding commit
    commit-Advances policy s s' id now h =
        let n = normalize policy in
        let (j, c, u, at, high, tried, done) =
          commit_loop-Succeeds n.max_retries n 1 [] version_mismatch s s' id h in
        let p = attempt-Published texts store k (turns j) build_body tx_body u s' id done in
        (
          j,
          c,
          u,
          p.before,
          p.after,
          at,
          high,
          tried,
          Published-Advances (turns j) tx_body build_body u s' id (now j) p,
          p.finished,
        )
