-- ===== src/Storage/Localfs/Laws.antt =====
-- How the conditional writes of internal/storage/localfs end.
use bucketvcs.Prelude.{
  ℕ, ◌≡◌, ◌≢◌, refl, ◌∙◌, ◌⊎◌, inl, inr, false, none, some, arith, Bytes, eqb, Bool-cases,
  Option-cases, eqb_iff,
}
use bucketvcs.Prelude.Assoc.{lookup, lookup-insert, map_laws}
use bucketvcs.Storage.{
  StorageError, not_found, already_exists, version_mismatch, invalid_argument, closed, io, Result,
  ok, err, ObjectVersion, same_version, same_version_iff,
}
use bucketvcs.Storage.Localfs.Keys.{validate_key}
use bucketvcs.Storage.Localfs.Heal.{
  view, seen, version_in, view-seen, same_view, head_locked-Heals, view-head_locked,
}
use bucketvcs.Storage.Localfs.{
  Blob, file, link, Disk, ObjectMetadata, parse_sidecar, check_open, check_key, lstat_no_symlink,
  heal_sidecar, head_parsed, head_locked, check_version, Fault, no_fault, before_rename,
  content_sync, meta_rename, meta_sync, write_atomic, check_absent, put_if_absent,
  absent_is_mismatch, put_if_version_matches,
}

module _ {B : Type 0} (blob : Blob B) where
  -- A write that reports success is seen by the next `Get`, under the version that it returned.
  pub write_atomic_seen :
      (fault : Fault) (now : ℕ) (key : Bytes) (body : B) (content_type : Bytes) (d : Disk B)
      (v : ObjectVersion)
      → d.lockfile_removed ≡ false
      → validate_key key ≡ none
      → (write_atomic blob fault now key body content_type d).0 ≡ ok v
      → view blob key (write_atomic blob fault now key body content_type d).1 ≡ ok (body, v)
  unfolding write_atomic seen version_in parse_sidecar
  write_atomic_seen no_fault now key body ct d v o k h =
      view-seen blob key (write_atomic blob no_fault now key body ct d).1 o k
      ∙ simp map_laws (ground arith)
  write_atomic_seen before_rename now key body ct d v o k h = cc
  write_atomic_seen content_sync now key body ct d v o k h = cc
  write_atomic_seen meta_rename now key body ct d v o k h = cc
  write_atomic_seen meta_sync now key body ct d v o k h = cc

  -- The only error of a write is one of the operating system.
  pub write_atomic_err :
      (fault : Fault) (now : ℕ) (key : Bytes) (body : B) (content_type : Bytes) (d : Disk B)
      (e : StorageError)
      → (write_atomic blob fault now key body content_type d).0 ≡ err e
      → e ≡ io
  unfolding write_atomic
  write_atomic_err no_fault now key body ct d e h = cc
  write_atomic_err _ now key body ct d e h = cc

  -- A write, whatever becomes of it, changes no other key.
  pub write_atomic_frame :
      (fault : Fault) (now : ℕ) (key j : Bytes) (body : B) (content_type : Bytes) (d : Disk B)
      → key ≢ j
      → view blob j (write_atomic blob fault now key body content_type d).1 ≡ view blob j d
  unfolding write_atomic
  write_atomic_frame fault now key j body ct d ne =
      same_view blob j d (write_atomic blob fault now key body ct d).1 (lock fault) (seen_lem fault)
    where
      lock :
          (f : Fault)
          → (write_atomic blob f now key body ct d).1.lockfile_removed ≡ d.lockfile_removed
      lock no_fault = refl
      lock _ = refl

      other : eqb key j ≡ false
      other = ground (arith, eqb_iff key j)

      seen_lem :
          (f : Fault)
          → seen blob
              (lookup j (write_atomic blob f now key body ct d).1.files)
              (lookup j (write_atomic blob f now key body ct d).1.metas)
            ≡ seen blob (lookup j d.files) (lookup j d.metas)
      seen_lem before_rename = refl
      seen_lem _ = simp (lookup-insert, other)

  -- The metadata that `headLocked` returns has the version that `Get` shows.
  pub view-head :
      (key : Bytes) (content : B) (mtime : ℕ) (d : Disk B)
      → d.lockfile_removed ≡ false
      → validate_key key ≡ none
      → lookup key d.files ≡ some (file content mtime)
      → (md : ObjectMetadata) → (head_locked blob key d).0 ≡ ok md
      → view blob key d ≡ ok (content, md.version)
  unfolding head_locked head_parsed heal_sidecar seen version_in
  view-head key content mtime d o k f md h = view-seen blob key d o k ∙ ground arith

  head_found :
      (key : Bytes) (content : B) (mtime : ℕ) (d : Disk B)
      → lookup key d.files ≡ some (file content mtime)
      → (head_locked blob key d).0 ≢ err not_found
  unfolding head_locked head_parsed heal_sidecar
  head_found key content mtime d f h = ground arith

  module _ (fault : Fault) (now : ℕ) (content_type : Bytes) where
    -- How a call of `PutIfVersionMatches` ends: refused, with nothing changed that a reader sees, or
    -- in a write, after the version that `Get` shows was the expected one.
    pub data Ends (key : Bytes) (expected : ObjectVersion) (body : B) (d : Disk B)
        : Result ObjectVersion × Disk B → Type 0 where
      refused :
          (e : StorageError) (d' : Disk B)
          → ((j : Bytes) → view blob j d' ≡ view blob j d)
          → Ends key expected body d (err e, d')
      written :
          (held : B) (d' : Disk B) (r : Result ObjectVersion × Disk B)
          → ((j : Bytes) → view blob j d' ≡ view blob j d)
          → d'.lockfile_removed ≡ false
          → validate_key key ≡ none
          → view blob key d ≡ ok (held, expected)
          → r ≡ write_atomic blob fault now key body content_type d'
          → Ends key expected body d r

    module _ (key : Bytes) (expected : ObjectVersion) (body : B) (d : Disk B) where
      abbrev pub result : Result ObjectVersion × Disk B
      result = put_if_version_matches blob fault now key expected body content_type d

      Ends-refused_now :
          (e : StorageError) (d' : Disk B)
          → ((j : Bytes) → view blob j d' ≡ view blob j d)
          → result ≡ (err e, d')
          → Ends key expected body d result
      Ends-refused_now e d' h q = rw q (refused e d' h)

      -- The rest of `PutIfVersionMatches` behind `headLocked`.
      Ends-from_head :
          (content : B) (mtime : ℕ)
          → d.lockfile_removed ≡ false
          → validate_key key ≡ none
          → lookup key d.files ≡ some (file content mtime)
          → (r : Result ObjectMetadata) → (head_locked blob key d).0 ≡ r
          → Ends key expected body d result
      unfolding put_if_version_matches check_open check_key lstat_no_symlink absent_is_mismatch
          check_version
      Ends-from_head content mtime o k f (err e) h =
          Ends-refused_now e (head_locked blob key d).1 (λ j. view-head_locked blob key j d)
            (ground (arith, head_found key content mtime d f))
      Ends-from_head content mtime o k f (ok md) h =
          elim (Bool-cases (same_version md.version expected)) [
            | inl same ↦
                written content (head_locked blob key d).1 result
                  (λ j. view-head_locked blob key j d)
                  ((head_locked-Heals blob key d).same_lock ∙ o) k
                  (rw (← ((same_version_iff md.version expected).0 same))
                    (view-head key content mtime d o k f md h))
                  (ground arith)
            | inr other ↦
                Ends-refused_now version_mismatch (head_locked blob key d).1
                  (λ j. view-head_locked blob key j d) (ground arith)
          ]

      pub matches-Ends : Ends key expected body d result
      unfolding put_if_version_matches check_open check_key lstat_no_symlink absent_is_mismatch
      matches-Ends = elim (Bool-cases d.lockfile_removed) [
        | inl shut ↦ Ends-refused_now closed d (λ j. refl) (ground arith)
        | inr open_ ↦ elim (Option-cases (validate_key key)) [
          | inr (r, bad) ↦ Ends-refused_now invalid_argument d (λ j. refl) (ground arith)
          | inl valid ↦ elim (Option-cases (lookup key d.files)) [
            | inl absent ↦ Ends-refused_now version_mismatch d (λ j. refl) (ground arith)
            | inr (link, f) ↦ Ends-refused_now invalid_argument d (λ j. refl) (ground arith)
            | inr (file content mtime, f) ↦ Ends-from_head content mtime open_ valid f _ refl
          ]
        ]
      ]

    -- `PutIfAbsent`
    pub absent_lem :
        (key : Bytes) (body : B) (d : Disk B)
        → (d.lockfile_removed ≡ false)
            × (validate_key key ≡ none)
            × (lookup key d.files ≡ none)
            × (put_if_absent blob fault now key body content_type d
                ≡ write_atomic blob fault now key body content_type d)
          ⊎ ((e : StorageError) × (put_if_absent blob fault now key body content_type d
                ≡ (err e, d)))
    unfolding put_if_absent check_open check_key check_absent
    absent_lem key body d = elim (Bool-cases d.lockfile_removed) [
      | inl shut ↦ inr (closed, ground arith)
      | inr open_ ↦ elim (Option-cases (validate_key key)) [
        | inr (r, bad) ↦ inr (invalid_argument, ground arith)
        | inl valid ↦ elim (Option-cases (lookup key d.files)) [
          | inl absent ↦ inl (open_, valid, absent, ground arith)
          | inr (x, f) ↦ inr (already_exists, ground arith)
        ]
      ]
    ]
