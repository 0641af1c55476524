-- ===== src/Storage/Localfs/Faults.antt =====
-- Writes of internal/storage/localfs that the operating system interrupts, and deletion.
use bucketvcs.Prelude.{
  ℕ, ◌≡◌, refl, ◌∙◌, ◌⊎◌, inl, inr, Bool, true, false, ◌&&◌, none, some, arith, ◌==◌, if◌then◌else◌,
  Bytes, eqb, Bool-cases, Option-cases, eqb_refl, eqb_iff, ◌≢◌,
}
use bucketvcs.Prelude.Assoc.{lookup, insert, lookup-remove, map_laws}
use bucketvcs.Storage.{
  StorageError, not_found, version_mismatch, invalid_argument, closed, io, Result, ok, err,
  ObjectVersion, same_version, same_version_iff,
}
use bucketvcs.Storage.Localfs.Keys.{validate_key}
use bucketvcs.Storage.Localfs.Heal.{
  view, seen, version_in, view-seen, same_view, head_locked-Heals, view-head_locked,
}
use bucketvcs.Storage.Localfs.{
  Blob, RemoveFault, no_remove_fault, content_removal, removal_sync, sidecar_removal, last_sync,
  Sidecar, json, file, link, Disk, ObjectMetadata, parse_sidecar, version_of, check_open, check_key,
  lstat_no_symlink, head_parsed, head_locked, check_version, meta_rename, write_atomic,
  absent_is_mismatch, put_if_version_matches, remove_files, delete_if_version_matches,
}
use bucketvcs.Storage.Localfs.Laws.{view-head}

module _ {B : Type 0} (blob : Blob B) where
  -- A replacement whose sidecar cannot be renamed reports an error and has written the body. `Get`
  -- shows that body under its own hash if its size differs from the old body's, and under the version
  -- of the old body if the sizes are equal: then the sidecar is not repaired.
  pub put_if_version_matches-meta_rename :
      (now mtime : ℕ) (key content_type : Bytes) (old body : B) (sc : Sidecar) (d : Disk B)
      → d.lockfile_removed ≡ false
      → validate_key key ≡ none
      → lookup key d.files ≡ some (file old mtime)
      → lookup key d.metas ≡ some (json sc)
      → sc.version ≡ 1
      → sc.size ≡ blob.size old
      → ((put_if_version_matches blob meta_rename now key
            (version_of sc.sha256)
            body
            content_type
            d).0
          ≡ err io)
        × (view blob key
              (put_if_version_matches blob meta_rename now key
                (version_of sc.sha256)
                body
                content_type
                d).1
            ≡ ok (
              body,
              if blob.size old == blob.size body
                  then version_of sc.sha256
                  else version_of (blob.hash body),
            ))
  unfolding put_if_version_matches check_open check_key lstat_no_symlink absent_is_mismatch
      head_locked head_parsed parse_sidecar check_version write_atomic seen version_in
  put_if_version_matches-meta_rename now mtime key ct old body sc d o k f m v s =
      let same = (same_version_iff (version_of sc.sha256) (version_of sc.sha256)).1 refl in
      let after = record d { files = insert key (file body now) d.files } in
      let e : put_if_version_matches blob meta_rename now key (version_of sc.sha256) body ct d
          ≡ (err io, after) =
        ground arith in
      rw e (refl, view-seen blob key after o k ∙ simp map_laws (ground arith))

  -- Whether the content is gone after a removal with that fault.
  abbrev pub removes : RemoveFault → Bool
  removes content_removal = false
  removes _ = true

  -- What the two files of `j` show after the removal of those of `key`.
  removed_seen :
      (fault : RemoveFault) (key j : Bytes) (d : Disk B)
      → seen blob
          (lookup j (remove_files blob fault key d).1.files)
          (lookup j (remove_files blob fault key d).1.metas)
        ≡ (if removes fault && eqb key j
            then err not_found
            else seen blob (lookup j d.files) (lookup j d.metas))
  unfolding remove_files seen
  removed_seen content_removal key j d = refl
  removed_seen no_remove_fault key j d = elim (Bool-cases (eqb key j)) [
    | inl same ↦ simp (lookup-remove, same)
    | inr other ↦ simp (lookup-remove, other)
  ]
  removed_seen removal_sync key j d = elim (Bool-cases (eqb key j)) [
    | inl same ↦ simp (lookup-remove, same)
    | inr other ↦ simp (lookup-remove, other)
  ]
  removed_seen sidecar_removal key j d = elim (Bool-cases (eqb key j)) [
    | inl same ↦ simp (lookup-remove, same)
    | inr other ↦ simp (lookup-remove, other)
  ]
  removed_seen last_sync key j d = elim (Bool-cases (eqb key j)) [
    | inl same ↦ simp (lookup-remove, same)
    | inr other ↦ simp (lookup-remove, other)
  ]

  removed_lock :
      (fault : RemoveFault) (key : Bytes) (d : Disk B)
      → (remove_files blob fault key d).1.lockfile_removed ≡ d.lockfile_removed
  unfolding remove_files
  removed_lock no_remove_fault key d = refl
  removed_lock content_removal key d = refl
  removed_lock removal_sync key d = refl
  removed_lock sidecar_removal key d = refl
  removed_lock last_sync key d = refl

  -- A removal reports success where there was no fault, and otherwise an error of the system.
  removed_result :
      (fault : RemoveFault) (key : Bytes) (d : Disk B)
      → (((remove_files blob fault key d).0 ≡ ok tt) × (removes fault ≡ true))
        ⊎ ((remove_files blob fault key d).0 ≡ err io)
  unfolding remove_files
  removed_result no_remove_fault key d = inl (refl, refl)
  removed_result content_removal key d = inr refl
  removed_result removal_sync key d = inr refl
  removed_result sidecar_removal key d = inr refl
  removed_result last_sync key d = inr refl

  -- How a deletion ends: with an error and nothing changed that a reader sees, or with the removal of
  -- the key's files, after the version that `Get` shows was the expected one.
  abbrev Deletes :
      RemoveFault → Bytes → ObjectVersion → Disk B → Result (Unit {0}) × Disk B → Type 0
  Deletes fault key expected d r =
      ((e : StorageError) × (d' : Disk B) × (r ≡ (err e, d'))
        × ((j : Bytes) → view blob j d' ≡ view blob j d))
      ⊎ ((held : B) × (view blob key d ≡ ok (held, expected))
          × (d.lockfile_removed ≡ false)
          × (validate_key key ≡ none)
          × (r ≡ remove_files blob fault key (head_locked blob key d).1))

  module _ (fault : RemoveFault) (key : Bytes) (expected : ObjectVersion) (d : Disk B) where
    deletes_from_head :
        (content : B) (mtime : ℕ)
        → d.lockfile_removed ≡ false
        → validate_key key ≡ none
        → lookup key d.files ≡ some (file content mtime)
        → (r : Result ObjectMetadata) → (head_locked blob key d).0 ≡ r
        → Deletes fault key expected d (delete_if_version_matches blob fault key expected d)
    unfolding delete_if_version_matches check_open check_key lstat_no_symlink check_version
    deletes_from_head content mtime o k f (err e) h =
        inl (e, (head_locked blob key d).1, ground arith, λ j. view-head_locked blob key j d)
    deletes_from_head content mtime o k f (ok md) h =
        elim (Bool-cases (same_version md.version expected)) [
          | inl same ↦ inr (
            content,
            rw (← ((same_version_iff md.version expected).0 same))
                (view-head blob key content mtime d o k f md h),
            o,
            k,
            ground arith,
          )
          | inr other ↦ inl (
            version_mismatch,
            (head_locked blob key d).1,
            ground arith,
            λ j. view-head_locked blob key j d,
          )
        ]

    deletes : Deletes fault key expected d (delete_if_version_matches blob fault key expected d)
    unfolding delete_if_version_matches check_open check_key lstat_no_symlink
    deletes = elim (Bool-cases d.lockfile_removed) [
      | inl shut ↦ inl (closed, d, ground arith, λ j. refl)
      | inr open_ ↦ elim (Option-cases (validate_key key)) [
        | inr (r, bad) ↦ inl (invalid_argument, d, ground arith, λ j. refl)
        | inl valid ↦ elim (Option-cases (lookup key d.files)) [
          | inl absent ↦ inl (not_found, d, ground arith, λ j. refl)
          | inr (link, f) ↦ inl (invalid_argument, d, ground arith, λ j. refl)
          | inr (file content mtime, f) ↦ deletes_from_head content mtime open_ valid f _ refl
        ]
      ]
    ]

    deleted_gone :
        d.lockfile_removed ≡ false
        → validate_key key ≡ none
        → removes fault ≡ true
        → view blob key (remove_files blob fault key (head_locked blob key d).1).1 ≡ err not_found
    deleted_gone o k gone =
        let d' = (head_locked blob key d).1 in
        let h = head_locked-Heals blob key d in
        view-seen blob key (remove_files blob fault key d').1
          (removed_lock fault key d' ∙ h.same_lock ∙ o) k
        ∙ removed_seen fault key key d'
        ∙ rw (gone, eqb_refl key) refl

    deleted_kept :
        (j : Bytes)
        → (removes fault && eqb key j) ≡ false
        → view blob j (remove_files blob fault key (head_locked blob key d).1).1 ≡ view blob j d
    deleted_kept j kept =
        let d' = (head_locked blob key d).1 in
        let h = head_locked-Heals blob key d in
        same_view blob j d (remove_files blob fault key d').1
          (removed_lock fault key d' ∙ h.same_lock)
          (removed_seen fault key j d' ∙ rw (kept, h.same_files) (h.same_seen j))

    -- What a failed deletion leaves to readers: everything, or everything but the object that had the
    -- expected version.
    abbrev pub Leaves : StorageError → Disk B → Type 0
    Leaves e d' =
        ((j : Bytes) → view blob j d' ≡ view blob j d)
        ⊎ ((e ≡ io)
            × ((held : B) × (view blob key d ≡ ok (held, expected)))
            × (view blob key d' ≡ err not_found))

    -- A deletion that reports success removed the version it was given: `Get` showed it before and
    -- finds nothing afterwards. One that fails, at whatever step, changes nothing that a reader sees;
    -- or the error is one of the file system after the content was removed: then `Get` showed the
    -- expected version before and finds nothing afterwards, although the call reports an error.
    pub delete_if_version_matches_lem :
        ((delete_if_version_matches blob fault key expected d).0 ≡ ok tt
          → ((held : B) × (view blob key d ≡ ok (held, expected)))
            × (view blob key (delete_if_version_matches blob fault key expected d).1
                ≡ err not_found))
        × ((e : StorageError)
            → (delete_if_version_matches blob fault key expected d).0 ≡ err e
            → Leaves e (delete_if_version_matches blob fault key expected d).1)
    delete_if_version_matches_lem = elim deletes [
      | inl (e, d', q, same) ↦ (λ h. cc (q, h), λ e' h. inl (λ j. rw q (same j)))
      | inr (held, v, o, k, q) ↦ elim (removed_result fault key (head_locked blob key d).1) [
        | inl (good, gone) ↦
            (λ h. ((held, v), rw q (deleted_gone o k gone)), λ e h. cc (q, good, h))
        | inr bad ↦ (
          λ h. cc (q, bad, h),
          λ e h. elim (Bool-cases (removes fault)) [
            | inr kept ↦ inl (λ j. rw q (deleted_kept j (rw kept refl)))
            | inl gone ↦ inr (cc (q, bad, h), (held, v), rw q (deleted_gone o k gone))
          ],
        )
      ]
    ]

    -- A deletion changes no other key, whether it succeeds or fails.
    pub delete_if_version_matches-frame :
        (j : Bytes)
        → key ≢ j
        → view blob j (delete_if_version_matches blob fault key expected d).1 ≡ view blob j d
    delete_if_version_matches-frame j ne = elim deletes [
      | inl (e, d', q, same) ↦ rw q (same j)
      | inr (held, v, o, k, q) ↦
          let other : eqb key j ≡ false = elim (Bool-cases (eqb key j)) [
            | inl t ↦ absurd (ne ((eqb_iff key j).0 t))
            | inr f ↦ f
          ] in
          rw q (deleted_kept j (ground arith))
    ]
