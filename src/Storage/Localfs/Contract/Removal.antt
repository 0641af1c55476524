-- ===== src/Storage/Localfs/Contract/Removal.antt =====
-- internal/storage/localfs as the store of the garbage collector: `Head`, and deletion.
use bucketvcs.Prelude.{ℕ, ◌≡◌, refl, ◌∙◌, inl, inr, Bytes, Bool-cases, Option-cases}
use bucketvcs.Prelude.Assoc.{lookup}
use bucketvcs.Storage.{Result, ok, err, ObjectVersion, Deletes}
use bucketvcs.Storage.Localfs.Keys.{validate_key}
use bucketvcs.Storage.Localfs.Heal.{view, view-head_locked}
use bucketvcs.Storage.Localfs.{
  Action, continue, ◌>>=◌, ◌>>◌, Blob, Disk, Fault, RemoveFault, file, link, ObjectMetadata,
  check_open, check_key, lstat_no_symlink, head_locked, head, delete_if_version_matches,
}
use bucketvcs.Storage.Localfs.Contract.{localfs_store}
use bucketvcs.Storage.Localfs.Faults.{
  delete_if_version_matches_lem, delete_if_version_matches-frame,
}

module _ {B : Type 0} (blob : Blob B) where
  -- An action that changes nothing that a reader sees at the key.
  abbrev Quiet : Bytes → {A : Type 0} → Action B A → Type 0
  Quiet j m = (d : Disk B) → view blob j (m d).1 ≡ view blob j d

  Quiet-continue :
      (j : Bytes) {A C : Type 0} (r : Result A) (f : A → Action B C)
      → ((a : A) → Quiet j (f a))
      → Quiet j (continue r f)
  Quiet-continue j (ok a) f q d = q a d
  Quiet-continue j (err e) f q d = refl

  Quiet-bind :
      (j : Bytes) {A C : Type 0} (m : Action B A) (f : A → Action B C)
      → Quiet j m
      → ((a : A) → Quiet j (f a))
      → Quiet j (m >>= f)
  Quiet-bind j m f q qs d = Quiet-continue j (m d).0 f qs (m d).1 ∙ q d

  Quiet-check_open : (j : Bytes) → Quiet j (check_open blob)
  unfolding check_open
  Quiet-check_open j d = elim (Bool-cases d.lockfile_removed) [ inl t ↦ simp t | inr f ↦ simp f ]

  Quiet-check_key : (j key : Bytes) → Quiet j (check_key blob key)
  unfolding check_key
  Quiet-check_key j key d = elim (Option-cases (validate_key key)) [
    | inl valid ↦ rw (valid, check_key) refl
    | inr (r, bad) ↦ rw (bad, check_key) refl
  ]

  Quiet-lstat : (j key : Bytes) → Quiet j (lstat_no_symlink blob key)
  unfolding lstat_no_symlink
  Quiet-lstat j key d = elim (Option-cases (lookup key d.files)) [
    | inl absent ↦ rw (absent, lstat_no_symlink) refl
    | inr (link, f) ↦ rw (f, lstat_no_symlink) refl
    | inr (file content mtime, f) ↦ rw (f, lstat_no_symlink) refl
  ]

  -- `Head` changes nothing that a reader sees.
  view-head_state : (key j : Bytes) (d : Disk B) → view blob j (head blob key d).1 ≡ view blob j d
  unfolding head
  view-head_state key j =
      Quiet-bind j (check_open blob)
        (λ _. check_key blob key >> (lstat_no_symlink blob key >> head_locked blob key))
        (Quiet-check_open j)
        (λ _.
          Quiet-bind j (check_key blob key) (λ _. lstat_no_symlink blob key >> head_locked blob key)
            (Quiet-check_key j key)
            (λ _.
              Quiet-bind j (lstat_no_symlink blob key) (λ _. head_locked blob key)
                (Quiet-lstat j key) (λ _ d. view-head_locked blob key j d)))

  -- `Head`, as far as the version goes.
  abbrev pub version_only : Result ObjectMetadata → Result ObjectVersion
  version_only (ok md) = ok md.version
  version_only (err e) = err e

  -- Localfs meets what the collector asks: reading the version of an object changes nothing that a
  -- reader sees, and a removal that reports success removed the version it was given, and no other
  -- object.
  pub localfs_removal :
      (fault : Fault) (removal : RemoveFault) (now : ℕ) (content_type : Bytes)
      → Deletes (Disk B) B ObjectVersion (localfs_store blob fault now content_type)
  unfolding localfs_store
  localfs_removal fault removal now content_type = record {
    head = λ d key. (version_only (head blob key d).0, (head blob key d).1);
    delete_if_version_matches = λ d key v. delete_if_version_matches blob removal key v d;
    head_frame = λ d key j. view-head_state key j d;
    delete_held = λ d key v h. ((delete_if_version_matches_lem blob removal key v d).0 h).0;
    delete_removed = λ d key v h. ((delete_if_version_matches_lem blob removal key v d).0 h).1;
    delete_frame = λ d key j v ne. delete_if_version_matches-frame blob removal key v d j ne;
  }
