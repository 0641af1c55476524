-- ===== src/Storage/Localfs/Heal.antt =====
-- The repair of sidecars in internal/storage/localfs changes nothing that a reader can see.
use bucketvcs.Prelude.{
  ℕ, ◌≡◌, ◌≢◌, refl, sym, ◌∙◌, inl, inr, true, false, [], Option, none, some, arith, ◌==◌,
  if◌then◌else◌, Bytes, Bool-cases, Option-cases, eqb_iff,
}
use bucketvcs.Prelude.Assoc.{lookup, lookup-insert}
use bucketvcs.Storage.{
  not_found, invalid_argument, closed, unsupported_sidecar_schema, Result, ok, err, ObjectVersion,
}
use bucketvcs.Storage.Localfs.Keys.{validate_key}
use bucketvcs.Storage.Localfs.{
  Blob, Meta, json, Entry, file, link, Disk, ObjectMetadata, Parsed, parsed, unreadable,
  unsupported, parse_sidecar, new_sidecar, version_of, check_open, check_key, lstat_no_symlink,
  heal_sidecar, head_parsed, head_locked, open_file, check_version, get,
}

module _ {B : Type 0} (blob : Blob B) where
  -- What `Get` shows of an object: the body and the version token.
  unfoldable pub shown : Result (B × ObjectMetadata) → Result (B × ObjectVersion)
  shown (ok (content, md)) = ok (content, md.version)
  shown (err e) = err e

  unfoldable pub view : Bytes → Disk B → Result (B × ObjectVersion)
  view key d = shown (get blob key none d).0

  -- What `headLocked` gives for a file with this content and sidecar.
  unfoldable pub version_in : B → Option Meta → Result ObjectVersion
  version_in content m = elim (parse_sidecar m) [
    | unsupported ↦ err unsupported_sidecar_schema
    | unreadable ↦ ok (version_of (blob.hash content))
    | parsed sc ↦ ok (
        if sc.size == blob.size content
        then version_of sc.sha256
        else version_of (blob.hash content))
  ]

  -- The view by the two maps.
  unfoldable pub seen : Option (Entry B) → Option Meta → Result (B × ObjectVersion)
  seen none m = err not_found
  seen (some link) m = err invalid_argument
  seen (some (file content _)) m = elim (version_in content m) [
    | ok v ↦ ok (content, v)
    | err e ↦ err e
  ]

  pub view-seen :
      (key : Bytes) (d : Disk B)
      → d.lockfile_removed ≡ false
      → validate_key key ≡ none
      → view key d ≡ seen (lookup key d.files) (lookup key d.metas)
  unfolding view get shown seen version_in check_open check_key lstat_no_symlink head_locked
      head_parsed heal_sidecar open_file check_version
  view-seen key d o k = ground arith

  pub view_closed : (key : Bytes) (d : Disk B) → d.lockfile_removed ≡ true → view key d ≡ err closed
  unfolding view get shown check_open
  view_closed key d o = ground arith

  pub view_invalid :
      (key : Bytes) (d : Disk B)
      → d.lockfile_removed ≡ false
      → validate_key key ≢ none
      → view key d ≡ err invalid_argument
  unfolding view get shown check_open check_key
  view_invalid key d o k = ground arith

  -- Two disks on which every reader sees the same at `key`.
  pub same_view :
      (key : Bytes) (d e : Disk B)
      → e.lockfile_removed ≡ d.lockfile_removed
      → seen (lookup key e.files) (lookup key e.metas)
        ≡ seen (lookup key d.files) (lookup key d.metas)
      → view key e ≡ view key d
  same_view key d e o s = elim (Bool-cases d.lockfile_removed) [
    | inl shut ↦ view_closed key e (o ∙ shut) ∙ sym (view_closed key d shut)
    | inr open_ ↦ elim (Option-cases (validate_key key)) [
      | inl valid ↦ view-seen key e (o ∙ open_) valid ∙ s ∙ sym (view-seen key d open_ valid)
      | inr (r, bad) ↦
          view_invalid key e (o ∙ open_) (cc bad) ∙ sym (view_invalid key d open_ (cc bad))
    ]
  ]

  -- What `headLocked` does to the disk.
  pub record Heals (key : Bytes) (d e : Disk B) : Type 0 where
    pub same_lock : e.lockfile_removed ≡ d.lockfile_removed
    pub same_files : e.files ≡ d.files
    pub same_seen :
        (j : Bytes)
        → seen (lookup j d.files) (lookup j e.metas) ≡ seen (lookup j d.files) (lookup j d.metas)

  Heals-refl : (key : Bytes) (d : Disk B) → Heals key d d
  Heals-refl key d = record { same_lock = refl; same_files = refl; same_seen = λ j. refl }

  Heals-heal :
      (key : Bytes) (content : B) (mtime : ℕ) (d : Disk B)
      → lookup key d.files ≡ some (file content mtime)
      → version_in content (lookup key d.metas) ≡ ok (version_of (blob.hash content))
      → Heals key d (heal_sidecar blob key content mtime d).1
  unfolding heal_sidecar seen version_in parse_sidecar
  Heals-heal key content mtime d f v = record {
    same_lock = refl;
    same_files = refl;
    same_seen = λ j.
        let sc = new_sidecar (blob.hash content) (blob.size content) [] mtime in
        ground (arith, eqb_iff key j, lookup-insert key j (json sc) d.metas);
  }

  head_parsed-Heals :
      (key : Bytes) (content : B) (mtime : ℕ) (d : Disk B) (p : Parsed)
      → lookup key d.files ≡ some (file content mtime)
      → parse_sidecar (lookup key d.metas) ≡ p
      → Heals key d (head_parsed blob key content mtime p d).1
  unfolding head_parsed version_in heal_sidecar
  head_parsed-Heals key content mtime d unsupported f e = Heals-refl key d
  head_parsed-Heals key content mtime d unreadable f e =
      Heals-heal key content mtime d f (rw (e, version_in))
  head_parsed-Heals key content mtime d (parsed sc) f e =
      elim (Bool-cases (sc.size == blob.size content)) [
        | inl same ↦ rw same (Heals-refl key d)
        | inr stale ↦ rw stale (Heals-heal key content mtime d f (rw (e, version_in) (rw stale)))
      ]

  pub head_locked-Heals : (key : Bytes) (d : Disk B) → Heals key d (head_locked blob key d).1
  unfolding head_locked
  head_locked-Heals key d = elim (Option-cases (lookup key d.files)) [
    | inl absent ↦ rw (absent, head_locked) (Heals-refl key d)
    | inr (link, f) ↦ rw (f, head_locked) (Heals-refl key d)
    | inr (file content mtime, f) ↦
        rw (f, head_locked) (head_parsed-Heals key content mtime d _ f refl)
  ]

  -- Reading the metadata of one key, with the repair of its sidecar that this may bring, changes the
  -- body and the version that `Get` shows of no key.
  pub view-head_locked : (key j : Bytes) (d : Disk B) → view j (head_locked blob key d).1 ≡ view j d
  view-head_locked key j d =
      let h = head_locked-Heals key d in
      same_view j d (head_locked blob key d).1 h.same_lock (rw h.same_files (h.same_seen j))
