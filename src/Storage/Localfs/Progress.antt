-- ===== src/Storage/Localfs/Progress.antt =====
-- What localfs does when the operating system refuses nothing.
use bucketvcs.Prelude.{
  ℕ, ◌≡◌, ◌≢◌, refl, sym, ◌∙◌, inl, inr, false, none, arith, Bytes, Bool-cases, Option-cases,
}
use bucketvcs.Prelude.Assoc.{lookup}
use bucketvcs.Storage.{
  closed, invalid_argument, not_found, ok, err, ObjectVersion, same_version_iff,
}
use bucketvcs.Storage.Localfs.Keys.{validate_key}
use bucketvcs.Storage.Localfs.Heal.{view, seen, version_in, view-seen, view_closed, view_invalid}
use bucketvcs.Storage.Localfs.{
  Blob, file, link, Disk, version_of, check_open, check_key, lstat_no_symlink, heal_sidecar,
  head_parsed, head_locked, check_version, no_fault, write_atomic, check_absent, put_if_absent,
  absent_is_mismatch, put_if_version_matches,
}

module _ {B : Type 0} (blob : Blob B) (now : ℕ) (content_type : Bytes) (key : Bytes)
    (d : Disk B) where
  -- Localfs is open, and the key is valid.
  abbrev IsServed : Type 0
  IsServed = (d.lockfile_removed ≡ false) × (validate_key key ≡ none)

  view-IsServed : view blob key d ≢ err closed → view blob key d ≢ err invalid_argument → IsServed
  view-IsServed not_closed valid = elim (Bool-cases d.lockfile_removed) [
    | inl shut ↦ absurd (not_closed (view_closed blob key d shut))
    | inr open_ ↦ elim (Option-cases (validate_key key)) [
      | inl v ↦ (open_, v)
      | inr (r, bad) ↦ absurd (valid (view_invalid blob key d open_ (cc bad)))
    ]
  ]

  -- A create of a key at which `Get` finds nothing succeeds, with the hash of the body as its version.
  pub put_if_absent-progress :
      (body : B)
      → view blob key d ≡ err not_found
      → (put_if_absent blob no_fault now key body content_type d).0
        ≡ ok (version_of (blob.hash body))
  unfolding seen version_in put_if_absent check_open check_key check_absent write_atomic
  put_if_absent-progress body h =
      let (o, k) = view-IsServed (cc h) (cc h) in
      let s = sym (view-seen blob key d o k) ∙ h in
      elim (Option-cases (lookup key d.files)) [
        | inl f ↦ ground arith
        | inr (link, f) ↦ absurd (ground arith)
        | inr (file content mtime, f) ↦ absurd (ground arith)
      ]

  -- A conditional write succeeds if `Get` shows the version that is expected, with the hash of the new
  -- body as the new version.
  pub put_if_version_matches-progress :
      (held body : B) (expected : ObjectVersion)
      → view blob key d ≡ ok (held, expected)
      → (put_if_version_matches blob no_fault now key expected body content_type d).0
        ≡ ok (version_of (blob.hash body))
  unfolding seen version_in put_if_version_matches check_open check_key lstat_no_symlink
      absent_is_mismatch head_locked head_parsed heal_sidecar check_version write_atomic
  put_if_version_matches-progress held body expected h =
      let (o, k) = view-IsServed (cc h) (cc h) in
      let s = sym (view-seen blob key d o k) ∙ h in
      elim (Option-cases (lookup key d.files)) [
        | inl f ↦ absurd (ground arith)
        | inr (link, f) ↦ absurd (ground arith)
        | inr (file content mtime, f) ↦ ground (arith, (same_version_iff expected expected).1 refl)
      ]
