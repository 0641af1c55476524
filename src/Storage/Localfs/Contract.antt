-- ===== src/Storage/Localfs/Contract.antt =====
-- internal/storage/localfs implements the contract of internal/storage.
pub mod Removal
use bucketvcs.Prelude.{ℕ, ◌≡◌, ◌≢◌, refl, sym, ap, ◌∙◌, inl, inr, Bytes, eqb, Bool-cases, eqb_iff}
use bucketvcs.Storage.{
  not_found, already_exists, version_mismatch, Result, ok, err, ObjectVersion, ObjectStore,
}
use bucketvcs.Storage.Localfs.Heal.{view, seen, view-seen}
use bucketvcs.Storage.Localfs.{Blob, Disk, Fault, put_if_absent, put_if_version_matches}
use bucketvcs.Storage.Localfs.Laws.{
  write_atomic_seen, write_atomic_frame, write_atomic_err, Ends, refused, written, matches-Ends,
  absent_lem,
}

module _ {B : Type 0} (blob : Blob B) (fault : Fault) (now : ℕ) (content_type : Bytes) where
  Ends-stored :
      {key : Bytes} {expected : ObjectVersion} {body : B} {d : Disk B}
      {r : Result ObjectVersion × Disk B} (w : ObjectVersion)
      → Ends blob fault now content_type key expected body d r
      → r.0 ≡ ok w
      → view blob key r.1 ≡ ok (body, w)
  Ends-stored w (refused e d' same) h = cc
  Ends-stored {key} {expected} {body} w (written held d' r same o k v e) h = rw e (
      write_atomic_seen blob fault now key body content_type d' w o k
        (ap (λ (x : Result ObjectVersion × Disk B). x.0) (sym e) ∙ h))

  Ends-held :
      {key : Bytes} {expected : ObjectVersion} {body : B} {d : Disk B}
      {r : Result ObjectVersion × Disk B} (w : ObjectVersion)
      → Ends blob fault now content_type key expected body d r
      → r.0 ≡ ok w
      → (held : B) × (view blob key d ≡ ok (held, expected))
  Ends-held w (refused e d' same) h = cc
  Ends-held w (written held d' r same o k v e) h = (held, v)

  Ends-refused :
      {key : Bytes} {expected : ObjectVersion} {body : B} {d : Disk B}
      {r : Result ObjectVersion × Disk B}
      → Ends blob fault now content_type key expected body d r
      → r.0 ≡ err version_mismatch
      → view blob key r.1 ≡ view blob key d
  Ends-refused {key} (refused e d' same) h = same key
  Ends-refused {key} {expected} {body} (written held d' r same o k v e) h = cc (
      write_atomic_err blob fault now key body content_type d' version_mismatch
        (ap (λ (x : Result ObjectVersion × Disk B). x.0) (sym e) ∙ h))

  Ends-frame :
      {key : Bytes} {expected : ObjectVersion} {body : B} {d : Disk B}
      {r : Result ObjectVersion × Disk B} (j : Bytes)
      → Ends blob fault now content_type key expected body d r
      → key ≢ j
      → view blob j r.1 ≡ view blob j d
  Ends-frame j (refused e d' same) ne = same j
  Ends-frame {key} {expected} {body} j (written held d' r same o k v e) ne =
      rw e (write_atomic_frame blob fault now key j body content_type d' ne ∙ same j)

  Absent-stored :
      (d : Disk B) (key : Bytes) (body : B) (v : ObjectVersion)
      → (put_if_absent blob fault now key body content_type d).0 ≡ ok v
      → (view blob key d ≡ err not_found)
        × (view blob key (put_if_absent blob fault now key body content_type d).1 ≡ ok (body, v))
  unfolding seen
  Absent-stored d key body v h = elim (absent_lem blob fault now content_type key body d) [
    | inl (o, k, a, e) ↦ (
      view-seen blob key d o k ∙ rw (a, seen),
      rw e (write_atomic_seen blob fault now key body content_type d v o k (rw e at h)),
    )
    | inr (e, q) ↦ cc
  ]

  Absent-refused :
      (d : Disk B) (key : Bytes) (body : B)
      → (put_if_absent blob fault now key body content_type d).0 ≡ err already_exists
      → view blob key (put_if_absent blob fault now key body content_type d).1 ≡ view blob key d
  Absent-refused d key body h = elim (absent_lem blob fault now content_type key body d) [
    | inl (o, k, a, e) ↦
        cc (write_atomic_err blob fault now key body content_type d already_exists (rw e at h))
    | inr (e, q) ↦ rw q refl
  ]

  Absent-frame :
      (d : Disk B) (key j : Bytes) (body : B)
      → key ≢ j
      → view blob j (put_if_absent blob fault now key body content_type d).1 ≡ view blob j d
  Absent-frame d key j body ne = elim (absent_lem blob fault now content_type key body d) [
    | inl (o, k, a, e) ↦ rw e (write_atomic_frame blob fault now key j body content_type d ne)
    | inr (e, q) ↦ rw q refl
  ]

  -- Localfs meets the contract of an object store, whatever errors of the operating system strike its
  -- writes: a write that reports success was made under its condition and is what `Get` returns next,
  -- with the version returned; a refused precondition changes nothing; no other key changes.
  pub localfs_store : ObjectStore (Disk B) B ObjectVersion
  localfs_store = record {
    get = λ d key. view blob key d;
    put_if_absent = λ d key body. put_if_absent blob fault now key body content_type d;
    put_if_version_matches =
        λ d key v body. put_if_version_matches blob fault now key v body content_type d;
    token_text = λ v. v.token;
    absent_stored = Absent-stored;
    absent_refused = Absent-refused;
    absent_frame = Absent-frame;
    matches_stored =
        λ d key v body w h. Ends-stored w (matches-Ends blob fault now content_type key v body d) h;
    matches_held =
        λ d key v body w h. Ends-held w (matches-Ends blob fault now content_type key v body d) h;
    matches_refused =
        λ d key v body h. Ends-refused (matches-Ends blob fault now content_type key v body d) h;
    matches_frame = λ d key j v body ne.
        Ends-frame j (matches-Ends blob fault now content_type key v body d) ne;
  }

  -- A conditional write that reports success replaced the version it was given, whatever the state
  -- of the sidecars: that version was what `Get` showed before, `Get` shows the new body under the
  -- version returned afterwards, and every other key shows what it showed.
  pub put_if_version_matches-ok :
      (d : Disk B) (key : Bytes) (expected : ObjectVersion) (body : B) (w : ObjectVersion)
      → (put_if_version_matches blob fault now key expected body content_type d).0 ≡ ok w
      → ((held : B) × (view blob key d ≡ ok (held, expected)))
        × (view blob key (put_if_version_matches blob fault now key expected body content_type d).1
            ≡ ok (body, w))
        × ((j : Bytes)
            → key ≢ j
            → view blob j (put_if_version_matches blob fault now key expected body content_type d).1
              ≡ view blob j d)
  put_if_version_matches-ok d key expected body w h =
      let e = matches-Ends blob fault now content_type key expected body d in
      (Ends-held w e h, Ends-stored w e h, λ j ne. Ends-frame j e ne)

  -- A conditional write that is refused for its version changes nothing that a reader sees.
  pub put_if_version_matches-refused :
      (d : Disk B) (key j : Bytes) (expected : ObjectVersion) (body : B)
      → (put_if_version_matches blob fault now key expected body content_type d).0
        ≡ err version_mismatch
      → view blob j (put_if_version_matches blob fault now key expected body content_type d).1
        ≡ view blob j d
  put_if_version_matches-refused d key j expected body h =
      let e = matches-Ends blob fault now content_type key expected body d in
      elim (Bool-cases (eqb key j)) [
        | inl same ↦ rw (← ((eqb_iff key j).0 same)) (Ends-refused e h)
        | inr other ↦ Ends-frame j e (λ p. cc ((eqb_iff key j).1 p, other))
      ]

  -- A create that reports success found no object, and the next `Get` shows the body under the
  -- version returned.
  pub put_if_absent-ok :
      (d : Disk B) (key : Bytes) (body : B) (v : ObjectVersion)
      → (put_if_absent blob fault now key body content_type d).0 ≡ ok v
      → (view blob key d ≡ err not_found)
        × (view blob key (put_if_absent blob fault now key body content_type d).1 ≡ ok (body, v))
  put_if_absent-ok = Absent-stored
