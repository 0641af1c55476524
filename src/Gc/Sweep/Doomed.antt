-- ===== src/Gc/Sweep/Doomed.antt =====
-- What a sweep deletes: candidates of its mark that are unreachable still, and have been long enough.
use bucketvcs.Prelude.{
  ℕ, ◌+◌, ◌*◌, ◌≤◌, ◌<◌, ◌≡◌, refl, sym, ◌∙◌, inl, inr, Bool, true, false, List, [], ◌∷◌, arith,
  if◌then◌else◌, Bytes, codes, Bool-cases, leb, All, Elem, at_head, in_tail,
}
use mathlib.Core.Path.{subst}
use bucketvcs.Prelude.Assoc.{Assoc}
use bucketvcs.Prelude.Int.{ℤ, pos}
use bucketvcs.Prelude.Sort.{member}
use bucketvcs.Storage.{
  ObjectStore, Deletes, not_found, version_mismatch, Result-cases as Stored-cases,
}
use bucketvcs.Repo.Errors.{Result, ok, Result-cases}
use bucketvcs.Repo.Keys.{RepoKeys}
use bucketvcs.Repo.Manifest.{Json, Content, Texts}
use bucketvcs.Repo.Body.{WholeBody}
use bucketvcs.Gc.LiveSet.{LiveSet}
use bucketvcs.Gc.Discover.{trim_suffix}
use bucketvcs.Gc.Marks.{MarkRecord}
use bucketvcs.Gc.Sweep
use bucketvcs.Gc.Sweep.DeletedKeys.{DeletedAll, DeletedAll-add_deleted}

-- `classify` decides to delete only under all three conditions.
classify-delete :
    (key : Bytes) (c : Sweep.Category) (first : ℕ) (period : ℤ) (now : ℕ) (live : LiveSet)
    (armed : Bool)
    → Sweep.classify key c first period now live armed ≡ Sweep.delete
    → (member key live ≡ false)
      × (Sweep.since_lt now first period ≡ false)
      × (Sweep.is_tx c ≡ true → armed ≡ true)
unfolding Sweep.classify
classify-delete key c first period now live armed h =
    (ground arith, ground arith, λ t. ground arith)

module _ {S V : Type 0} (store : ObjectStore S Content V) (removal : Deletes S Content V store)
    (dry_run : Bool) (period : ℤ) (now : ℕ) (live : LiveSet) (tx_armed : Bool)
    (P : Sweep.Category → Bytes → Type 0) where
  -- What `P` says of an item if its deletion is decided.
  abbrev Allowed : Sweep.Item → Type 0
  Allowed c =
      member c.key live ≡ false
      → Sweep.since_lt now c.first_seen period ≡ false
      → (Sweep.is_tx c.category ≡ true → tx_armed ≡ true)
      → P c.category c.key

  delete_version-All :
      (t : Sweep.SweepTurn S) (key : Bytes) (c : Sweep.Category) (v : V) (out : Sweep.Outcome)
      (s : S)
      → P c key
      → DeletedAll P out.deleted
      → DeletedAll P (Sweep.delete_version store removal t key c v (out, s)).0.deleted
  unfolding Sweep.delete_version Sweep.delete_noted Sweep.skip Sweep.note_error
  delete_version-All t key c v out s p d =
      let r = removal.delete_if_version_matches (t.before_delete s) key v in
      elim (Stored-cases r.0) [
        | inl (x, q) ↦ rw (q, Sweep.delete_version) (DeletedAll-add_deleted P c key out.deleted p d)
        | inr (not_found, q) ↦ rw (q, Sweep.delete_version) d
        | inr (version_mismatch, q) ↦ rw (q, Sweep.delete_version) d
        | inr (e, q) ↦ rw (q, Sweep.delete_version) d
      ]

  delete_candidate-All :
      (dry : Bool) (t : Sweep.SweepTurn S) (key : Bytes) (c : Sweep.Category) (out : Sweep.Outcome)
      (s : S)
      → P c key
      → DeletedAll P out.deleted
      → DeletedAll P (Sweep.delete_candidate store removal dry t key c (out, s)).0.deleted
  unfolding Sweep.delete_candidate Sweep.delete_noted Sweep.skip Sweep.note_error
  delete_candidate-All true t key c out s p d = DeletedAll-add_deleted P c key out.deleted p d
  delete_candidate-All false t key c out s p d =
      let h = removal.head (t.before_head s) key in
      elim (Stored-cases h.0) [
        | inl (v, q) ↦ rw (q, Sweep.delete_candidate) (delete_version-All t key c v out h.1 p d)
        | inr (not_found, q) ↦ rw (q, Sweep.delete_candidate) d
        | inr (e, q) ↦ rw (q, Sweep.delete_candidate) d
      ]

  apply_decision-All :
      (t : Sweep.SweepTurn S) (key : Bytes) (c : Sweep.Category) (d : Sweep.Decision)
      (out : Sweep.Outcome) (s : S)
      → (d ≡ Sweep.delete → P c key)
      → DeletedAll P out.deleted
      → DeletedAll P (Sweep.apply_decision store removal dry_run t key c d (out, s)).0.deleted
  unfolding Sweep.apply_decision Sweep.skip
  apply_decision-All t key c Sweep.delete out s p h =
      delete_candidate-All dry_run t key c out s (p refl) h
  apply_decision-All t key c Sweep.revived out s p h = h
  apply_decision-All t key c Sweep.retention out s p h = h
  apply_decision-All t key c Sweep.disarmed out s p h = h

  sweep_candidate-All :
      (t : Sweep.SweepTurn S) (c : Sweep.Item) (out : Sweep.Outcome) (s : S)
      → Allowed c
      → DeletedAll P out.deleted
      → DeletedAll P
          (Sweep.sweep_candidate store removal dry_run period now live tx_armed t c
            (out, s)).0.deleted
  unfolding Sweep.sweep_candidate
  sweep_candidate-All t c out s allowed d =
      let armed = if Sweep.is_tx c.category then tx_armed else true in
      apply_decision-All t c.key c.category
        (Sweep.classify c.key c.category c.first_seen period now live armed) out s
        (λ e.
          let (a, b, g) = classify-delete c.key c.category c.first_seen period now live armed e in
          allowed a b (λ tx. sym (rw tx refl) ∙ g tx))
        d

  sweep_item-All :
      (t : Sweep.SweepTurn S) (c : Sweep.Item) (out : Sweep.Outcome) (s : S)
      → Allowed c
      → DeletedAll P out.deleted
      → DeletedAll P
          (Sweep.sweep_item store removal dry_run period now live tx_armed t c (out, s)).0.deleted
  unfolding Sweep.sweep_item Sweep.sweep_marker Sweep.skip Sweep.note_error
  sweep_item-All t c out s allowed d =
      let h = removal.head (t.before_check s) (trim_suffix c.key (codes ".commit")) in
      elim (Bool-cases (Sweep.is_orphan c.category)) [
        | inr o ↦ rw o (sweep_candidate-All t c out s allowed d)
        | inl o ↦ elim (Bool-cases dry_run) [
          | inl y ↦ rw (o, y) (rw y at (sweep_candidate-All t c out s allowed d))
          | inr n ↦ elim (Stored-cases h.0) [
            | inl (v, q) ↦ rw (o, n, q, Sweep.sweep_marker) d
            | inr (not_found, q) ↦
                rw (o, n, q, Sweep.sweep_marker) (sweep_candidate-All t c out h.1 allowed d)
            | inr (e, q) ↦ rw (o, n, q, Sweep.sweep_marker) d
          ]
        ]
      ]

  sweep_items-All :
      (turns : ℕ → Sweep.SweepTurn S) (i : ℕ) (cs : List Sweep.Item) (out : Sweep.Outcome) (s : S)
      → All Allowed cs
      → DeletedAll P out.deleted
      → DeletedAll P
          (Sweep.sweep_items store removal dry_run period now live tx_armed turns i cs
            (out, s)).0.deleted
  unfolding Sweep.sweep_items
  sweep_items-All turns i [] out s allowed d = d
  sweep_items-All turns i (c ∷ cs) out s (a, allowed) d =
      let st =
        Sweep.sweep_item store removal dry_run period now live tx_armed (turns i) c (out, s) in
      sweep_items-All turns (i + 1) cs st.0 st.1 allowed (sweep_item-All (turns i) c out s a d)

seconds_small :
    (s : ℕ) → s * 1_000_000_000 < 9223372036854775808 → Sweep.seconds s ≡ pos (s * 1_000_000_000)
unfolding Sweep.seconds
seconds_small s small = ground arith

-- For periods below 292 years the test is the one on exact integers.
pub since_lt-ge :
    (now first s : ℕ)
    → s * 1_000_000_000 < 9223372036854775808
    → Sweep.since_lt now first (Sweep.seconds s) ≡ false
    → first + s * 1_000_000_000 ≤ now
unfolding Sweep.since_lt
since_lt-ge now first s small h =
    let e : Sweep.seconds s ≡ pos (s * 1_000_000_000) = seconds_small s small in
    elim (Bool-cases (leb first now)) [
      | inl le ↦ ground (arith, rw (e, Sweep.since_lt) at h)
      | inr gt ↦ absurd (ground (arith, rw (e, Sweep.since_lt) at h))
    ]

ok-injective : {A : Type 0} (a b : A) → ok a ≡ ok b → a ≡ b
ok-injective a b h = cc

-- A key may be deleted: its candidate is in the mark, it is not live, the retention period of the mark
-- is over, and transaction records are armed.
abbrev pub Doomed : MarkRecord → ℕ → LiveSet → Sweep.Category → Bytes → Type 0
Doomed mark now live c key =
    (first : ℕ) × Elem (record { category = c; key = key; first_seen = first })
      (Sweep.items_of mark.candidates)
    × (member key live ≡ false)
    × (Sweep.since_lt now first (Sweep.seconds mark.retention_seconds) ≡ false)
    × (Sweep.is_tx c ≡ true → mark.tx_orphan_sweep_armed ≡ true)

module _ {S V : Type 0} (texts : Texts) (store : ObjectStore S Content V)
    (decode : Assoc Json → Result WholeBody) (removal : Deletes S Content V store) where
  items-Allowed :
      (dry_run : Bool) (now : ℕ) (live : LiveSet) (mark : MarkRecord) (cs : List Sweep.Item)
      → ((c : Sweep.Item) → Elem c cs → Elem c (Sweep.items_of mark.candidates))
      → All
          (Allowed store removal dry_run
            (Sweep.seconds mark.retention_seconds)
            now
            live
            mark.tx_orphan_sweep_armed
            (Doomed mark now live))
          cs
  items-Allowed dry_run now live mark [] within = tt
  items-Allowed dry_run now live mark (c ∷ cs) within = (
    λ a b g. (c.first_seen, within c (at_head c cs refl), a, b, g),
    items-Allowed dry_run now live mark cs (λ x m. within x (in_tail c cs m)),
  )

  -- Every key that a sweep records as deleted is a candidate of its mark in that category, is not live
  -- by the root that the sweep read, has been unreachable for the retention period that the mark
  -- pinned, and, if it is a transaction record, was armed by the mark.
  pub run_sweep-Doomed :
      (k : RepoKeys) (dry_run : Bool) (turns : ℕ → Sweep.SweepTurn S) (now : ℕ) (mark : MarkRecord)
      (s : S) (out : Sweep.Outcome)
      → (Sweep.run_sweep texts store decode removal k dry_run turns now mark s).0 ≡ ok out
      → (live : LiveSet) × (Sweep.live_at texts store decode k s ≡ ok live)
        × DeletedAll (Doomed mark now live) out.deleted
  unfolding Sweep.run_sweep
  run_sweep-Doomed k dry_run turns now mark s out h =
      elim (Result-cases (Sweep.live_at texts store decode k s)) [
        | inr (e, q) ↦ cc (rw (q, Sweep.run_sweep) at h)
        | inl (live, q) ↦
            let items = Sweep.items_of mark.candidates in
            let st =
              Sweep.sweep_items store removal dry_run (Sweep.seconds mark.retention_seconds) now
                live mark.tx_orphan_sweep_armed turns 0 items (Sweep.nothing_yet, s) in
            let done =
              sweep_items-All store removal dry_run (Sweep.seconds mark.retention_seconds) now live
                mark.tx_orphan_sweep_armed (Doomed mark now live) turns 0 items Sweep.nothing_yet s
                (items-Allowed dry_run now live mark items (λ c m. m)) (tt, tt, tt, tt, tt, tt) in
            let e : st.0 ≡ out = ok-injective st.0 out (rw (q, Sweep.run_sweep) at h) in
            (
              live,
              q,
              subst (λ (o : Sweep.Outcome). DeletedAll (Doomed mark now live) o.deleted) e done,
            )
      ]
