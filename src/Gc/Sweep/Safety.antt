-- ===== src/Gc/Sweep/Safety.antt =====
-- What a sweep leaves alone: the objects that the root named when the sweep began.
use bucketvcs.Prelude.{
  ℕ, ◌+◌, ◌≡◌, ◌≢◌, refl, ◌∙◌, inl, inr, Bool, true, false, List, [], ◌∷◌, arith, if◌then◌else◌,
  Bytes, codes, eqb, eqb_iff, Bool-cases,
}
use bucketvcs.Prelude.Assoc.{Assoc}
use bucketvcs.Prelude.Int.{ℤ}
use bucketvcs.Prelude.Sort.{member}
use bucketvcs.Storage.{ObjectStore, Deletes, not_found, Result-cases as Stored-cases}
use bucketvcs.Repo.Errors.{Result, ok}
use bucketvcs.Repo.Keys.{RepoKeys}
use bucketvcs.Repo.Manifest.{Json, Content, Texts}
use bucketvcs.Repo.Body.{WholeBody}
use bucketvcs.Gc.LiveSet.{LiveSet}
use bucketvcs.Gc.Discover.{trim_suffix}
use bucketvcs.Gc.Marks.{MarkRecord}
use bucketvcs.Gc.Sweep.{
  Category, Decision, delete, revived, retention, disarmed, SweepTurn, Item, Outcome, classify,
  is_tx, is_orphan, delete_version, delete_candidate, apply_decision, sweep_candidate, sweep_marker,
  sweep_item, sweep_items, items_of, seconds, nothing_yet, live_at, run_sweep,
}

module _ {S V : Type 0} (store : ObjectStore S Content V) (removal : Deletes S Content V store)
    (j : Bytes) where
  -- Other processes leave the object at the key as it is.
  pub record Leaves (t : SweepTurn S) : Type 0 where
    pub check : (s : S) → store.get (t.before_check s) j ≡ store.get s j
    pub head : (s : S) → store.get (t.before_head s) j ≡ store.get s j
    pub deletion : (s : S) → store.get (t.before_delete s) j ≡ store.get s j

  module _ (t : SweepTurn S) (leaves : Leaves t) where
    delete_version_state :
        (key : Bytes) (category : Category) (v : V) (out : Outcome) (s : S)
        → (delete_version store removal t key category v (out, s)).1
          ≡ (removal.delete_if_version_matches (t.before_delete s) key v).1
    unfolding delete_version
    delete_version_state key category v out s = ground arith

    delete_version-keeps :
        (key : Bytes) (category : Category) (v : V) (out : Outcome) (s : S)
        → key ≢ j
        → store.get (delete_version store removal t key category v (out, s)).1 j ≡ store.get s j
    delete_version-keeps key category v out s ne =
        rw (delete_version_state key category v out s)
          (removal.delete_frame (t.before_delete s) key j v ne ∙ leaves.deletion s)

    delete_candidate-keeps :
        (dry_run : Bool) (key : Bytes) (category : Category) (out : Outcome) (s : S)
        → key ≢ j
        → store.get (delete_candidate store removal dry_run t key category (out, s)).1 j
          ≡ store.get s j
    unfolding delete_candidate
    delete_candidate-keeps true key category out s ne = refl
    delete_candidate-keeps false key category out s ne =
        let h = removal.head (t.before_head s) key in
        let same : store.get h.1 j ≡ store.get s j =
          removal.head_frame (t.before_head s) key j ∙ leaves.head s in
        elim (Stored-cases h.0) [
          | inl (v, q) ↦
              rw (q, delete_candidate) (delete_version-keeps key category v out h.1 ne ∙ same)
          | inr (not_found, q) ↦ rw (q, delete_candidate) same
          | inr (e, q) ↦ rw (q, delete_candidate) same
        ]

    module _ (dry_run : Bool) (period : ℤ) (now : ℕ) (live : LiveSet) (tx_armed : Bool)
        (lives : member j live ≡ true) where
      sweep_candidate-keeps :
          (c : Item) (out : Outcome) (s : S)
          → store.get
              (sweep_candidate store removal dry_run period now live tx_armed t c (out, s)).1
              j
            ≡ store.get s j
      unfolding sweep_candidate classify apply_decision
      sweep_candidate-keeps c out s =
          let armed = if is_tx c.category then tx_armed else true in
          elim (Bool-cases (eqb c.key j)) [
            | inl same ↦
                let q : member c.key live ≡ true = rw ((eqb_iff c.key j).0 same) lives in rw q refl
            | inr other ↦
                keeps (classify c.key c.category c.first_seen period now live armed)
                  (λ e. cc ((eqb_iff c.key j).1 e, other))
          ]
        where
          keeps :
              (d : Decision)
              → c.key ≢ j
              → store.get (apply_decision store removal dry_run t c.key c.category d (out, s)).1 j
                ≡ store.get s j
          keeps delete ne = delete_candidate-keeps dry_run c.key c.category out s ne
          keeps revived ne = refl
          keeps retention ne = refl
          keeps disarmed ne = refl

      sweep_item-keeps :
          (c : Item) (out : Outcome) (s : S)
          → store.get (sweep_item store removal dry_run period now live tx_armed t c (out, s)).1 j
            ≡ store.get s j
      unfolding sweep_item sweep_marker
      sweep_item-keeps c out s =
          let marker = trim_suffix c.key (codes ".commit") in
          let h = removal.head (t.before_check s) marker in
          let same : store.get h.1 j ≡ store.get s j =
            removal.head_frame (t.before_check s) marker j ∙ leaves.check s in
          elim (Bool-cases (is_orphan c.category)) [
            | inr o ↦ rw o (sweep_candidate-keeps c out s)
            | inl o ↦ elim (Bool-cases dry_run) [
              | inl d ↦ rw (o, d) (rw d at (sweep_candidate-keeps c out s))
              | inr d ↦ elim (Stored-cases h.0) [
                | inl (v, q) ↦ rw (o, d, q, sweep_marker) same
                | inr (not_found, q) ↦
                    rw (o, d, q, sweep_marker) (sweep_candidate-keeps c out h.1 ∙ same)
                | inr (e, q) ↦ rw (o, d, q, sweep_marker) same
              ]
            ]
          ]

  module _ (dry_run : Bool) (period : ℤ) (now : ℕ) (live : LiveSet) (tx_armed : Bool)
      (lives : member j live ≡ true) (turns : ℕ → SweepTurn S)
      (leaves : (i : ℕ) → Leaves (turns i)) where
    sweep_items-keeps :
        (i : ℕ) (cs : List Item) (out : Outcome) (s : S)
        → store.get
            (sweep_items store removal dry_run period now live tx_armed turns i cs (out, s)).1
            j
          ≡ store.get s j
    unfolding sweep_items
    sweep_items-keeps i [] out s = refl
    sweep_items-keeps i (c ∷ cs) out s =
        let st = sweep_item store removal dry_run period now live tx_armed (turns i) c (out, s) in
        sweep_items-keeps (i + 1) cs st.0 st.1
        ∙ sweep_item-keeps (turns i) (leaves i) dry_run period now live tx_armed lives c out s

module _ {S V : Type 0} (texts : Texts) (store : ObjectStore S Content V)
    (removal : Deletes S Content V store) (decode : Assoc Json → Result WholeBody) where
  -- A sweep leaves every object as it is that the root manifest named when the sweep began, whatever
  -- the mark holds and whatever the store answers, if other processes leave that object as it is.
  pub run_sweep-keeps :
      (k : RepoKeys) (dry_run : Bool) (turns : ℕ → SweepTurn S) (now : ℕ) (mark : MarkRecord)
      (s : S) (live : LiveSet) (j : Bytes)
      → live_at texts store decode k s ≡ ok live
      → member j live ≡ true
      → ((i : ℕ) → Leaves store removal j (turns i))
      → store.get (run_sweep texts store decode removal k dry_run turns now mark s).1 j
        ≡ store.get s j
  unfolding run_sweep
  run_sweep-keeps k dry_run turns now mark s live j at lives leaves =
      rw (at, run_sweep)
        (sweep_items-keeps store removal j dry_run (seconds mark.retention_seconds) now live
          mark.tx_orphan_sweep_armed lives turns leaves 0 (items_of mark.candidates) nothing_yet s)
