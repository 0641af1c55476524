-- ===== src/Gc/Sweep.antt =====
-- internal/gc/sweep.go: the sweep phase, which deletes the candidates of a mark that are still
-- unreachable and have been for the retention period of the mark.
pub mod Safety
pub mod Parts
pub mod DeletedKeys
pub mod Doomed
use bucketvcs.Prelude.{
  ℕ, ◌+◌, ◌-◌, ◌*◌, ◌%◌, ◌^◌, ◌≡◌, refl, Bool, true, false, not, ◌&&◌, ◌||◌, List, [], ◌∷◌, ◌++◌,
  Option, none, some, arith, ltb, leb, if◌then◌else◌, Bytes, codes, contains,
}
use mathlib.Core.List.{map}
use bucketvcs.Prelude.Assoc.{Assoc}
use bucketvcs.Prelude.Int.{ℤ, pos, negsuc}
use bucketvcs.Prelude.Sort.{member}
use bucketvcs.Storage.{
  StorageError, ObjectStore, Deletes, not_found, version_mismatch, Result as Stored, ok as stored,
  err as refused,
}
use bucketvcs.Repo.Errors.{Result, ok, err, ◌>>=◌}
use bucketvcs.Repo.Keys.{RepoKeys, root_manifest_key}
use bucketvcs.Repo.Manifest.{Json, Content, Texts, read_root}
use bucketvcs.Repo.Body.{WholeBody}
use bucketvcs.Gc.LiveSet.{LiveSet, build_live_set}
use bucketvcs.Gc.Discover.{trim_suffix}
use bucketvcs.Gc.Marks.{Candidate, PackCandidate, Candidates, MarkRecord}

-- The category of a candidate.
pub data Category : Type 0 where
  tx_records canonical_packs indexes reachability_deltas bundles orphan_markers : Category

-- `decision`
pub data Decision : Type 0 where
  delete revived retention disarmed : Decision

pub data Reason : Type 0 where
  is_revived retention_not_met tx_sweep_disarmed object_not_found other_version : Reason

-- `Deleted`
pub record Deleted : Type 0 where
  pub tx_records : List Bytes
  pub canonical_packs : List Bytes
  pub indexes : List Bytes
  pub reachability_deltas : List Bytes
  pub bundles : List Bytes
  pub orphan_markers : List Bytes

-- The lists of `sweeps.Record`.
pub record Outcome : Type 0 where
  pub deleted : Deleted
  pub skipped : List (Bytes × Category × Reason)
  pub errors : List (Bytes × Category × StorageError)

-- `time.Duration(s) * time.Second`, an int64.
unfoldable pub seconds : ℕ → ℤ
seconds s =
    let ns = (s * 1_000_000_000) % 2 ^ 64 in
    if ltb ns (2 ^ 63) then pos ns else negsuc (2 ^ 64 - 1 - ns)

abbrev pub max_duration : ℕ
max_duration = 2 ^ 63 - 1

abbrev pub at_most : ℕ → ℕ → ℕ
at_most bound n = if ltb bound n then bound else n

-- `now.Sub(first) < d`, where `Sub` saturates at the ends of int64.
unfoldable pub since_lt : ℕ → ℕ → ℤ → Bool
since_lt now first (pos d) =
    if leb first now then ltb (at_most max_duration (now - first)) d else true
since_lt now first (negsuc d) =
    if leb first now then false else ltb (d + 1) (at_most (2 ^ 63) (first - now))

abbrev pub is_tx : Category → Bool
is_tx tx_records = true
is_tx _ = false

abbrev pub is_orphan : Category → Bool
is_orphan orphan_markers = true
is_orphan _ = false

-- `classify`
unfoldable pub classify : Bytes → Category → ℕ → ℤ → ℕ → LiveSet → Bool → Decision
classify key category first_seen period now live armed =
    if member key live
    then revived
    else if since_lt now first_seen period
    then retention
    else if is_tx category && not armed
    then disarmed
    else delete

unfoldable pub add_deleted : Category → Bytes → Deleted → Deleted
add_deleted tx_records key d = record d { tx_records = d.tx_records ++ key ∷ [] }
add_deleted canonical_packs key d = record d { canonical_packs = d.canonical_packs ++ key ∷ [] }
add_deleted indexes key d = record d { indexes = d.indexes ++ key ∷ [] }
add_deleted reachability_deltas key d = record d {
  reachability_deltas = d.reachability_deltas ++ key ∷ [];
}
add_deleted bundles key d = record d { bundles = d.bundles ++ key ∷ [] }
add_deleted orphan_markers key d = record d { orphan_markers = d.orphan_markers ++ key ∷ [] }

unfoldable pub delete_noted : Bytes → Category → Outcome → Outcome
delete_noted key category out = record out { deleted = add_deleted category key out.deleted }

unfoldable pub skip : Bytes → Category → Reason → Outcome → Outcome
skip key category reason out = record out { skipped = out.skipped ++ (key, category, reason) ∷ [] }

unfoldable pub note_error : Bytes → Category → StorageError → Outcome → Outcome
note_error key category e out = record out { errors = out.errors ++ (key, category, e) ∷ [] }

-- What other processes do to the bucket before each call that one candidate leads to.
pub record SweepTurn (S : Type 0) : Type 0 where
  pub before_check : S → S
  pub before_head : S → S
  pub before_delete : S → S

-- A candidate with its category.
pub record Item : Type 0 where
  pub category : Category
  pub key : Bytes
  pub first_seen : ℕ

abbrev pub item : Category → Candidate → Item
item category c = record { category = category; key = c.key; first_seen = c.first_seen }

abbrev pub pack_item : PackCandidate → Item
pack_item c = record { category = canonical_packs; key = c.key; first_seen = c.first_seen }

-- Reachability deltas have a category of their own.
unfoldable pub index_item : Candidate → Item
index_item c =
    item
      (if contains c.key (codes "/indexes/reachability-delta/")
        then reachability_deltas
        else indexes)
      c

-- The candidates in the order of the five loops.
unfoldable pub items_of : Candidates → List Item
items_of c =
    map (item tx_records) c.tx_records
    ++ (map pack_item c.canonical_packs
        ++ (map index_item c.indexes
            ++ (map (item bundles) c.bundles ++ map (item orphan_markers) c.orphan_markers)))

module _ {S V : Type 0} (store : ObjectStore S Content V)
    (removal : Deletes S Content V store) where
  -- The deletion under the version that `Head` gave, and what follows its result.
  unfoldable pub delete_version : SweepTurn S → Bytes → Category → V → Outcome × S → Outcome × S
  delete_version t key category v (out, s) =
      let (r, s') = removal.delete_if_version_matches (t.before_delete s) key v in
      elim r [
        | stored _ ↦ (delete_noted key category out, s')
        | refused version_mismatch ↦ (skip key category other_version out, s')
        | refused not_found ↦ (skip key category object_not_found out, s')
        | refused e ↦ (note_error key category e out, s')
      ]

  -- The path of a decision to delete.
  unfoldable pub delete_candidate :
      Bool → SweepTurn S → Bytes → Category → Outcome × S → Outcome × S
  delete_candidate dry_run t key category (out, s) =
      if dry_run
      then (delete_noted key category out, s)
      else let (r, s') = removal.head (t.before_head s) key in
        elim r [
          | refused not_found ↦ (skip key category object_not_found out, s')
          | refused e ↦ (note_error key category e out, s')
          | stored v ↦ delete_version t key category v (out, s')
        ]

  -- `applyDecision`
  unfoldable pub apply_decision :
      Bool → SweepTurn S → Bytes → Category → Decision → Outcome × S → Outcome × S
  apply_decision dry_run t key category revived (out, s) = (skip key category is_revived out, s)
  apply_decision dry_run t key category retention (out, s) =
      (skip key category retention_not_met out, s)
  apply_decision dry_run t key category disarmed (out, s) =
      (skip key category tx_sweep_disarmed out, s)
  apply_decision dry_run t key category delete (out, s) =
      delete_candidate dry_run t key category (out, s)

  module _ (dry_run : Bool) (period : ℤ) (now : ℕ) (live : LiveSet) (tx_armed : Bool) where
    -- The body of the loops but the last.
    unfoldable pub sweep_candidate : SweepTurn S → Item → Outcome × S → Outcome × S
    sweep_candidate t c st =
        apply_decision dry_run t c.key c.category
          (classify c.key c.category c.first_seen period now live
            (if is_tx c.category then tx_armed else true))
          st

    -- The body of the last loop: a marker whose record is back is kept.
    unfoldable pub sweep_marker : SweepTurn S → Item → Outcome × S → Outcome × S
    sweep_marker t c (out, s) =
        if dry_run
        then sweep_candidate t c (out, s)
        else let (r, s') = removal.head (t.before_check s) (trim_suffix c.key (codes ".commit")) in
          elim r [
            | stored _ ↦ (skip c.key orphan_markers is_revived out, s')
            | refused not_found ↦ sweep_candidate t c (out, s')
            | refused e ↦ (note_error c.key orphan_markers e out, s')
          ]

    unfoldable pub sweep_item : SweepTurn S → Item → Outcome × S → Outcome × S
    sweep_item t c st = if is_orphan c.category then sweep_marker t c st else sweep_candidate t c st

    -- The candidates are numbered in the order in which they are met.
    unfoldable pub sweep_items : (ℕ → SweepTurn S) → ℕ → List Item → Outcome × S → Outcome × S
    sweep_items turns i [] st = st
    sweep_items turns i (c ∷ cs) st = sweep_items turns (i + 1) cs (sweep_item (turns i) c st)

abbrev pub nothing_yet : Outcome
nothing_yet = record {
  deleted = record {
    tx_records = [];
    canonical_packs = [];
    indexes = [];
    reachability_deltas = [];
    bundles = [];
    orphan_markers = [];
  };
  skipped = [];
  errors = [];
}

module _ {S V : Type 0} (texts : Texts) (store : ObjectStore S Content V)
    (decode : Assoc Json → Result WholeBody) where
  -- The live set of the root as it is in a state of the bucket.
  unfoldable pub live_at : RepoKeys → S → Result LiveSet
  live_at k s =
      read_root texts store s (root_manifest_key k) >>= λ p. build_live_set decode k p.0 (some p.1)

  -- `RunSweep` at the time `now`.
  unfoldable pub run_sweep :
      Deletes S Content V store
      → RepoKeys
      → Bool
      → (ℕ → SweepTurn S)
      → ℕ
      → MarkRecord
      → S
      → Result Outcome × S
  run_sweep removal k dry_run turns now mark s = elim (live_at k s) [
    | err e ↦ (err e, s)
    | ok live ↦
        let (out, s') =
          sweep_items store removal dry_run (seconds mark.retention_seconds) now live
            mark.tx_orphan_sweep_armed turns 0 (items_of mark.candidates) (nothing_yet, s) in
        (ok out, s')
  ]
