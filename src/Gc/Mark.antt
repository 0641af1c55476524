-- ===== src/Gc/Mark.antt =====
-- internal/gc/mark.go and internal/gc/marks: the mark phase, which writes nothing but its record, and
-- reads the record of the phase before it.
pub mod Sticky
use bucketvcs.Prelude.{
  ℕ, ◌*◌, ◌≡◌, refl, Bool, true, false, not, ◌||◌, List, [], ◌∷◌, ◌++◌, Option, none, some, arith,
  ◌==◌, if◌then◌else◌, Bytes, codes, eqb, has_suffix, is_empty,
}
use bucketvcs.Prelude.Assoc.{Assoc}
use bucketvcs.Prelude.Sort.{sort_by, self}
use bucketvcs.Storage.{ObjectStore, not_found, ok as stored, err as refused}
use bucketvcs.Repo.Errors.{parse_failed, storage_failed, Result, ok, err, ◌>>=◌}
use bucketvcs.Repo.Keys.{RepoKeys, root_manifest_key, gc_mark_key}
use bucketvcs.Repo.Manifest.{Json, Content, RootHeader, Texts, read_root}
use bucketvcs.Repo.Body.{WholeBody}
use bucketvcs.Gc.LiveSet.{LiveSet, build_live_set}
use bucketvcs.Gc.Discover.{
  Pages, Listing, TxKeys, objects_of, discover_canonical_packs, discover_indexes, discover_bundles,
  discover_tx_records, trim_prefix, trim_suffix,
}
use bucketvcs.Gc.Marks.{Candidate, PackCandidate, Candidates, MarkRecord}

abbrev pub default_retention_seconds : ℕ
default_retention_seconds = 7 * 24 * 3600

-- The ids of a listing, in its order.
unfoldable pub mark_ids : Bytes → List Bytes → List Bytes
mark_ids prefix [] = []
mark_ids prefix (key ∷ keys) =
    let rest = mark_ids prefix keys in
    let name = trim_prefix key prefix in
    if not (has_suffix name (codes ".json"))
    then rest
    else if is_empty (trim_suffix name (codes ".json"))
    then rest
    else trim_suffix name (codes ".json") ∷ rest

unfoldable pub reverse {ℓ} : {A : Type ℓ} → List A → List A → List A
reverse [] acc = acc
reverse (x ∷ xs) acc = reverse xs (x ∷ acc)

-- `marks.List`: the newest first.
unfoldable pub list_marks : Listing → RepoKeys → Result (List Bytes)
list_marks listing k =
    let prefix = k.prefix ++ codes "gc/marks/" in
    objects_of (listing prefix) >>= λ keys. ok (reverse (sort_by self (mark_ids prefix keys)) [])

module _ {S V : Type 0} (store : ObjectStore S Content V)
    (decode_mark : Content → Option MarkRecord) where
  -- `marks.ReadByID`. `none` is `ErrNotFound`.
  unfoldable pub read_by_id : S → RepoKeys → Bytes → Result (Option MarkRecord)
  read_by_id s k id = elim (store.get s (gc_mark_key k id)) [
    | refused not_found ↦ ok none
    | refused e ↦ err (storage_failed e)
    | stored (raw, version) ↦ elim (decode_mark raw) [
      | none ↦ err parse_failed
      | some r ↦ ok (some r)
    ]
  ]

  unfoldable pub read_first : S → RepoKeys → List Bytes → Result (Option MarkRecord)
  read_first s k [] = ok none
  read_first s k (id ∷ ids) = read_by_id s k id

  -- `marks.ReadLatest`
  unfoldable pub read_latest : Listing → S → RepoKeys → Result (Option MarkRecord)
  read_latest listing s k = list_marks listing k >>= read_first s k

-- The maps from keys to the candidates of the previous mark: the last one with the key.
unfoldable pub find_candidate : Bytes → List Candidate → Option Candidate
find_candidate key [] = none
find_candidate key (c ∷ cs) = elim (find_candidate key cs) [
  | some d ↦ some d
  | none ↦ if eqb c.key key then some c else none
]

unfoldable pub find_pack : Bytes → List PackCandidate → Option PackCandidate
find_pack key [] = none
find_pack key (c ∷ cs) = elim (find_pack key cs) [
  | some d ↦ some d
  | none ↦ if eqb c.key key then some c else none
]

-- A candidate of the previous mark is kept as it is; a new one is seen now.
unfoldable pub next_candidates : List Candidate → ℕ → List Bytes → List Candidate
next_candidates prev now [] = []
next_candidates prev now (key ∷ keys) =
    elim (find_candidate key prev) [
      | some old ↦ old
      | none ↦ record { key = key; first_seen = now }
    ]
    ∷ next_candidates prev now keys

unfoldable pub next_packs : List PackCandidate → Option ℕ → ℕ → ℕ → List Bytes → List PackCandidate
next_packs prev prev_completed now version [] = []
next_packs prev prev_completed now version (key ∷ keys) =
    elim (find_pack key prev) [
      | some old ↦ old
      | none ↦ record {
        key = key;
        first_seen = now;
        last_seen_reachable = prev_completed;
        mark_manifest_version = version;
      }
    ]
    ∷ next_packs prev prev_completed now version keys

-- The keys that were discovered.
pub record Found : Type 0 where
  pub packs : List Bytes
  pub indexes : List Bytes
  pub txs : TxKeys
  pub bundles : List Bytes

unfoldable pub discover_all : Listing → RepoKeys → LiveSet → Result Found
discover_all listing k live = do
  packs ← discover_canonical_packs listing k live
  indexes ← discover_indexes listing k live
  txs ← discover_tx_records listing k live
  bundles ← discover_bundles listing k live
  ok (record { packs = packs; indexes = indexes; txs = txs; bundles = bundles })

-- What a mark is made with: the root that was read, the clock, the id.
pub record MarkFacts : Type 0 where
  pub manifest_version : ℕ
  pub manifest_object_version : Bytes
  pub started_at : ℕ
  pub completed_at : ℕ
  pub mark_id : Bytes
  pub retention_seconds : ℕ

abbrev pub no_candidates : Candidates
no_candidates = record {
  tx_records = [];
  canonical_packs = [];
  indexes = [];
  bundles = [];
  orphan_markers = [];
}

abbrev pub prev_candidates : Option MarkRecord → Candidates
prev_candidates none = no_candidates
prev_candidates (some m) = m.candidates

abbrev pub prev_armed : Option MarkRecord → Bool
prev_armed none = false
prev_armed (some m) = m.tx_orphan_sweep_armed

abbrev pub prev_id : Option MarkRecord → Bytes
prev_id none = []
prev_id (some m) = m.mark_id

abbrev pub prev_completed : Option MarkRecord → Option ℕ
prev_completed none = none
prev_completed (some m) = some m.completed_at

-- The new record.
unfoldable pub next_record : MarkFacts → Option MarkRecord → Found → MarkRecord
next_record t prev f =
    let old = prev_candidates prev in
    record {
      mark_id = t.mark_id;
      previous_mark_id = prev_id prev;
      started_at = t.started_at;
      completed_at = t.completed_at;
      manifest_version = t.manifest_version;
      manifest_object_version = t.manifest_object_version;
      retention_seconds = t.retention_seconds;
      tx_orphan_sweep_armed = f.txs.armed || prev_armed prev;
      candidates = record {
        tx_records = next_candidates old.tx_records t.started_at f.txs.candidates;
        canonical_packs =
            next_packs old.canonical_packs (prev_completed prev) t.started_at t.manifest_version
              f.packs;
        indexes = next_candidates old.indexes t.started_at f.indexes;
        bundles = next_candidates old.bundles t.started_at f.bundles;
        orphan_markers = next_candidates old.orphan_markers t.started_at f.txs.orphan_markers;
      };
    }

-- What a mark phase meets: the bucket at its reads of the root and of the previous mark, which others
-- may have changed in between, the listings, the clock and the id.
pub record MarkTurn (S : Type 0) : Type 0 where
  pub at_root : S
  pub at_previous : S
  pub listing : Listing
  pub started_at : ℕ
  pub completed_at : ℕ
  pub mark_id : Bytes

unfoldable pub facts_of : {S : Type 0} → MarkTurn S → Bytes → ℕ → ℕ → MarkFacts
facts_of t token manifest_version retention_seconds = record {
  manifest_version = manifest_version;
  manifest_object_version = token;
  started_at = t.started_at;
  completed_at = t.completed_at;
  mark_id = t.mark_id;
  retention_seconds =
      if retention_seconds == 0 then default_retention_seconds else retention_seconds;
}

module _ {S V : Type 0} (texts : Texts) (store : ObjectStore S Content V)
    (decode : Assoc Json → Result WholeBody) (decode_mark : Content → Option MarkRecord) where
  -- `RunMark`. The names of the repository were validated when it was opened.
  unfoldable pub run_mark : RepoKeys → MarkTurn S → ℕ → Result MarkRecord
  run_mark k t retention_seconds = read_root texts store t.at_root (root_manifest_key k) >>= λ p.
      build_live_set decode k p.0 (some p.1) >>= λ live.
      read_latest store decode_mark t.listing t.at_previous k >>= λ prev.
      discover_all t.listing k live >>= λ found. ok (
        next_record (facts_of t (store.token_text p.2) p.0.manifest_version retention_seconds) prev
          found)
