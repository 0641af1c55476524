-- ===== src/Gc/Marks.antt =====
-- internal/gc/marks/record.go: the record of a mark phase. A time is its count of nanoseconds.
use bucketvcs.Prelude.{ℕ, Bool, List, Option, Bytes}

-- `TxCandidate`, `IndexCandidate`, `BundleCandidate` and `MarkerCandidate`, which have the same fields.
pub record Candidate : Type 0 where
  pub key : Bytes
  pub first_seen : ℕ

-- `PackCandidate`
pub record PackCandidate : Type 0 where
  pub key : Bytes
  pub first_seen : ℕ
  pub last_seen_reachable : Option ℕ
  pub mark_manifest_version : ℕ

-- `Candidates`
pub record Candidates : Type 0 where
  pub tx_records : List Candidate
  pub canonical_packs : List PackCandidate
  pub indexes : List Candidate
  pub bundles : List Candidate
  pub orphan_markers : List Candidate

-- `Record`. The id of the previous mark is empty if there is none.
pub record MarkRecord : Type 0 where
  pub mark_id : Bytes
  pub previous_mark_id : Bytes
  pub started_at : ℕ
  pub completed_at : ℕ
  pub manifest_version : ℕ
  pub manifest_object_version : Bytes
  pub retention_seconds : ℕ
  pub tx_orphan_sweep_armed : Bool
  pub candidates : Candidates
