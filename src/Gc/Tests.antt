-- ===== src/Gc/Tests.antt =====
-- A mark and a sweep of a bucket with one orphan pack, and the theorems of the collector at that input.
use bucketvcs.Prelude.{
  ℕ, ◌*◌, ◌≡◌, refl, ap, ◌⊎◌, inl, inr, Bool, true, false, List, [], ◌∷◌, ◌++◌, Option, none, some,
  arith, if◌then◌else◌, length, Bytes, codes, eqb, has_prefix, lex_lt, ◌==◌,
}
use bucketvcs.Prelude.Assoc.{Assoc, lookup}
use bucketvcs.Prelude.Sort.{member}
use bucketvcs.Repo.Errors.{Result, ok}
use bucketvcs.Repo.Keys.{RepoKeys, prefix_of, root_manifest_key, canonical_pack_key}
use bucketvcs.Repo.Manifest.{Json, num, str, format_value, Content, object, text, Texts}
use bucketvcs.Repo.Memory.{Memory, memory_get, memory, memory_removal, memory_delete}
use bucketvcs.Repo.Body.{WholeBody}
use bucketvcs.Gc.LiveSet.{LiveSet}
use bucketvcs.Gc.Discover.{Listing, last, TxKeys, discover_tx_records, objects_of}
use bucketvcs.Gc.TxRecords.{SaysOf, discover_tx_records-SaysOf}
use bucketvcs.Gc.Marks.{MarkRecord}
use bucketvcs.Gc.Mark.{MarkTurn, run_mark, read_latest}
use bucketvcs.Gc.Sweep
use bucketvcs.Gc.Sweep.Safety.{Leaves, run_sweep-keeps}
use bucketvcs.Gc.Sweep.DeletedKeys.{DeletedAll}
use bucketvcs.Gc.Grace.{begins, Due, run_sweep-Due}

abbrev any_texts : Texts
any_texts = record {
  is_valid = λ s. has_prefix s (codes "v");
  is_greater = λ a b. lex_lt b a;
  is_time = λ s. length s == 20;
}

abbrev noon : Bytes
noon = codes "2026-01-01T12:00:00Z"

abbrev keys : RepoKeys
keys = record {
  tenant_id = codes "acme";
  repo_id = codes "app";
  prefix = prefix_of (codes "acme") (codes "app");
}

abbrev root_doc : Content
root_doc = object (
    (codes "schema_version", num 1)
    ∷ (codes "min_reader_version", str (codes "0.1.0"))
    ∷ (codes "repo_id", str (codes "app"))
    ∷ (codes "repo_format", format_value (codes "sha1") [])
    ∷ (codes "manifest_version", num 3)
    ∷ (codes "latest_tx", str (codes "tx_1"))
    ∷ (codes "created_at", str noon)
    ∷ (codes "updated_at", str noon)
    ∷ [])

abbrev old_pack : Bytes
old_pack = prefix_of (codes "acme") (codes "app") ++ codes "packs/canonical/old.pack"

abbrev root_key : Bytes
root_key = prefix_of (codes "acme") (codes "app") ++ codes "manifest/root.json"

abbrev bucket : Memory
bucket = (root_key, root_doc) ∷ (old_pack, text (codes "PACK")) ∷ []

abbrev bare_body : WholeBody
bare_body = record {
  refs = record { default_branch = []; refs = []; ref_sharding = []; ref_shards = [] };
  packs = [];
  indexes = record { object_map = none; commit_graph = none; reachability = none };
  bundles = [];
}

abbrev decode : Assoc Json → Result WholeBody
decode m = ok bare_body

abbrev no_mark : Content → Option MarkRecord
no_mark c = none

abbrev listing : Listing
listing prefix = last (if has_prefix old_pack prefix then old_pack ∷ [] else [])

abbrev turn : MarkTurn Memory
turn = record {
  at_root = bucket;
  at_previous = bucket;
  listing = listing;
  started_at = 5;
  completed_at = 6;
  mark_id = codes "mk_1";
}

abbrev tx_1 : Bytes
tx_1 = prefix_of (codes "acme") (codes "app") ++ codes "tx/tx_1.json"

abbrev live : LiveSet
live = (tx_1 ++ codes ".commit") ∷ tx_1 ∷ root_key ∷ []

abbrev mark : MarkRecord
mark = record {
  mark_id = codes "mk_1";
  previous_mark_id = [];
  started_at = 5;
  completed_at = 6;
  manifest_version = 3;
  manifest_object_version = [];
  retention_seconds = 1;
  tx_orphan_sweep_armed = false;
  candidates = record {
    tx_records = [];
    canonical_packs =
        record {
          key = old_pack;
          first_seen = 5;
          last_seen_reachable = none;
          mark_manifest_version = 3;
        }
        ∷ [];
    indexes = [];
    bundles = [];
    orphan_markers = [];
  };
}

root_names : Sweep.live_at any_texts memory decode keys bucket ≡ ok live
unfolding Sweep.live_at bucketvcs.Repo.Manifest.read_root lookup eqb root_manifest_key
    bucketvcs.Repo.Manifest.parse_root bucketvcs.Repo.Manifest.parse_top
    bucketvcs.Repo.Manifest.num_field bucketvcs.Repo.Manifest.pick_keys
    bucketvcs.Prelude.Assoc.insert bucketvcs.Repo.Manifest.str_field
    bucketvcs.Repo.Manifest.schema_gate bucketvcs.Prelude.is_empty has_prefix
    bucketvcs.Repo.Manifest.v_prefix lex_lt bucketvcs.Repo.Manifest.decode_header
    bucketvcs.Gc.LiveSet.add_body bucketvcs.Gc.LiveSet.add_bundles bucketvcs.Gc.LiveSet.add_deltas
    bucketvcs.Gc.LiveSet.add_index bucketvcs.Gc.LiveSet.add_key bucketvcs.Gc.LiveSet.add_packs
    bucketvcs.Gc.LiveSet.add_reachability bucketvcs.Gc.LiveSet.add_shards
    bucketvcs.Gc.LiveSet.build_live_set bucketvcs.Gc.LiveSet.header_keys_of
    bucketvcs.Gc.LiveSet.unmarshal_body bucketvcs.Prelude.Assoc.remove
    bucketvcs.Prelude.Int.is_negative member bucketvcs.Repo.Keys.commit_marker_key
    bucketvcs.Repo.Keys.tx_record_key bucketvcs.Repo.Manifest.format_field
    bucketvcs.Repo.Manifest.remove_keys bucketvcs.Repo.Manifest.time_field
    bucketvcs.Repo.RefStore.Shape.decodes_hex bucketvcs.Repo.RefStore.Shape.is_hex_digit
    bucketvcs.Repo.RefStore.Shape.is_shard_hash bucketvcs.Repo.RefStore.Shape.is_shard_id
    bucketvcs.Repo.RefStore.Shape.is_supported_ref_sharding bucketvcs.Repo.RefStore.Shape.to_lower
    bucketvcs.Repo.RefStore.Shape.validate_body bucketvcs.Repo.RefStore.Shape.validate_ref_shards
    bucketvcs.Repo.RefStore.Shape.validate_shards_from
root_names = refl

no_previous : read_latest memory no_mark listing bucket keys ≡ ok none
unfolding read_latest bucketvcs.Gc.Mark.list_marks objects_of bucketvcs.Gc.Mark.read_first
    bucketvcs.Gc.Mark.reverse bucketvcs.Prelude.Sort.sort_by bucketvcs.Gc.Mark.mark_ids has_prefix
no_previous = refl

marked : run_mark any_texts memory decode no_mark keys turn 1 ≡ ok mark
unfolding run_mark bucketvcs.Repo.Manifest.read_root lookup eqb root_manifest_key
    bucketvcs.Repo.Manifest.parse_root bucketvcs.Repo.Manifest.parse_top
    bucketvcs.Repo.Manifest.num_field bucketvcs.Repo.Manifest.pick_keys
    bucketvcs.Prelude.Assoc.insert bucketvcs.Repo.Manifest.str_field
    bucketvcs.Repo.Manifest.schema_gate bucketvcs.Prelude.is_empty has_prefix
    bucketvcs.Repo.Manifest.v_prefix lex_lt bucketvcs.Repo.Manifest.decode_header
    bucketvcs.Gc.Discover.discover_bundles bucketvcs.Gc.Discover.discover_canonical_packs
    bucketvcs.Gc.Discover.discover_indexes discover_tx_records bucketvcs.Gc.Discover.excluding
    bucketvcs.Gc.Discover.is_marker bucketvcs.Gc.Discover.is_record bucketvcs.Gc.Discover.keep_if
    bucketvcs.Gc.Discover.list_excluding_live bucketvcs.Gc.Discover.list_subs objects_of
    bucketvcs.Gc.Discover.trim_prefix bucketvcs.Gc.Discover.trim_suffix
    bucketvcs.Gc.Discover.tx_keys_of bucketvcs.Gc.LiveSet.add_body bucketvcs.Gc.LiveSet.add_bundles
    bucketvcs.Gc.LiveSet.add_deltas bucketvcs.Gc.LiveSet.add_index bucketvcs.Gc.LiveSet.add_key
    bucketvcs.Gc.LiveSet.add_packs bucketvcs.Gc.LiveSet.add_reachability
    bucketvcs.Gc.LiveSet.add_shards bucketvcs.Gc.LiveSet.build_live_set
    bucketvcs.Gc.LiveSet.header_keys_of bucketvcs.Gc.LiveSet.unmarshal_body
    bucketvcs.Gc.Mark.discover_all bucketvcs.Gc.Mark.facts_of bucketvcs.Gc.Mark.find_candidate
    bucketvcs.Gc.Mark.find_pack bucketvcs.Gc.Mark.list_marks bucketvcs.Gc.Mark.mark_ids
    bucketvcs.Gc.Mark.next_candidates bucketvcs.Gc.Mark.next_packs bucketvcs.Gc.Mark.next_record
    bucketvcs.Gc.Mark.read_by_id bucketvcs.Gc.Mark.read_first read_latest bucketvcs.Gc.Mark.reverse
    bucketvcs.Prelude.Assoc.remove bucketvcs.Prelude.Int.is_negative
    bucketvcs.Prelude.Sort.insert_by member bucketvcs.Prelude.Sort.sort_by
    bucketvcs.Prelude.has_suffix bucketvcs.Repo.Keys.commit_marker_key
    bucketvcs.Repo.Keys.gc_mark_key bucketvcs.Repo.Keys.tx_record_key
    bucketvcs.Repo.Manifest.format_field bucketvcs.Repo.Manifest.remove_keys
    bucketvcs.Repo.Manifest.time_field bucketvcs.Repo.RefStore.Shape.decodes_hex
    bucketvcs.Repo.RefStore.Shape.is_hex_digit bucketvcs.Repo.RefStore.Shape.is_shard_hash
    bucketvcs.Repo.RefStore.Shape.is_shard_id
    bucketvcs.Repo.RefStore.Shape.is_supported_ref_sharding bucketvcs.Repo.RefStore.Shape.to_lower
    bucketvcs.Repo.RefStore.Shape.validate_body bucketvcs.Repo.RefStore.Shape.validate_ref_shards
    bucketvcs.Repo.RefStore.Shape.validate_shards_from
marked = refl

abbrev quiet : ℕ → Sweep.SweepTurn Memory
quiet i = record { before_check = λ s. s; before_head = λ s. s; before_delete = λ s. s }

abbrev swept : Sweep.Outcome
swept = record {
  deleted = record {
    tx_records = [];
    canonical_packs = old_pack ∷ [];
    indexes = [];
    reachability_deltas = [];
    bundles = [];
    orphan_markers = [];
  };
  skipped = [];
  errors = [];
}

too_early :
    (Sweep.run_sweep any_texts memory decode memory_removal keys false quiet 1_000_000_004 mark
      bucket).1
    ≡ bucket
unfolding Sweep.run_sweep Sweep.sweep_items Sweep.sweep_item Sweep.sweep_candidate
    Sweep.apply_decision Sweep.delete_candidate Sweep.delete_version Sweep.delete_noted Sweep.skip
    Sweep.add_deleted Sweep.classify Sweep.since_lt Sweep.seconds Sweep.items_of member eqb lookup
too_early = rw (root_names, Sweep.run_sweep) refl

deletes_the_pack :
    Sweep.run_sweep any_texts memory decode memory_removal keys false quiet 1_000_000_005 mark
      bucket
    ≡ (ok swept, (root_key, root_doc) ∷ [])
unfolding Sweep.run_sweep Sweep.sweep_items Sweep.sweep_item Sweep.sweep_candidate
    Sweep.apply_decision Sweep.delete_candidate Sweep.delete_version Sweep.delete_noted Sweep.skip
    Sweep.add_deleted Sweep.classify Sweep.since_lt Sweep.seconds Sweep.items_of member eqb lookup
    memory_delete bucketvcs.Prelude.Assoc.remove bucketvcs.Repo.Memory.same_content
    bucketvcs.Repo.Memory.go_same bucketvcs.Repo.Memory.discrete_content
    native.Mathlib.Decide.ℕ_discrete
deletes_the_pack = rw (root_names, Sweep.run_sweep) refl

quiet-Leaves : (i : ℕ) → Leaves memory memory_removal root_key (quiet i)
quiet-Leaves i = record { check = λ s. refl; head = λ s. refl; deletion = λ s. refl }

run_sweep-keeps_example :
    memory_get
      (Sweep.run_sweep any_texts memory decode memory_removal keys false quiet 1_000_000_005 mark
        bucket).1
      root_key
    ≡ memory_get bucket root_key
unfolding member eqb
run_sweep-keeps_example =
    run_sweep-keeps any_texts memory memory_removal decode keys false quiet 1_000_000_005 mark
      bucket live root_key root_names refl quiet-Leaves

run_sweep-Due_example : DeletedAll (Due ((live, mark) ∷ []) 1 1_000_000_005) swept.deleted
run_sweep-Due_example =
    run_sweep-Due any_texts memory decode memory_removal no_mark keys live mark []
      (begins turn 1 live mark root_names no_previous marked) (omega arith) false quiet
      1_000_000_005 bucket swept (ap (λ (r : Result Sweep.Outcome × Memory). r.0) deletes_the_pack)

abbrev tx_listing : Listing
tx_listing prefix = last (
    tx_1
    ∷ (tx_1 ++ codes ".commit")
    ∷ (prefix ++ codes "tx_0.json")
    ∷ (prefix ++ codes "tx_9.json.commit")
    ∷ [])

abbrev found_txs : TxKeys
found_txs = record {
  candidates = (prefix_of (codes "acme") (codes "app") ++ codes "tx/tx_0.json") ∷ [];
  orphan_markers = (prefix_of (codes "acme") (codes "app") ++ codes "tx/tx_9.json.commit") ∷ [];
  armed = true;
}

txs_found : discover_tx_records tx_listing keys live ≡ ok found_txs
unfolding discover_tx_records objects_of bucketvcs.Gc.Discover.tx_keys_of
    bucketvcs.Prelude.Sort.sort_by bucketvcs.Prelude.is_empty bucketvcs.Gc.Discover.keep_if
    bucketvcs.Gc.Discover.is_record bucketvcs.Gc.Discover.is_marker bucketvcs.Prelude.has_suffix
    bucketvcs.Gc.Discover.trim_prefix has_prefix member bucketvcs.Prelude.Sort.insert_by
    bucketvcs.Gc.Discover.trim_suffix
txs_found = refl

discover_tx_records-SaysOf_example :
    (all : List Bytes) × (objects_of (tx_listing (keys.prefix ++ codes "tx/")) ≡ ok all)
    × ((key : Bytes) → SaysOf (keys.prefix ++ codes "tx/") live all found_txs key)
discover_tx_records-SaysOf_example =
    discover_tx_records-SaysOf tx_listing keys live found_txs txs_found
