-- ===== src/Repo/Commit/Tests.antt =====
-- Runs of internal/repo, and its theorems at concrete inputs, over a bucket in memory.
use bucketvcs.Prelude.{
  arith, ℕ, ◌+◌, ◌<◌, ◌++◌, Bool, ◌≡◌, refl, ap, ◌⊎◌, inl, true, false, [], ◌∷◌, none, ◌==◌,
  if◌then◌else◌, length, Bytes, codes, eqb, has_prefix, lex_lt, contains, is_empty,
}
use bucketvcs.Prelude.Utf8.{rune_size, size_of_rune, byte_at, between, is_two, is_three, is_four}
use bucketvcs.Prelude.Assoc.{lookup, insert, remove}
use native.Mathlib.Decide.{ℕ_discrete}
use bucketvcs.Storage.{version_mismatch}
use bucketvcs.Repo.Errors.{gave_up, Result, ok, err}
use bucketvcs.Repo.Keys.{
  RepoKeys, prefix_of, new_repo, validate_id, matches_id_pattern, all_id_bytes, is_id_byte,
  root_manifest_key, tx_record_key, commit_marker_key,
}
use bucketvcs.Repo.Manifest.{
  Content, object, text, other, supported_reader_version, Texts, read_root, wrap_header_in_body,
  wrap_object, has_key_of, insert_all, encode_header, parse_root, parse_top, decode_header,
  schema_gate, num_field, str_field, time_field, format_field, remove_keys, pick_keys, v_prefix,
}
use bucketvcs.Repo.Tx.{
  TxBody, write, marshal, splice_body, splice_extra, is_reserved, encode_tx_body, encode_tx_header,
  with_extra, put_record, write_commit_marker,
}
use bucketvcs.Repo.Commit.{
  RootView, Turn, default_policy, returned, conflict, CreateOptions, CreateTurn, create,
  first_content, quotes_from, rune_quotes, ascii_quotes, create_records, create_root, attempt,
  commit, commit_loop, finish, publish, first_header, or_default, wrap_and_publish,
  record_and_publish, build_and_publish, normalize, next_header,
}
use bucketvcs.Repo.Commit.Attempt.{Retries}
use bucketvcs.Repo.Commit.Returned.{commit-first_return}
use bucketvcs.Repo.Commit.History.{Advances, commit-Advances}
use bucketvcs.Repo.Commit.GaveUp.{ids_from, commit-gave_up}
use bucketvcs.Repo.Commit.Create.{Created, ReadsNew, create-ReadsNew}
use bucketvcs.Repo.Memory.{
  Memory, discrete_content, go_same, same_content, memory_absent, memory_matches, memory,
  memory_token_names,
}

abbrev any_texts : Texts
any_texts = record {
  is_valid = λ s. has_prefix s (codes "v");
  is_greater = λ a b. lex_lt b a;
  is_time = λ s. length s == 20;
}

abbrev noon : Bytes
noon = codes "2026-01-01T12:00:00Z"

abbrev keys : RepoKeys
keys = record {
  tenant_id = codes "acme";
  repo_id = codes "app";
  prefix = prefix_of (codes "acme") (codes "app");
}

abbrev options : CreateOptions
options = record { default_branch = []; object_format = []; actor = codes "ann" }

abbrev create_turn : CreateTurn Memory
create_turn = record {
  before_root = λ s. s;
  before_marker = λ s. s;
  tx_id = codes "t0";
  now = noon;
}

abbrev any_print : ℕ → Bool
any_print c = true

abbrev created : Result RepoKeys × Memory
created = create any_print memory (codes "acme") (codes "app") options create_turn []

created_ok : created.0 ≡ ok keys
unfolding create new_repo validate_id matches_id_pattern all_id_bytes is_id_byte contains
    create_records first_content quotes_from rune_quotes ascii_quotes rune_size size_of_rune byte_at
    between write marshal splice_body encode_tx_body encode_tx_header with_extra put_record
    is_reserved memory_absent wrap_header_in_body wrap_object has_key_of insert_all encode_header
    create_root write_commit_marker commit_marker_key root_manifest_key tx_record_key eqb is_empty
    lookup insert
created_ok = refl

created_pair : created ≡ (ok keys, created.1)
created_pair = ap (λ r. (r, created.1)) created_ok

abbrev tx_body : TxBody
tx_body = record {
  type_name = codes "push";
  actor = codes "ann";
  ref_updates = none;
  new_packs = none;
  validation = none;
  extra = text [];
}

abbrev new_refs : RootView Content → Content ⊎ ℕ
new_refs view = inl (object ((codes "refs", other (codes "{}")) ∷ []))

abbrev rival : Memory → Memory
rival s =
    insert (root_manifest_key keys)
      (object (
        encode_header (
          next_header (first_header (codes "app") (codes "sha1") (codes "t0") noon) (codes "r1")
            noon)))
      s

abbrev quiet_turn : Bytes → Turn Memory
quiet_turn id = record {
  before_read = λ s. s;
  before_write = λ s. s;
  before_cas = λ s. s;
  before_marker = λ s. s;
  canceled_at_start = false;
  canceled_after_build = false;
  canceled_before_cas = false;
  canceled_in_backoff = false;
  tx_id = id;
  started_at = noon;
  updated_at = noon;
}

-- A rival commits during the first attempt.
abbrev turns : ℕ → Turn Memory
turns j = record (quiet_turn (if j == 1 then codes "t1" else codes "t2")) {
  before_cas = λ s. if j == 1 then rival s else s;
}

abbrev committed : Result Bytes × Memory
committed = commit any_texts memory keys default_policy tx_body new_refs turns created.1

commit_retries : committed ≡ (ok (codes "t2"), committed.1)
unfolding create new_repo validate_id matches_id_pattern all_id_bytes is_id_byte contains
    create_records first_content quotes_from rune_quotes ascii_quotes rune_size size_of_rune byte_at
    between write marshal splice_body encode_tx_body encode_tx_header with_extra put_record
    is_reserved memory_absent wrap_header_in_body wrap_object has_key_of insert_all encode_header
    create_root write_commit_marker commit_marker_key root_manifest_key tx_record_key eqb is_empty
    lookup insert commit commit_loop normalize attempt read_root parse_root parse_top num_field
    pick_keys str_field schema_gate v_prefix lex_lt decode_header format_field time_field
    build_and_publish remove has_prefix finish next_header publish record_and_publish
    wrap_and_publish remove_keys splice_extra memory_matches same_content go_same discrete_content
    ℕ_discrete
commit_retries = refl

abbrev contended : Memory
contended = (attempt any_texts memory keys tx_body new_refs (turns 1) created.1).1

first_contended :
    (attempt any_texts memory keys tx_body new_refs (turns 1) created.1).0
    ≡ conflict version_mismatch
unfolding create new_repo validate_id matches_id_pattern all_id_bytes is_id_byte contains
    create_records first_content quotes_from rune_quotes ascii_quotes rune_size size_of_rune byte_at
    between write marshal splice_body encode_tx_body encode_tx_header with_extra put_record
    is_reserved memory_absent wrap_header_in_body wrap_object has_key_of insert_all encode_header
    create_root write_commit_marker commit_marker_key root_manifest_key tx_record_key eqb is_empty
    lookup insert commit commit_loop normalize attempt read_root parse_root parse_top num_field
    pick_keys str_field schema_gate v_prefix lex_lt decode_header format_field time_field
    build_and_publish remove has_prefix finish next_header publish record_and_publish
    wrap_and_publish remove_keys splice_extra memory_matches same_content go_same discrete_content
    ℕ_discrete
first_contended = refl

second_returns :
    attempt any_texts memory keys tx_body new_refs (turns 2) contended
    ≡ (returned (ok (codes "t2")), committed.1)
unfolding create new_repo validate_id matches_id_pattern all_id_bytes is_id_byte contains
    create_records first_content quotes_from rune_quotes ascii_quotes rune_size size_of_rune byte_at
    between write marshal splice_body encode_tx_body encode_tx_header with_extra put_record
    is_reserved memory_absent wrap_header_in_body wrap_object has_key_of insert_all encode_header
    create_root write_commit_marker commit_marker_key root_manifest_key tx_record_key eqb is_empty
    lookup insert commit commit_loop normalize attempt read_root parse_root parse_top num_field
    pick_keys str_field schema_gate v_prefix lex_lt decode_header format_field time_field
    build_and_publish remove has_prefix finish next_header publish record_and_publish
    wrap_and_publish remove_keys splice_extra memory_matches same_content go_same discrete_content
    ℕ_discrete
second_returns = refl

commit-first_return_example : committed ≡ (ok (codes "t2"), committed.1)
unfolding normalize
commit-first_return_example =
    commit-first_return any_texts memory keys tx_body new_refs turns (λ j. refl) default_policy 1
      created.1 contended committed.1 (ok (codes "t2")) (omega arith)
      (version_mismatch, first_contended, refl) second_returns

turns_timed : (j : ℕ) → any_texts.is_time (turns j).updated_at ≡ true
turns_timed j = refl

commit-Advances_example :
    (j n : ℕ) × (u before after : Memory) × (j ≡ 1 + n)
    × (n < (normalize default_policy).max_retries)
    × Retries any_texts memory keys tx_body new_refs turns 1 n created.1 u
    × Advances any_texts memory keys refl memory_token_names
        (turns j)
        tx_body
        new_refs
        u
        before
        after
    × (finish any_texts memory keys (turns j) after ≡ (returned (ok (codes "t2")), committed.1))
commit-Advances_example =
    commit-Advances any_texts memory keys refl memory_token_names tx_body new_refs turns
      default_policy created.1 committed.1 (codes "t2") turns_timed commit_retries

-- Each attempt reads the new repository, and finds the root gone at its write.
abbrev losing : ℕ → Turn Memory
losing j = record (quiet_turn (codes "l")) { before_read = λ s. created.1; before_cas = λ s. [] }

losing_loses :
    (j : ℕ) (u : Memory)
    → (attempt any_texts memory keys tx_body new_refs (losing j) u).0 ≡ conflict version_mismatch
unfolding create new_repo validate_id matches_id_pattern all_id_bytes is_id_byte contains
    create_records first_content quotes_from rune_quotes ascii_quotes rune_size size_of_rune byte_at
    between write marshal splice_body encode_tx_body encode_tx_header with_extra put_record
    is_reserved memory_absent wrap_header_in_body wrap_object has_key_of insert_all encode_header
    create_root write_commit_marker commit_marker_key root_manifest_key tx_record_key eqb is_empty
    lookup insert commit commit_loop normalize attempt read_root parse_root parse_top num_field
    pick_keys str_field schema_gate v_prefix lex_lt decode_header format_field time_field
    build_and_publish remove has_prefix finish next_header publish record_and_publish
    wrap_and_publish remove_keys splice_extra memory_matches same_content go_same discrete_content
losing_loses j u = refl

commit-gave_up_example :
    (commit any_texts memory keys default_policy tx_body new_refs losing []).0
    ≡ err (
        gave_up
          (normalize default_policy).max_retries
          (ids_from any_texts memory keys tx_body new_refs losing 1
            (normalize default_policy).max_retries)
          version_mismatch)
commit-gave_up_example =
    commit-gave_up any_texts memory keys tx_body new_refs losing losing_loses (λ j. refl)
      default_policy []

reader_valid : any_texts.is_valid (v_prefix supported_reader_version) ≡ true
unfolding v_prefix has_prefix
reader_valid = refl

reader_current :
    any_texts.is_greater (v_prefix supported_reader_version) (v_prefix supported_reader_version)
    ≡ false
unfolding v_prefix has_prefix lex_lt
reader_current = refl

create-ReadsNew_example :
    (new_repo (codes "acme") (codes "app") ≡ inl keys)
    × (or_default options.object_format (codes "sha1") ≡ codes "sha1")
    × Created any_print any_texts memory keys
        (codes "sha1")
        (or_default options.default_branch (codes "refs/heads/main"))
        (or_default options.actor (codes "unknown"))
        create_turn
        []
        created.1
    × ReadsNew any_print any_texts memory reader_valid reader_current keys
        (codes "sha1")
        (or_default options.default_branch (codes "refs/heads/main"))
        create_turn
        created.1
create-ReadsNew_example =
    create-ReadsNew any_print any_texts memory reader_valid reader_current (codes "acme")
      (codes "app") options create_turn keys [] created.1 refl (λ u. refl) created_pair

-- A branch with a byte that is not UTF-8, one with a line tabulation, and one with U+0085.
quoting :
    (quotes_from any_print 0 (codes "refs/heads/" ++ 255 ∷ []) ≡ false)
    × (quotes_from any_print 0 (codes "a" ++ 11 ∷ codes "b") ≡ false)
    × (quotes_from any_print 0 (194 ∷ 133 ∷ codes "b") ≡ true)
unfolding quotes_from rune_quotes ascii_quotes rune_size size_of_rune byte_at between is_two
    is_three is_four
quoting = (refl, refl, refl)
