-- ===== src/Storage/Localfs/Tests.antt =====
-- Runs of internal/storage/localfs, and its theorems at concrete inputs, with bodies of bytes that are
-- their own hash.
use bucketvcs.Prelude.{
  ◌≤◌, ◌≡◌, ◌≢◌, refl, false, [], none, some, ◌==◌, if◌then◌else◌, length, take, drop, Bytes, codes,
  eqb, has_prefix, has_suffix, contains, split, is_empty, All,
}
use bucketvcs.Prelude.Assoc.{lookup, insert, remove}
use bucketvcs.Storage.{
  StorageError, not_found, version_mismatch, io, ok, err, same_version, same_kind,
}
use bucketvcs.Storage.Localfs.Keys.{
  validate_key, validate_segment, validate_segments, is_forbidden, IsPlainSegment, max_key_bytes,
  validate_key-plain,
}
use bucketvcs.Storage.Localfs.Heal.{view}
use bucketvcs.Storage.Localfs.{
  Blob, Sidecar, json, file, Disk, parse_sidecar, new_sidecar, version_of, check_open, check_key,
  lstat_no_symlink, heal_sidecar, head_parsed, head_locked, check_version, no_fault, meta_rename,
  write_atomic, check_absent, put_if_absent, absent_is_mismatch, put_if_version_matches,
  sidecar_removal, remove_files, delete_if_version_matches,
}
use bucketvcs.Storage.Localfs.Progress.{put_if_version_matches-progress}
use bucketvcs.Storage.Localfs.Contract.{
  put_if_version_matches-ok, put_if_version_matches-refused, put_if_absent-ok,
}
use bucketvcs.Storage.Localfs.Faults.{
  put_if_version_matches-meta_rename, Leaves, delete_if_version_matches_lem,
}

abbrev blob : Blob Bytes
blob = record { hash = λ b. b; size = length; cut = λ o n b. take n (drop o b); no_bytes = [] }

abbrev empty : Disk Bytes
empty = record { lockfile_removed = false; files = []; metas = []; list_gen = 0 }

abbrev key : Bytes
key = codes "a/b"

abbrev plain : Bytes
plain = codes "text/plain"

key_accepted : validate_key key ≡ none
unfolding validate_key validate_segments validate_segment is_forbidden is_empty has_prefix
    has_suffix contains split
key_accepted = refl

abbrev stored_once : Disk Bytes
stored_once = (put_if_absent blob no_fault 5 key (codes "old") plain empty).1

stored_once_ok :
    (put_if_absent blob no_fault 5 key (codes "old") plain empty).0 ≡ ok (version_of (codes "old"))
unfolding put_if_absent check_open check_key validate_key is_empty has_prefix has_suffix contains
    validate_segments split validate_segment is_forbidden check_absent lookup write_atomic
stored_once_ok = refl

abbrev replaced : Disk Bytes
replaced =
    (put_if_version_matches blob no_fault 6 key (version_of (codes "old")) (codes "newer") plain
      stored_once).1

replaced_ok :
    (put_if_version_matches blob no_fault 6 key
      (version_of (codes "old"))
      (codes "newer")
      plain
      stored_once).0
    ≡ ok (version_of (codes "newer"))
unfolding put_if_absent put_if_version_matches check_open check_key validate_key is_empty has_prefix
    has_suffix contains validate_segments split validate_segment is_forbidden check_absent lookup
    write_atomic absent_is_mismatch lstat_no_symlink insert eqb check_version head_locked
    head_parsed heal_sidecar parse_sidecar same_kind same_version
replaced_ok = refl

put_if_version_matches-ok_example :
    ((held : Bytes) × (view blob key stored_once ≡ ok (held, version_of (codes "old"))))
    × (view blob key replaced ≡ ok (codes "newer", version_of (codes "newer")))
    × ((j : Bytes) → key ≢ j → view blob j replaced ≡ view blob j stored_once)
put_if_version_matches-ok_example =
    put_if_version_matches-ok blob no_fault 6 plain stored_once key (version_of (codes "old"))
      (codes "newer") (version_of (codes "newer")) replaced_ok

stale_refused :
    (put_if_version_matches blob no_fault 7 key
      (version_of (codes "old"))
      (codes "third")
      plain
      replaced).0
    ≡ err version_mismatch
unfolding put_if_absent put_if_version_matches check_open check_key validate_key is_empty has_prefix
    has_suffix contains validate_segments split validate_segment is_forbidden check_absent lookup
    write_atomic absent_is_mismatch lstat_no_symlink insert eqb check_version head_locked
    head_parsed heal_sidecar parse_sidecar same_kind same_version
stale_refused = refl

put_if_version_matches-refused_example :
    view blob key
      (put_if_version_matches blob no_fault 7 key
        (version_of (codes "old"))
        (codes "third")
        plain
        replaced).1
    ≡ view blob key replaced
put_if_version_matches-refused_example =
    put_if_version_matches-refused blob no_fault 7 plain replaced key key (version_of (codes "old"))
      (codes "third") stale_refused

abbrev old_sidecar : Sidecar
old_sidecar = new_sidecar (codes "old") 3 plain 5

file_there : lookup key stored_once.files ≡ some (file (codes "old") 5)
unfolding put_if_absent lookup check_open check_key validate_key is_empty has_prefix has_suffix
    contains validate_segments split validate_segment is_forbidden check_absent write_atomic insert
file_there = refl

meta_there : lookup key stored_once.metas ≡ some (json old_sidecar)
unfolding put_if_absent lookup check_open check_key validate_key is_empty has_prefix has_suffix
    contains validate_segments split validate_segment is_forbidden check_absent write_atomic insert
meta_there = refl

unlocked : stored_once.lockfile_removed ≡ false
unfolding put_if_absent check_open check_key validate_key is_empty has_prefix has_suffix contains
    validate_segments split validate_segment is_forbidden check_absent lookup write_atomic
unlocked = refl

put_if_version_matches-meta_rename_example :
    ((put_if_version_matches blob meta_rename 6 key
        (version_of (codes "old"))
        (codes "new")
        plain
        stored_once).0
      ≡ err io)
    × (view blob key
          (put_if_version_matches blob meta_rename 6 key
            (version_of (codes "old"))
            (codes "new")
            plain
            stored_once).1
        ≡ ok (codes "new", if 3 == 3 then version_of (codes "old") else version_of (codes "new")))
put_if_version_matches-meta_rename_example =
    put_if_version_matches-meta_rename blob 6 5 key plain (codes "old") (codes "new") old_sidecar
      stored_once unlocked key_accepted file_there meta_there refl refl

delete_if_version_matches_lem_example :
    ((delete_if_version_matches blob sidecar_removal key (version_of (codes "old")) stored_once).0
        ≡ ok tt
      → ((held : Bytes) × (view blob key stored_once ≡ ok (held, version_of (codes "old"))))
        × (view blob key
              (delete_if_version_matches blob sidecar_removal key
                (version_of (codes "old"))
                stored_once).1
            ≡ err not_found))
    × ((e : StorageError)
        → (delete_if_version_matches blob sidecar_removal key
            (version_of (codes "old"))
            stored_once).0
          ≡ err e
        → Leaves blob sidecar_removal key
            (version_of (codes "old"))
            stored_once
            e
            (delete_if_version_matches blob sidecar_removal key
              (version_of (codes "old"))
              stored_once).1)
delete_if_version_matches_lem_example =
    delete_if_version_matches_lem blob sidecar_removal key (version_of (codes "old")) stored_once

validate_key-plain_example :
    (key ≢ []) × (length key ≤ max_key_bytes) × All IsPlainSegment (split b'/' key)
validate_key-plain_example = validate_key-plain key key_accepted

put_if_version_matches-progress_example :
    (put_if_version_matches blob no_fault 6 key
      (version_of (codes "old"))
      (codes "newer")
      plain
      stored_once).0
    ≡ ok (version_of (blob.hash (codes "newer")))
put_if_version_matches-progress_example =
    put_if_version_matches-progress blob 6 plain key stored_once (codes "old") (codes "newer")
      (version_of (codes "old"))
      (put_if_absent-ok blob no_fault 5 plain empty key (codes "old") (version_of (codes "old"))
        stored_once_ok).1

-- A deletion that the file system stops before the sidecar is removed: it reports an error, and the
-- object is gone.
deletion_stopped :
    ((delete_if_version_matches blob sidecar_removal key (version_of (codes "old")) stored_once).0
      ≡ err io)
    × (view blob key
          (delete_if_version_matches blob sidecar_removal key
            (version_of (codes "old"))
            stored_once).1
        ≡ err not_found)
unfolding delete_if_version_matches check_open put_if_absent check_key validate_key is_empty
    has_prefix has_suffix contains validate_segments split validate_segment is_forbidden
    check_absent lookup write_atomic lstat_no_symlink insert remove eqb check_version head_locked
    head_parsed heal_sidecar parse_sidecar remove_files same_kind same_version view
    bucketvcs.Storage.Localfs.get bucketvcs.Storage.Localfs.open_file
    bucketvcs.Storage.Localfs.Heal.shown
deletion_stopped = (refl, refl)
