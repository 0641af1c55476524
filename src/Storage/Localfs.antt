-- ===== src/Storage/Localfs.antt =====
-- internal/storage/localfs: the object store on a directory of files. The disk is the map of the
-- content files and the map of the sidecar files beside them, both by key. The mutex of a key makes
-- each operation on it one step. An error of the operating system during a write or a deletion is an
-- argument, the place at which it strikes; reads, and the repair of a sidecar, meet none. The path of
-- a key is a content file or free: the directories that other keys need are not on the disk.
pub mod Keys
pub mod Heal
pub mod Laws
pub mod Contract
pub mod Faults
pub mod Progress
mod Tests
use bucketvcs.Prelude.{
  ℕ, ◌+◌, ◌-◌, ◌≡◌, Bool, true, false, not, List, [], ◌||◌, Option, none, some, ltb, leb, ◌==◌,
  if◌then◌else◌, Bytes, codes,
}
use bucketvcs.Prelude.Assoc.{Assoc, lookup, insert, remove}
use bucketvcs.Storage.{
  StorageError, not_found, already_exists, version_mismatch, invalid_argument, closed,
  unsupported_sidecar_schema, io, Result, ok, err, ObjectVersion, etag, same_version,
}
use Keys.{validate_key}

-- What localfs does with the bytes of a body: the hex SHA-256, the count, a slice.
pub record Blob (B : Type 0) : Type 0 where
  pub hash : B → Bytes
  pub size : B → ℕ
  pub cut : ℕ → ℕ → B → B
  pub no_bytes : B

pub record Sidecar : Type 0 where
  pub version : ℕ
  pub sha256 : Bytes
  pub size : ℕ
  pub content_type : Bytes
  pub modified_at : ℕ

abbrev pub sidecar_schema_version : ℕ
sidecar_schema_version = 1

-- A sidecar file: the JSON of a sidecar, or bytes that do not parse.
pub data Meta : Type 0 where
  json : Sidecar → Meta
  garbage : Meta

-- What a path of the objects directory is.
pub data Entry (B : Type 0) : Type 0 where
  file : B → ℕ → Entry B
  link : Entry B

pub record Disk (B : Type 0) : Type 0 where
  pub lockfile_removed : Bool
  pub files : Assoc (Entry B)
  pub metas : Assoc Meta
  pub list_gen : ℕ

pub record ObjectMetadata : Type 0 where
  pub key : Bytes
  pub version : ObjectVersion
  pub size : ℕ
  pub content_type : Bytes
  pub modified_at : ℕ

-- Where the operating system refuses a step of `writeAtomic`.
pub data Fault : Type 0 where
  no_fault before_rename content_sync meta_rename meta_sync : Fault

-- Where the operating system refuses a step of a deletion.
pub data RemoveFault : Type 0 where
  no_remove_fault content_removal removal_sync sidecar_removal last_sync : RemoveFault

-- An operation returns its result with the disk that it leaves.
abbrev pub Action : Type 0 → Type 0 → Type 0
Action B A = Disk B → Result A × Disk B

module _ {B A : Type 0} where
  abbrev pub pure : A → Action B A
  pure a d = (ok a, d)

  abbrev pub raise : StorageError → Action B A
  raise e d = (err e, d)

module _ {B A C : Type 0} where
  abbrev pub continue : Result A → (A → Action B C) → Action B C
  continue (ok a) f d = f a d
  continue (err e) f d = (err e, d)

  infixl 5 ◌>>=◌ ◌>>◌
  abbrev pub ◌>>=◌ : Action B A → (A → Action B C) → Action B C
  ◌>>=◌ m f d = continue (m d).0 f (m d).1

  abbrev pub ◌>>◌ : Action B A → Action B C → Action B C
  m >> k = m >>= λ _. k

-- The result of `parseSidecar`, where an absent file is unreadable too.
pub data Parsed : Type 0 where
  parsed : Sidecar → Parsed
  unreadable unsupported : Parsed

unfoldable pub parse_sidecar : Option Meta → Parsed
parse_sidecar none = unreadable
parse_sidecar (some garbage) = unreadable
parse_sidecar (some (json sc)) =
    if ltb sidecar_schema_version sc.version
    then unsupported
    else if not (sc.version == sidecar_schema_version)
    then unreadable
    else parsed sc

abbrev pub new_sidecar : Bytes → ℕ → Bytes → ℕ → Sidecar
new_sidecar sum n content_type now = record {
  version = sidecar_schema_version;
  sha256 = sum;
  size = n;
  content_type = content_type;
  modified_at = now;
}

abbrev pub version_of : Bytes → ObjectVersion
version_of sum = record { provider = codes "localfs"; token = sum; kind = etag }

abbrev pub metadata_of : Bytes → Sidecar → ObjectMetadata
metadata_of key sc = record {
  key = key;
  version = version_of sc.sha256;
  size = sc.size;
  content_type = sc.content_type;
  modified_at = sc.modified_at;
}

module _ {B : Type 0} (blob : Blob B) where
  -- `checkOpen`
  unfoldable pub check_open : Action B (Unit {0})
  check_open d = if d.lockfile_removed then (err closed, d) else (ok tt, d)

  -- The call of `validateKey` at the head of each operation.
  unfoldable pub check_key : Bytes → Action B (Unit {0})
  check_key key d = elim (validate_key key) [
    | none ↦ (ok tt, d)
    | some _ ↦ (err invalid_argument, d)
  ]

  -- `lstatNoSymlink`
  unfoldable pub lstat_no_symlink : Bytes → Action B (Unit {0})
  lstat_no_symlink key d = elim (lookup key d.files) [
    | none ↦ (err not_found, d)
    | some link ↦ (err invalid_argument, d)
    | some (file _ _) ↦ (ok tt, d)
  ]

  -- `healSidecar`
  unfoldable pub heal_sidecar : Bytes → B → ℕ → Action B Sidecar
  heal_sidecar key content mtime d =
      let sc = new_sidecar (blob.hash content) (blob.size content) [] mtime in
      (ok sc, record d { metas = insert key (json sc) d.metas })

  unfoldable pub head_parsed : Bytes → B → ℕ → Parsed → Action B ObjectMetadata
  head_parsed key content mtime unsupported d = (err unsupported_sidecar_schema, d)
  head_parsed key content mtime unreadable d =
      (do sc ← heal_sidecar key content mtime; pure (metadata_of key sc)) d
  head_parsed key content mtime (parsed sc) d =
      if sc.size == blob.size content
      then (ok (metadata_of key sc), d)
      else (do healed ← heal_sidecar key content mtime; pure (metadata_of key healed)) d

  -- `headLocked`. Its callers have refused a link before they call it.
  unfoldable pub head_locked : Bytes → Action B ObjectMetadata
  head_locked key d = elim (lookup key d.files) [
    | none ↦ (err not_found, d)
    | some link ↦ (err io, d)
    | some (file content mtime) ↦
        head_parsed key content mtime (parse_sidecar (lookup key d.metas)) d
  ]

  -- `os.Open` and reading the file to its end.
  unfoldable pub open_file : Bytes → Action B B
  open_file key d = elim (lookup key d.files) [
    | none ↦ (err not_found, d)
    | some link ↦ (err io, d)
    | some (file content _) ↦ (ok content, d)
  ]

  unfoldable pub check_version : Option ObjectVersion → ObjectMetadata → Action B (Unit {0})
  check_version none md d = (ok tt, d)
  check_version (some v) md d =
      if not (same_version md.version v) then (err version_mismatch, d) else (ok tt, d)

  -- `(*Localfs).Get`
  unfoldable pub get : Bytes → Option ObjectVersion → Action B (B × ObjectMetadata)
  get key if_version_matches = do
    check_open
    check_key key
    lstat_no_symlink key
    md ← head_locked key
    check_version if_version_matches md
    content ← open_file key
    pure (content, md)

  -- `(*Localfs).Head`
  unfoldable pub head : Bytes → Action B ObjectMetadata
  head key = do check_open; check_key key; lstat_no_symlink key; head_locked key

  -- The slice of `(*Localfs).GetRange`, whose bounds are not negative here.
  unfoldable pub range_of : ℕ → ℕ → B → B
  range_of start end_inclusive content =
      let last =
        if leb (blob.size content) end_inclusive then blob.size content - 1 else end_inclusive in
      if leb (blob.size content) start
      then blob.no_bytes
      else blob.cut start (last - start + 1) content

  unfoldable pub check_range : ℕ → ℕ → Action B (Unit {0})
  check_range start end_inclusive d =
      if ltb end_inclusive start then (err invalid_argument, d) else (ok tt, d)

  -- `(*Localfs).GetRange`
  unfoldable pub get_range : Bytes → ℕ → ℕ → Action B B
  get_range key start end_inclusive = do
    check_open
    check_key key
    check_range start end_inclusive
    lstat_no_symlink key
    head_locked key
    content ← open_file key
    pure (range_of start end_inclusive content)

  abbrev rename_content : Bytes → B → ℕ → Disk B → Disk B
  rename_content key content now d = record d { files = insert key (file content now) d.files }

  abbrev rename_meta : Bytes → Sidecar → Disk B → Disk B
  rename_meta key sc d = record d { metas = insert key (json sc) d.metas }

  -- `writeAtomic`: content first, then the sidecar. What was renamed before a fault stays.
  unfoldable pub write_atomic : Fault → ℕ → Bytes → B → Bytes → Action B ObjectVersion
  write_atomic before_rename now key content content_type d = (err io, d)
  write_atomic content_sync now key content content_type d =
      (err io, rename_content key content now d)
  write_atomic meta_rename now key content content_type d =
      (err io, rename_content key content now d)
  write_atomic meta_sync now key content content_type d =
      let sc = new_sidecar (blob.hash content) (blob.size content) content_type now in
      (err io, rename_meta key sc (rename_content key content now d))
  write_atomic no_fault now key content content_type d =
      let sc = new_sidecar (blob.hash content) (blob.size content) content_type now in
      let d' = rename_meta key sc (rename_content key content now d) in
      (ok (version_of (blob.hash content)), record d' { list_gen = d'.list_gen + 1 })

  -- The `os.Lstat` of `PutIfAbsent`.
  unfoldable pub check_absent : Bytes → Action B (Unit {0})
  check_absent key d = elim (lookup key d.files) [
    | none ↦ (ok tt, d)
    | some _ ↦ (err already_exists, d)
  ]

  -- `(*Localfs).PutIfAbsent`
  unfoldable pub put_if_absent : Fault → ℕ → Bytes → B → Bytes → Action B ObjectVersion
  put_if_absent fault now key body content_type = do
    check_open
    check_key key
    check_absent key
    write_atomic fault now key body content_type

  -- `ErrNotFound` is reported as a mismatch by `PutIfVersionMatches`.
  unfoldable pub absent_is_mismatch {ℓ} : {A : Type ℓ} → Result A × Disk B → Result A × Disk B
  absent_is_mismatch (err not_found, d) = (err version_mismatch, d)
  absent_is_mismatch (r, d) = (r, d)

  -- `(*Localfs).PutIfVersionMatches`
  unfoldable pub put_if_version_matches :
      Fault → ℕ → Bytes → ObjectVersion → B → Bytes → Action B ObjectVersion
  put_if_version_matches fault now key expected body content_type = do
    check_open
    check_key key
    (λ d. absent_is_mismatch (lstat_no_symlink key d))
    current ← (λ d. absent_is_mismatch (head_locked key d))
    check_version (some expected) current
    write_atomic fault now key body content_type

  -- The removal of the two files, the content first, each with the sync of their directory.
  unfoldable pub remove_files : RemoveFault → Bytes → Action B (Unit {0})
  remove_files fault key d =
      let without_content = record d { files = remove key d.files } in
      let without_both = record without_content { metas = remove key d.metas } in
      elim fault [
        | content_removal ↦ (err io, d)
        | removal_sync ↦ (err io, without_content)
        | sidecar_removal ↦ (err io, without_content)
        | last_sync ↦ (err io, without_both)
        | no_remove_fault ↦ (ok tt, record without_both { list_gen = d.list_gen + 1 })
      ]

  -- `(*Localfs).DeleteIfVersionMatches`
  unfoldable pub delete_if_version_matches :
      RemoveFault → Bytes → ObjectVersion → Action B (Unit {0})
  delete_if_version_matches fault key expected = do
    check_open
    check_key key
    lstat_no_symlink key
    current ← head_locked key
    check_version (some expected) current
    remove_files fault key
