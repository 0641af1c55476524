-- ===== src/Repo/Manifest.antt =====
-- internal/repo/manifest: the header of the root manifest, its schema gate, and the splicing of the
-- header into a body. A document is kept as the map of raw values that its JSON text encodes.
pub mod RoundTrip
use bucketvcs.Prelude.{
  ◌^◌, ℕ, zero, suc, ◌+◌, ◌-◌, ◌*◌, ◌≤◌, ◌<◌, ◌≡◌, ◌≢◌, refl, sym, ap, ap₂, ◌∙◌, ◌↔◌, ◌⊎◌, inl, inr,
  Bool, true, false, not, ◌&&◌, ◌||◌, List, [], ◌∷◌, ◌++◌, Option, none, some, arith, ltb, leb,
  ◌==◌, if◌then◌else◌, length, take, drop, Bytes, codes, eqb, has_prefix, has_suffix, contains,
  split, is_empty, Bool-cases, Option-cases, eqb_iff, eqb_refl, All, append-nil, append_assoc,
  length-append,
}
use bucketvcs.Prelude.Assoc.{Assoc, lookup, insert, remove, lookup-insert, lookup-remove, map_laws}
use bucketvcs.Storage.{StorageError, not_found, ObjectStore, ok as stored, err as refused}
use bucketvcs.Repo.Errors.{
  RepoError, repo_not_found, unsupported_schema, parse_failed, not_an_object, reserved_key,
  storage_failed, Result, ok, err, ◌>>=◌, ◌>>◌,
}

-- A raw JSON value, as far as the header tells values apart. `other` is the text of any other value.
pub data Json : Type 0 where
  null : Json
  num : ℕ → Json
  str : Bytes → Json
  format_value : Bytes → List Bytes → Json
  other : Bytes → Json

-- The bytes of a document: those of a JSON object, `null`, or anything else (`text []` is empty).
pub data Content : Type 0 where
  object : Assoc Json → Content
  null_text : Content
  text : Bytes → Content

-- `Format`
pub record Format : Type 0 where
  pub object_format : Bytes
  pub compatibility : List Bytes

-- `RootHeader`. A time is its RFC 3339 text.
pub record RootHeader : Type 0 where
  pub schema_version : ℕ
  pub min_reader_version : Bytes
  pub repo_id : Bytes
  pub repo_format : Format
  pub manifest_version : ℕ
  pub latest_tx : Bytes
  pub created_at : Bytes
  pub updated_at : Bytes

-- `headerKeys`
abbrev pub header_keys : List Bytes
header_keys =
    codes "schema_version"
    ∷ codes "min_reader_version"
    ∷ codes "repo_id"
    ∷ codes "repo_format"
    ∷ codes "manifest_version"
    ∷ codes "latest_tx"
    ∷ codes "created_at"
    ∷ codes "updated_at"
    ∷ []

abbrev pub current_schema_version : ℕ
current_schema_version = 2

abbrev pub supported_reader_version : Bytes
supported_reader_version = codes "0.1.0"

-- golang.org/x/mod/semver (`IsValid`, `Compare(a, b) > 0`), and which texts parse as a time.
pub record Texts : Type 0 where
  pub is_valid : Bytes → Bool
  pub is_greater : Bytes → Bytes → Bool
  pub is_time : Bytes → Bool

unfoldable pub v_prefix : Bytes → Bytes
v_prefix [] = codes "v"
v_prefix (c ∷ s) = if c == b'v' then c ∷ s else b'v' ∷ (c ∷ s)

-- `SchemaGate`, on the two fields that it reads.
unfoldable pub schema_gate : Texts → ℕ → Bytes → Result (Unit {0})
schema_gate texts schema_version min_reader_version =
    if ltb schema_version 1 || ltb current_schema_version schema_version
    then err unsupported_schema
    else if is_empty min_reader_version
    then ok tt
    else if not (texts.is_valid (v_prefix min_reader_version))
    then err unsupported_schema
    else if texts.is_greater (v_prefix min_reader_version) (v_prefix supported_reader_version)
    then err unsupported_schema
    else ok tt

-- The values that an `int` and a `uint64` can have.
abbrev pub int_bound : ℕ
int_bound = 2 ^ 63

abbrev pub uint64_bound : ℕ
uint64_bound = 2 ^ 64

-- `json.Unmarshal` into one field: an absent key and `null` leave the zero value, and a number that the
-- type of the field cannot hold is an error.
unfoldable pub num_field : ℕ → Assoc Json → Bytes → Result ℕ
num_field bound m k = elim (lookup k m) [
  | none ↦ ok 0
  | some null ↦ ok 0
  | some (num n) ↦ if ltb n bound then ok n else err parse_failed
  | some _ ↦ err parse_failed
]

unfoldable pub str_field : Assoc Json → Bytes → Result Bytes
str_field m k = elim (lookup k m) [
  | none ↦ ok []
  | some null ↦ ok []
  | some (str s) ↦ ok s
  | some _ ↦ err parse_failed
]

-- The text of the zero `time.Time`.
abbrev pub zero_time : Bytes
zero_time = codes "0001-01-01T00:00:00Z"

unfoldable pub time_field : Texts → Assoc Json → Bytes → Result Bytes
time_field texts m k = elim (lookup k m) [
  | none ↦ ok zero_time
  | some null ↦ ok zero_time
  | some (str s) ↦ if texts.is_time s then ok s else err parse_failed
  | some _ ↦ err parse_failed
]

unfoldable pub format_field : Assoc Json → Bytes → Result Format
format_field m k = elim (lookup k m) [
  | none ↦ ok (record { object_format = []; compatibility = [] })
  | some null ↦ ok (record { object_format = []; compatibility = [] })
  | some (format_value f c) ↦ ok (record { object_format = f; compatibility = c })
  | some _ ↦ err parse_failed
]

-- `json.Unmarshal` into a `RootHeader`.
unfoldable pub decode_header : Texts → Assoc Json → Result RootHeader
decode_header texts m = do
  schema_version ← num_field int_bound m (codes "schema_version")
  min_reader_version ← str_field m (codes "min_reader_version")
  repo_id ← str_field m (codes "repo_id")
  repo_format ← format_field m (codes "repo_format")
  manifest_version ← num_field uint64_bound m (codes "manifest_version")
  latest_tx ← str_field m (codes "latest_tx")
  created_at ← time_field texts m (codes "created_at")
  updated_at ← time_field texts m (codes "updated_at")
  ok (record {
    schema_version = schema_version;
    min_reader_version = min_reader_version;
    repo_id = repo_id;
    repo_format = repo_format;
    manifest_version = manifest_version;
    latest_tx = latest_tx;
    created_at = created_at;
    updated_at = updated_at;
  })

-- `json.Marshal` of a `RootHeader`, read again as a map.
unfoldable pub encode_header : RootHeader → Assoc Json
encode_header h =
    (codes "schema_version", num h.schema_version)
    ∷ (codes "min_reader_version", str h.min_reader_version)
    ∷ (codes "repo_id", str h.repo_id)
    ∷ (codes "repo_format", format_value h.repo_format.object_format h.repo_format.compatibility)
    ∷ (codes "manifest_version", num h.manifest_version)
    ∷ (codes "latest_tx", str h.latest_tx)
    ∷ (codes "created_at", str h.created_at)
    ∷ (codes "updated_at", str h.updated_at)
    ∷ []

-- The loop of `pickHeader`.
unfoldable pub pick_keys : List Bytes → Assoc Json → Assoc Json → Assoc Json
pick_keys [] top out = out
pick_keys (k ∷ ks) top out =
    pick_keys ks top (elim (lookup k top) [ none ↦ out | some v ↦ insert k v out ])

abbrev pub pick_header : Assoc Json → Assoc Json
pick_header top = pick_keys header_keys top []

-- `for _, k := range headerKeys { delete(top, k) }`
unfoldable pub remove_keys : List Bytes → Assoc Json → Assoc Json
remove_keys [] top = top
remove_keys (k ∷ ks) top = remove_keys ks (remove k top)

-- `for k, v := range headerMap { top[k] = v }`
unfoldable pub insert_all : Assoc Json → Assoc Json → Assoc Json
insert_all [] top = top
insert_all ((k, v) ∷ m) top = insert_all m (insert k v top)

-- Whether a reserved key stands in the map.
unfoldable pub has_key_of : List Bytes → Assoc Json → Bool
has_key_of [] top = false
has_key_of (k ∷ ks) top = elim (lookup k top) [ some _ ↦ true | none ↦ has_key_of ks top ]

unfoldable pub wrap_object : RootHeader → Assoc Json → Result Content
wrap_object h top =
    if has_key_of header_keys top
    then err reserved_key
    else ok (object (insert_all (encode_header h) top))

-- `WrapHeaderInBody`
unfoldable pub wrap_header_in_body : RootHeader → Content → Result Content
wrap_header_in_body h (text []) = wrap_object h []
wrap_header_in_body h (text (c ∷ s)) = err not_an_object
wrap_header_in_body h null_text = err not_an_object
wrap_header_in_body h (object top) = wrap_object h top

-- `ReadRoot` on the bytes of the manifest. `null` unmarshals into a nil map, which has no keys.
unfoldable pub parse_top : Content → Result (Assoc Json)
parse_top (object top) = ok top
parse_top null_text = ok []
parse_top (text s) = err parse_failed

unfoldable pub parse_root : Texts → Content → Result (RootHeader × Assoc Json)
parse_root texts raw = do
  top ← parse_top raw
  let header = pick_header top
  schema_version ← num_field int_bound header (codes "schema_version")
  min_reader_version ← str_field header (codes "min_reader_version")
  schema_gate texts schema_version min_reader_version
  h ← decode_header texts header
  ok (h, remove_keys header_keys top)

module _ {S V : Type 0} (texts : Texts) (store : ObjectStore S Content V) where
  -- `manifest.ReadRoot`
  unfoldable pub read_root : S → Bytes → Result (RootHeader × Assoc Json × V)
  read_root s key = elim (store.get s key) [
    | refused not_found ↦ err repo_not_found
    | refused e ↦ err (storage_failed e)
    | stored (raw, version) ↦ (parse_root texts raw >>= λ p. ok (p.0, p.1, version))
  ]
