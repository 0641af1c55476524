-- ===== src/Repo/Manifest/RoundTrip.antt =====
-- What `WrapHeaderInBody` of internal/repo/manifest writes, `ReadRoot` reads.
use bucketvcs.Prelude.{
  ℕ, ◌<◌, ◌≡◌, refl, sym, ◌∙◌, inl, inr, Bool, true, false, ◌||◌, List, [], ◌∷◌, Option, none, some,
  arith, if◌then◌else◌, Bytes, codes, eqb, Bool-cases, Option-cases, eqb_iff,
}
use bucketvcs.Prelude.Assoc.{Assoc, lookup, insert, remove, lookup-insert, lookup-remove}
use bucketvcs.Repo.Errors.{ok}
use bucketvcs.Repo.Manifest.{
  Json, num, str, format_value, Content, object, RootHeader, header_keys, Texts, int_bound,
  uint64_bound, schema_gate, num_field, str_field, time_field, format_field, decode_header,
  encode_header, pick_keys, pick_header, remove_keys, insert_all, has_key_of, wrap_object,
  wrap_header_in_body, parse_top, parse_root,
}

unfoldable pub member : Bytes → List Bytes → Bool
member k [] = false
member k (j ∷ ks) = eqb j k || member k ks

abbrev or_else {ℓ} : {A : Type ℓ} → Option A → Option A → Option A
or_else none y = y
or_else (some x) y = some x

lookup-pick_keys :
    (ks : List Bytes) (j : Bytes) (top out : Assoc Json)
    → lookup j (pick_keys ks top out)
      ≡ (if member j ks then or_else (lookup j top) (lookup j out) else lookup j out)
unfolding pick_keys member
lookup-pick_keys [] j top out = refl
lookup-pick_keys (k ∷ ks) j top out = elim (Option-cases (lookup k top)) [
  | inl absent ↦
      rw (absent, pick_keys) (lookup-pick_keys ks j top out ∙ ground (arith, eqb_iff k j))
  | inr (v, found) ↦
      rw (found, pick_keys)
        (lookup-pick_keys ks j top (insert k v out)
          ∙ ground (arith, eqb_iff k j, lookup-insert k j v out))
]

lookup-remove_keys :
    (ks : List Bytes) (j : Bytes) (top : Assoc Json)
    → lookup j (remove_keys ks top) ≡ (if member j ks then none else lookup j top)
unfolding remove_keys member
lookup-remove_keys [] j top = refl
lookup-remove_keys (k ∷ ks) j top =
    lookup-remove_keys ks j (remove k top) ∙ ground (arith, lookup-remove k j top)

-- In a header the keys are distinct, so each is found.
lookup-insert_all :
    (es : Assoc Json) (j : Bytes) (top : Assoc Json)
    → lookup j es ≡ none
    → lookup j (insert_all es top) ≡ lookup j top
unfolding insert_all lookup
lookup-insert_all [] j top h = refl
lookup-insert_all ((k, v) ∷ es) j top h =
    lookup-insert_all es j (insert k v top) (ground arith) ∙ ground (arith, lookup-insert k j v top)

free_none :
    (ks : List Bytes) (j : Bytes) (top : Assoc Json)
    → member j ks ≡ true
    → has_key_of ks top ≡ false
    → lookup j top ≡ none
unfolding member has_key_of
free_none [] j top m f = cc
free_none (k ∷ ks) j top m f = ground (arith, eqb_iff k j, free_none ks j top)

header_keys_only :
    (h : RootHeader) (j : Bytes) → member j header_keys ≡ false → lookup j (encode_header h) ≡ none
unfolding member encode_header lookup
header_keys_only h j m = ground arith

module _ (h : RootHeader) (top : Assoc Json) where
  abbrev pub whole : Assoc Json
  whole = insert_all (encode_header h) top

  whole-schema_version :
      lookup (codes "schema_version") (pick_header whole) ≡ some (num h.schema_version)
  unfolding insert_all encode_header eqb member
  whole-schema_version = rw lookup-pick_keys (simp lookup-insert)

  whole-min_reader_version :
      lookup (codes "min_reader_version") (pick_header whole) ≡ some (str h.min_reader_version)
  unfolding insert_all encode_header eqb member
  whole-min_reader_version = rw lookup-pick_keys (simp lookup-insert)

  whole-repo_id : lookup (codes "repo_id") (pick_header whole) ≡ some (str h.repo_id)
  unfolding insert_all encode_header eqb member
  whole-repo_id = rw lookup-pick_keys (simp lookup-insert)

  whole-repo_format :
      lookup (codes "repo_format") (pick_header whole)
      ≡ some (format_value h.repo_format.object_format h.repo_format.compatibility)
  unfolding insert_all encode_header eqb member
  whole-repo_format = rw lookup-pick_keys (simp lookup-insert)

  whole-manifest_version :
      lookup (codes "manifest_version") (pick_header whole) ≡ some (num h.manifest_version)
  unfolding insert_all encode_header eqb member
  whole-manifest_version = rw lookup-pick_keys (simp lookup-insert)

  whole-latest_tx : lookup (codes "latest_tx") (pick_header whole) ≡ some (str h.latest_tx)
  unfolding insert_all encode_header eqb member
  whole-latest_tx = rw lookup-pick_keys (simp lookup-insert)

  whole-created_at : lookup (codes "created_at") (pick_header whole) ≡ some (str h.created_at)
  unfolding insert_all encode_header eqb member
  whole-created_at = rw lookup-pick_keys (simp lookup-insert)

  whole-updated_at : lookup (codes "updated_at") (pick_header whole) ≡ some (str h.updated_at)
  unfolding insert_all encode_header eqb member
  whole-updated_at = rw lookup-pick_keys (simp lookup-insert)

  decode-encode :
      (texts : Texts)
      → h.schema_version < int_bound
      → h.manifest_version < uint64_bound
      → texts.is_time h.created_at ≡ true
      → texts.is_time h.updated_at ≡ true
      → decode_header texts (pick_header whole) ≡ ok h
  unfolding decode_header num_field str_field time_field format_field
  decode-encode texts small fits c u = ground (
    arith, whole-schema_version, whole-min_reader_version, whole-repo_id, whole-repo_format,
    whole-manifest_version, whole-latest_tx, whole-created_at, whole-updated_at,
  )

  whole-body :
      (j : Bytes)
      → has_key_of header_keys top ≡ false
      → lookup j (remove_keys header_keys whole) ≡ lookup j top
  unfolding has_key_of
  whole-body j free =
      lookup-remove_keys header_keys j whole ∙ elim (Bool-cases (member j header_keys)) [
        | inl reserved ↦ rw reserved (sym (free_none header_keys j top reserved free))
        | inr plain ↦
            rw plain (lookup-insert_all (encode_header h) j top (header_keys_only h j plain))
      ]

-- A version that the gate admits is an `int`.
schema_gate-small :
    (texts : Texts) (v : ℕ) (reader : Bytes) → schema_gate texts v reader ≡ ok tt → v < int_bound
unfolding schema_gate
schema_gate-small texts v reader g = ground arith

-- The manifest that `WrapHeaderInBody` makes of a header and a body passes through `ReadRoot`'s gate
-- and parser if the schema gate admits the header, its manifest version is a uint64, and its times are
-- well formed: the header comes back, and a body with the same value at every key.
pub parse_root-wrap :
    (texts : Texts) (h : RootHeader) (top : Assoc Json) (c : Content)
    → wrap_header_in_body h (object top) ≡ ok c
    → schema_gate texts h.schema_version h.min_reader_version ≡ ok tt
    → h.manifest_version < uint64_bound
    → texts.is_time h.created_at ≡ true
    → texts.is_time h.updated_at ≡ true
    → (body : Assoc Json) × (parse_root texts c ≡ ok (h, body))
      × ((j : Bytes) → lookup j body ≡ lookup j top)
unfolding wrap_header_in_body wrap_object parse_root parse_top num_field str_field
parse_root-wrap texts h top c w g fits ca ua = elim (Bool-cases (has_key_of header_keys top)) [
  | inl taken ↦ cc (taken, w)
  | inr free ↦
      let e : object (whole h top) ≡ c = ground arith in
      let small = schema_gate-small texts h.schema_version h.min_reader_version g in
      (
        remove_keys header_keys (whole h top),
        rw (← e) (
            ground (
              arith,
              whole-schema_version h top,
              whole-min_reader_version h top,
              small,
              decode-encode h top texts small fits ca ua,
            )),
        λ j. whole-body h top j free,
      )
]
