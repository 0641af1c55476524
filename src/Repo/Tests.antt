-- ===== src/Repo/Tests.antt =====
-- Theorems on the keys and on the manifest of a repository at concrete inputs.
use bucketvcs.Prelude.{
  arith, ◌≡◌, refl, true, false, [], ◌∷◌, ◌==◌, length, Bytes, codes, eqb, has_prefix, lex_lt,
  contains, is_empty,
}
use bucketvcs.Prelude.Assoc.{Assoc, lookup, insert}
use bucketvcs.Repo.Keys.{validate_id, matches_id_pattern, all_id_bytes, is_id_byte}
use bucketvcs.Repo.Keys.Isolation.{prefix_of-isolated}
use bucketvcs.Repo.Errors.{ok, err, reserved_key, unsupported_schema}
use bucketvcs.Repo.Manifest.{
  Json, num, other, Content, object, RootHeader, Texts, wrap_header_in_body, wrap_object,
  has_key_of, insert_all, encode_header, parse_root, parse_top, schema_gate, v_prefix, pick_keys,
  num_field, str_field,
}
use bucketvcs.Repo.Manifest.RoundTrip.{parse_root-wrap}

acme_valid : validate_id (codes "acme") ≡ true
unfolding validate_id matches_id_pattern all_id_bytes is_id_byte eqb contains
acme_valid = refl

app_valid : validate_id (codes "app") ≡ true
unfolding validate_id matches_id_pattern all_id_bytes is_id_byte eqb contains
app_valid = refl

dots_invalid :
    (validate_id (codes "a.b") ≡ false)
    × (validate_id (codes "..") ≡ false)
    × (validate_id [] ≡ false)
unfolding validate_id matches_id_pattern all_id_bytes is_id_byte
dots_invalid = (refl, refl, refl)

prefix_of-isolated_example :
    (codes "acme" ≡ codes "acme") × (codes "app" ≡ codes "app") × (codes "tx/" ≡ codes "tx/")
prefix_of-isolated_example =
    prefix_of-isolated (codes "acme") (codes "app") (codes "acme") (codes "app") (codes "tx/")
      (codes "tx/") acme_valid app_valid acme_valid app_valid refl

abbrev any_texts : Texts
any_texts = record {
  is_valid = λ s. has_prefix s (codes "v");
  is_greater = λ a b. lex_lt b a;
  is_time = λ s. length s == 20;
}

abbrev header : RootHeader
header = record {
  schema_version = 2;
  min_reader_version = codes "0.1.0";
  repo_id = codes "app";
  repo_format = record { object_format = codes "sha1"; compatibility = codes "sha1" ∷ [] };
  manifest_version = 4;
  latest_tx = codes "t4";
  created_at = codes "2026-01-01T12:00:00Z";
  updated_at = codes "2026-01-02T12:00:00Z";
}

abbrev top : Assoc Json
top = (codes "packs", other (codes "[]")) ∷ []

abbrev manifest : Content
unfolding insert_all encode_header
manifest = object (insert_all (encode_header header) top)

wrapped : wrap_header_in_body header (object top) ≡ ok manifest
unfolding wrap_header_in_body wrap_object has_key_of lookup eqb manifest
wrapped = refl

admitted : schema_gate any_texts header.schema_version header.min_reader_version ≡ ok tt
unfolding schema_gate is_empty has_prefix v_prefix lex_lt
admitted = refl

parse_root-wrap_example :
    (body : Assoc Json) × (parse_root any_texts manifest ≡ ok (header, body))
    × ((j : Bytes) → lookup j body ≡ lookup j top)
parse_root-wrap_example =
    parse_root-wrap any_texts header top manifest wrapped admitted (omega arith) refl refl

header_in_body_refused :
    wrap_header_in_body header (object ((codes "latest_tx", num 1) ∷ [])) ≡ err reserved_key
unfolding wrap_header_in_body wrap_object has_key_of lookup eqb
header_in_body_refused = refl

newer_schema_refused :
    parse_root any_texts (object ((codes "schema_version", num 3) ∷ [])) ≡ err unsupported_schema
unfolding parse_root parse_top num_field lookup pick_keys eqb insert str_field schema_gate
newer_schema_refused = refl
