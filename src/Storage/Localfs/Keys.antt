-- ===== src/Storage/Localfs/Keys.antt =====
-- internal/storage/localfs/keys.go: which keys and list prefixes localfs takes.
use bucketvcs.Prelude.{
  ℕ, ◌≤◌, ◌≡◌, ◌≢◌, refl, Bool, false, not, ◌&&◌, ◌||◌, List, [], ◌∷◌, Option, none, some, arith,
  ltb, ◌==◌, if◌then◌else◌, length, Bytes, codes, eqb, has_prefix, has_suffix, contains, split,
  is_empty, eqb_iff, All,
}

abbrev pub max_key_bytes : ℕ
max_key_bytes = 1024

-- The reasons that `errKey` puts into the message.
pub data KeyReason : Type 0 where
  empty longer leading_slash trailing_slash backslash null_byte : KeyReason
  forbidden_segment reserved_dot reserved_meta : KeyReason

unfoldable pub is_forbidden : Bytes → Bool
is_forbidden seg = eqb seg (codes "..") || eqb seg (codes ".") || eqb seg []

-- The body of the loop over the segments.
unfoldable pub validate_segment : Bytes → Option KeyReason
validate_segment seg =
    if is_forbidden seg
    then some forbidden_segment
    else if has_prefix seg (codes ".")
    then some reserved_dot
    else if has_suffix seg (codes ".meta")
    then some reserved_meta
    else none

unfoldable pub validate_segments : List Bytes → Option KeyReason
validate_segments [] = none
validate_segments (seg ∷ segs) =
    let rest = validate_segments segs in
    elim (validate_segment seg) [ some e ↦ some e | none ↦ rest ]

-- `validateKey`: `none` is a nil error.
unfoldable pub validate_key : Bytes → Option KeyReason
validate_key key =
    if is_empty key
    then some empty
    else if ltb max_key_bytes (length key)
    then some longer
    else if has_prefix key (codes "/")
    then some leading_slash
    else if has_suffix key (codes "/")
    then some trailing_slash
    else if contains key (codes "\\")
    then some backslash
    else if contains key (0 ∷ [])
    then some null_byte
    else validate_segments (split b'/' key)

-- `strings.TrimSuffix(prefix, "/")`
unfoldable pub trim_slash : Bytes → Bytes
trim_slash [] = []
trim_slash (c ∷ s) = if is_empty s && c == b'/' then [] else c ∷ trim_slash s

-- The loop of `validatePrefix`; the flag is `strings.HasSuffix(prefix, "/")`.
unfoldable pub validate_prefix_segments : Bool → List Bytes → Option KeyReason
validate_prefix_segments closed [] = none
validate_prefix_segments closed (seg ∷ segs) =
    let rest = validate_prefix_segments closed segs in
    if is_forbidden seg
    then some forbidden_segment
    else if is_empty segs && not closed
    then rest
    else if has_prefix seg (codes ".")
    then some reserved_dot
    else if has_suffix seg (codes ".meta")
    then some reserved_meta
    else rest

-- `validatePrefix`
unfoldable pub validate_prefix : Bytes → Option KeyReason
validate_prefix prefix =
    if is_empty prefix
    then none
    else if ltb max_key_bytes (length prefix)
    then some longer
    else if has_prefix prefix (codes "/")
    then some leading_slash
    else if contains prefix (codes "\\")
    then some backslash
    else if contains prefix (0 ∷ [])
    then some null_byte
    else if is_empty (trim_slash prefix)
    then none
    else validate_prefix_segments (has_suffix prefix (codes "/")) (split b'/' (trim_slash prefix))

-- What an accepted segment is not.
pub record IsPlainSegment (seg : Bytes) : Type 0 where
  pub not_parent : seg ≢ codes ".."
  pub not_self : seg ≢ codes "."
  pub not_empty : seg ≢ []
  pub no_dot : has_prefix seg (codes ".") ≡ false
  pub no_meta : has_suffix seg (codes ".meta") ≡ false

validate_segment-IsPlainSegment : (seg : Bytes) → validate_segment seg ≡ none → IsPlainSegment seg
unfolding validate_segment is_forbidden
validate_segment-IsPlainSegment seg h = record {
  not_parent = ground (arith, eqb_iff seg (codes ".."));
  not_self = ground (arith, eqb_iff seg (codes "."));
  not_empty = ground (arith, eqb_iff seg []);
  no_dot = ground arith;
  no_meta = ground arith;
}

pub validate_segments-All :
    (segs : List Bytes) → validate_segments segs ≡ none → All IsPlainSegment segs
unfolding validate_segments
validate_segments-All [] h = tt
validate_segments-All (seg ∷ segs) h =
    (validate_segment-IsPlainSegment seg (ground arith), validate_segments-All segs (ground arith))

-- A key that localfs accepts is not empty, at most 1024 bytes long, and each of its segments is a
-- plain file name: not empty, not `.` or `..`, with no leading dot and no `.meta` at its end.
pub validate_key-plain :
    (key : Bytes)
    → validate_key key ≡ none
    → (key ≢ []) × (length key ≤ max_key_bytes) × All IsPlainSegment (split b'/' key)
unfolding validate_key is_empty
validate_key-plain [] h = cc
validate_key-plain (c ∷ key) h =
    (cc, ground arith, validate_segments-All (split b'/' (c ∷ key)) (ground arith))

trim_slash_none : (s : Bytes) → has_suffix s (codes "/") ≡ false → trim_slash s ≡ s
unfolding trim_slash has_suffix is_empty eqb
trim_slash_none [] h = refl
trim_slash_none (c ∷ []) h = ground arith
trim_slash_none (c ∷ d ∷ s) h = ground (arith, trim_slash_none (d ∷ s))

segments_as_prefix :
    (closed : Bool) (segs : List Bytes)
    → validate_segments segs ≡ none
    → validate_prefix_segments closed segs ≡ none
unfolding validate_segments validate_prefix_segments validate_segment
segments_as_prefix closed [] h = refl
segments_as_prefix closed (seg ∷ segs) h = ground (arith, segments_as_prefix closed segs)

-- Every key that localfs accepts is accepted as the prefix of a listing too.
validate_prefix-validate_key : (key : Bytes) → validate_key key ≡ none → validate_prefix key ≡ none
unfolding validate_key validate_prefix
validate_prefix-validate_key key h =
    ground
      (arith, trim_slash_none key, segments_as_prefix (has_suffix key (codes "/")) (split b'/' key))
