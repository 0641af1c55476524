-- ===== src/Receivepack.antt =====
-- internal/gitproto/receivepack/parse.go: the parser of a push. The body of the request is the list of its
-- bytes; `git check-ref-format` is an argument, and so is what fails when the pack is stored.
pub mod Commands
pub mod Accepted
pub mod Line
pub mod RoundTrip
mod Tests
use bucketvcs.Prelude.{
  ℕ, zero, suc, ◌+◌, ◌-◌, ◌≡◌, Bool, true, false, not, ◌&&◌, ◌||◌, List, [], ◌∷◌, ◌++◌, Option,
  none, some, ltb, leb, ◌==◌, if◌then◌else◌, length, take, Bytes, codes, eqb, has_prefix,
  has_suffix, is_empty,
}
use bucketvcs.Prelude.Sort.{member}
use bucketvcs.Prelude.Utf8.{between, byte_at}
use bucketvcs.Pktline.{Token, packet, flush, delim, response_end, Error, token, eof, failed, read}
use bucketvcs.Repo.RefStore.{null_oid_hex}

abbrev pub max_update_commands : ℕ
max_update_commands = 4096

-- `updateCommand`
pub record UpdateCommand : Type 0 where
  pub old_oid : Bytes
  pub new_oid : Bytes
  pub refname : Bytes

-- `receivePackRequest`; `pack` is the content of the file at `PackPath`.
pub record Request : Type 0 where
  pub caps : List Bytes
  pub updates : List UpdateCommand
  pub pack : Option Bytes
  pub is_atomic : Bool

-- The step that fails after the commands: the read at the end of the body, whether it looks for bytes
-- behind a push that only deletes or copies the pack, or a step of storing the pack.
pub data IncomingError : Type 0 where
  read_body make_dir make_name create_file write_file close_file : IncomingError

pub data ParseError : Type 0 where
  unexpected_eof unexpected_token flush_only_probe extra_lf malformed_command : ParseError
  invalid_oid invalid_refname replace_ref noop_command too_many_commands : ParseError
  no_commands duplicate_refname trailing_bytes out_of_fuel : ParseError
  read_commands : Error → ParseError
  incoming : IncomingError → ParseError

pub data Result {ℓ} (A : Type ℓ) : Type ℓ where
  ok : A → Result A
  err : ParseError → Result A

module _ {ℓ κ} {A : Type ℓ} {B : Type κ} where
  infixl 5 ◌>>=◌
  abbrev pub ◌>>=◌ : Result A → (A → Result B) → Result B
  err reason >>= next = err reason
  ok value >>= next = next value

-- What stands before and after the first occurrence of a byte.
unfoldable pub cut : ℕ → Bytes → Option (Bytes × Bytes)
cut sep [] = none
cut sep (c ∷ s) =
    if c == sep
    then some ([], s)
    else elim (cut sep s) [ none ↦ none | some (a, b) ↦ some (c ∷ a, b) ]

-- How many bytes the white space has that a text begins with, or 0: `unicode.IsSpace` on UTF-8, which
-- is U+0009 to U+000D, the space, U+0085, U+00A0, U+1680, U+2000 to U+200A, U+2028, U+2029, U+202F, U+205F
-- and U+3000.
unfoldable pub space_size : Bytes → ℕ
space_size s =
    let a = byte_at 0 s in
    let b = byte_at 1 s in
    let c = byte_at 2 s in
    if a == 32 || between 9 13 a
    then 1
    else if a == 194 && (b == 133 || b == 160)
    then 2
    else if (a == 225 && b == 154 && c == 128)
        || (a == 226 && b == 128 && (between 128 138 c || between 168 169 c || c == 175))
        || (a == 226 && b == 129 && c == 159)
        || (a == 227 && b == 128 && c == 128)
    then 3
    else 0

-- `strings.Fields`, with the number of bytes to skip and the field that is being read. The first byte of
-- a white space occurs only where a rune begins, so that the text can be read byte by byte.
unfoldable pub fields_from : ℕ → Bytes → Bytes → List Bytes
fields_from skip field [] = if is_empty field then [] else field ∷ []
fields_from (suc skip) field (c ∷ s) = fields_from skip field s
fields_from zero field (c ∷ s) = elim (space_size (c ∷ s)) [
  | zero ↦ fields_from zero (field ++ c ∷ []) s
  | suc more ↦ let rest = fields_from more [] s in if is_empty field then rest else field ∷ rest
]

-- `strings.Fields`
unfoldable pub fields : Bytes → List Bytes
fields s = fields_from 0 [] s

abbrev lf : Bytes
lf = 10 ∷ []

-- One line feed at the end is taken off, and a second one is an error.
unfoldable pub strip_lf : Bytes → Result Bytes
strip_lf line =
    if has_suffix line lf
    then (let short = take (length line - 1) line in
        if has_suffix short lf then err extra_lf else ok short)
    else ok line

unfoldable pub hex_digits : Bytes → Bool
hex_digits [] = true
hex_digits (c ∷ s) = (leb b'0' c && leb c b'9' || leb b'a' c && leb c b'f') && hex_digits s

-- `validHexOID40`
unfoldable pub valid_hex_oid40 : Bytes → Bool
valid_hex_oid40 s = length s == 40 && hex_digits s

-- The capabilities behind the NUL of the first line, and the command before it.
unfoldable pub split_caps : Bool → List Bytes → Bytes → List Bytes × Bytes
split_caps false caps line = (caps, line)
split_caps true caps line = elim (cut 0 line) [
  | none ↦ (caps, line)
  | some (command, rest) ↦ (fields rest ++ caps, command)
]

unfoldable pub has_refname : Bytes → List UpdateCommand → Bool
has_refname name [] = false
has_refname name (u ∷ us) = eqb u.refname name || has_refname name us

-- Whether two commands have one refname.
unfoldable pub has_duplicates : List UpdateCommand → Bool
has_duplicates [] = false
has_duplicates (u ∷ us) = has_refname u.refname us || has_duplicates us

unfoldable pub all_delete : List UpdateCommand → Bool
all_delete [] = true
all_delete (u ∷ us) = eqb u.new_oid null_oid_hex && all_delete us

-- Whether the read fails that looks for bytes behind a push that only deletes.
unfoldable pub trailer_fails : Option IncomingError → Bool
trailer_fails (some read_body) = true
trailer_fails _ = false

-- From the end of the commands on: the rest of the body is the pack.
unfoldable pub store_pack :
    Option IncomingError → List Bytes → List UpdateCommand → Bytes → Result Request
store_pack fault caps updates rest =
    let atomic = member (codes "atomic") caps in
    if all_delete updates
    then (if not (is_empty rest)
        then err trailing_bytes
        else if trailer_fails fault
        then err (incoming read_body)
        else ok (record { caps = caps; updates = updates; pack = none; is_atomic = atomic }))
    else elim fault [
      | some e ↦ err (incoming e)
      | none ↦ ok (record {
        caps = caps;
        updates = updates;
        pack = if is_empty rest then none else some rest;
        is_atomic = atomic;
      })
    ]

unfoldable pub finish :
    Option IncomingError → List Bytes → List UpdateCommand → Bytes → Result Request
finish fault caps updates rest =
    if is_empty updates
    then err no_commands
    else if has_duplicates updates
    then err duplicate_refname
    else store_pack fault caps updates rest

module _ (check_ref_format : Bytes → Bool) where
  unfoldable pub check_command : Bytes → Bytes → Bytes → Result UpdateCommand
  check_command old neu ref =
      if not (valid_hex_oid40 old) || not (valid_hex_oid40 neu)
      then err invalid_oid
      else if not (check_ref_format ref)
      then err invalid_refname
      else if has_prefix ref (codes "refs/replace/")
      then err replace_ref
      else if eqb neu null_oid_hex && eqb old null_oid_hex
      then err noop_command
      else ok (record { old_oid = old; new_oid = neu; refname = ref })

  -- The three parts of a command; a refname may have spaces here.
  unfoldable pub parse_command : Bytes → Result UpdateCommand
  parse_command line = elim (cut 32 line) [
    | none ↦ err malformed_command
    | some (old, rest) ↦ elim (cut 32 rest) [
      | none ↦ err malformed_command
      | some (neu, ref) ↦ check_command old neu ref
    ]
  ]

  -- One line, of which the first has the capabilities.
  unfoldable pub parse_line :
      Bool → List Bytes → List UpdateCommand → Bytes → Result (List Bytes × List UpdateCommand)
  parse_line first caps updates payload = strip_lf payload >>= λ line.
      let (caps', command) = split_caps first caps line in
      parse_command command >>= λ u.
      (if ltb max_update_commands (length (updates ++ u ∷ []))
        then err too_many_commands
        else ok (caps', updates ++ u ∷ []))

  -- The loop over the tokens, on fuel.
  unfoldable pub parse_lines :
      ℕ
      → Bool
      → List Bytes
      → List UpdateCommand
      → Bytes
      → Result (List Bytes × List UpdateCommand × Bytes)
  parse_lines zero first caps updates s = err out_of_fuel
  parse_lines (suc fuel) first caps updates s = elim (read s) [
    | eof ↦ err unexpected_eof
    | failed e ↦ err (read_commands e)
    | token flush rest ↦
        if first && is_empty updates then err flush_only_probe else ok (caps, updates, rest)
    | token delim rest ↦ err unexpected_token
    | token response_end rest ↦ err unexpected_token
    | token (packet payload) rest ↦ elim (parse_line first caps updates payload) [
      | err e ↦ err e
      | ok (caps', updates') ↦ parse_lines fuel false caps' updates' rest
    ]
  ]

  -- `parseReceivePackRequest`
  unfoldable pub parse_receive_pack_request : Option IncomingError → Bytes → Result Request
  parse_receive_pack_request fault body = elim (parse_lines (suc (length body)) true [] [] body) [
    | err e ↦ err e
    | ok (caps, updates, rest) ↦ finish fault caps updates rest
  ]
