-- ===== src/Pktline.antt =====
-- internal/pktline: Git's pkt-line frames. A stream is the list of bytes that is left to read, a
-- writer returns the bytes that it sends.
pub mod Frames
pub mod Sideband
mod Tests
use bucketvcs.Prelude.{
  ℕ, zero, suc, ◌+◌, ◌-◌, ◌*◌, ◌/◌, ◌%◌, ◌^◌, Bool, ◌&&◌, List, [], ◌∷◌, ◌++◌, Option, none, some,
  ltb, leb, ◌==◌, if◌then◌else◌, length, take, drop, Bytes,
}

-- The largest payload of a frame, without the four bytes of its length.
abbrev pub max_payload : ℕ
max_payload = 65516

-- `Token`: `Type` with the payload where there is one.
pub data Token : Type 0 where
  packet : Bytes → Token
  flush delim response_end : Token

pub data Error : Type 0 where
  read_length malformed_hex invalid_length exceeds_max read_payload : Error

-- What one call of `Read` gives: the token with the stream behind it, the end, or an error.
pub data Outcome : Type 0 where
  token : Token → Bytes → Outcome
  eof : Outcome
  failed : Error → Outcome

-- `hex.Decode` of one digit.
unfoldable pub hex_value : ℕ → Option ℕ
hex_value c =
    if leb b'0' c && leb c b'9'
    then some (c - b'0')
    else if leb b'a' c && leb c b'f'
    then some (c - b'a' + 10)
    else if leb b'A' c && leb c b'F'
    then some (c - b'A' + 10)
    else none

-- `hex.Decode` of the four digits of a header. The two bytes it gives do not overlap in
-- `int(b[0])<<8 | int(b[1])`, which is then their sum.
unfoldable pub frame_length : ℕ → ℕ → ℕ → ℕ → Option ℕ
frame_length a b c d = elim (hex_value a) [
  | none ↦ none
  | some w ↦ elim (hex_value b) [
    | none ↦ none
    | some x ↦ elim (hex_value c) [
      | none ↦ none
      | some y ↦ elim (hex_value d) [
        | none ↦ none
        | some z ↦ some ((w * 16 + x) * 256 + (y * 16 + z))
      ]
    ]
  ]
]

-- `io.ReadFull` of a payload.
unfoldable pub read_payload_of : ℕ → Bytes → Outcome
read_payload_of n s =
    if ltb (length s) n then failed read_payload else token (packet (take n s)) (drop n s)

-- The switch on the length, and what follows it.
unfoldable pub read_frame : ℕ → Bytes → Outcome
read_frame n s =
    if n == 0
    then token flush s
    else if n == 1
    then token delim s
    else if n == 2
    then token response_end s
    else if ltb n 4
    then failed invalid_length
    else if ltb (max_payload + 4) n
    then failed exceeds_max
    else read_payload_of (n - 4) s

-- `(*Reader).Read`
unfoldable pub read : Bytes → Outcome
read [] = eof
read (a ∷ b ∷ c ∷ d ∷ s) = elim (frame_length a b c d) [
  | none ↦ failed malformed_hex
  | some n ↦ read_frame n s
]
read _ = failed read_length

unfoldable pub hex_nibble : ℕ → ℕ
hex_nibble n = if ltb n 10 then (b'0' + n) % 256 else (b'a' + (n - 10)) % 256

-- The four digits that `WritePacket` puts in `w.hdr`.
unfoldable pub header : ℕ → Bytes
header n =
    hex_nibble (n / 2 ^ 12 % 256)
    ∷ hex_nibble (n / 2 ^ 8 % 16)
    ∷ hex_nibble (n / 2 ^ 4 % 16)
    ∷ hex_nibble (n % 16)
    ∷ []

-- `(*Writer).WritePacket`: the bytes sent, or `none` for a payload that is too long.
unfoldable pub write_packet : Bytes → Option Bytes
write_packet p = if ltb max_payload (length p) then none else some (header (length p + 4) ++ p)

abbrev pub write_flush : Bytes
write_flush = b'0' ∷ b'0' ∷ b'0' ∷ b'0' ∷ []

abbrev pub write_delim : Bytes
write_delim = b'0' ∷ b'0' ∷ b'0' ∷ b'1' ∷ []

abbrev pub write_response_end : Bytes
write_response_end = b'0' ∷ b'0' ∷ b'0' ∷ b'2' ∷ []

-- The writer's method for a token.
unfoldable pub write_token : Token → Option Bytes
write_token (packet p) = write_packet p
write_token flush = some write_flush
write_token delim = some write_delim
write_token response_end = some write_response_end
