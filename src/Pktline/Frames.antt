-- ===== src/Pktline/Frames.antt =====
-- What `Read` makes of the bytes that `Writer` sends, and of any other bytes.
use bucketvcs.Prelude.{
  ℕ, ◌+◌, ◌-◌, ◌*◌, ◌/◌, ◌%◌, ◌≤◌, ◌<◌, ◌≡◌, refl, ◌∙◌, ap, ◌⊎◌, inl, inr, Bool-cases, Option-cases,
  [], ◌∷◌, ◌++◌, append_assoc, some, arith, ltb, length, take-append_self, drop-append_self,
  take-append-drop, length-append, length-take, Bytes,
}
use bucketvcs.Pktline.{
  max_payload, Token, packet, flush, delim, response_end, token, hex_value, frame_length,
  read_payload_of, read_frame, read, hex_nibble, header, write_packet, write_token,
}

-- A digit that the writer makes is read back.
hex_value-hex_nibble : (n : ℕ) → n < 16 → hex_value (hex_nibble n) ≡ some n
unfolding hex_value hex_nibble
hex_value-hex_nibble n h = ground arith

-- The two length bytes as the digits of a number.
digit_sum :
    (n : ℕ)
    → n < 65536
    → (n / 4096 % 256 * 16 + n / 256 % 16) * 256 + (n / 16 % 16 * 16 + n % 16) ≡ n
digit_sum n h = omega arith

frame_length-header :
    (n : ℕ)
    → n < 65536
    → frame_length
        (hex_nibble (n / 4096 % 256))
        (hex_nibble (n / 256 % 16))
        (hex_nibble (n / 16 % 16))
        (hex_nibble (n % 16))
      ≡ some n
unfolding frame_length
frame_length-header n h =
    rw
      (
        hex_value-hex_nibble (n / 4096 % 256) (omega arith),
        hex_value-hex_nibble (n / 256 % 16) (omega arith),
        hex_value-hex_nibble (n / 16 % 16) (omega arith),
        hex_value-hex_nibble (n % 16) (omega arith),
        frame_length,
      )
      (ap some (digit_sum n h))

read-header : (n : ℕ) (s : Bytes) → n < 65536 → read (header n ++ s) ≡ read_frame n s
unfolding read header
read-header n s h = rw (frame_length-header n h, read)

read_frame-payload :
    (p rest : Bytes)
    → length p ≤ max_payload
    → read_frame (length p + 4) (p ++ rest) ≡ token (packet p) rest
unfolding read_frame read_payload_of
read_frame-payload p rest h =
    ground (arith, length-append p rest, take-append_self p rest, drop-append_self p rest)

-- A frame that `WritePacket` sent is read back whole, and what follows it stays in the stream.
pub read-write_packet :
    (p rest frame : Bytes)
    → write_packet p ≡ some frame
    → read (frame ++ rest) ≡ token (packet p) rest
unfolding write_packet
read-write_packet p rest frame h = elim (Bool-cases (ltb max_payload (length p))) [
  | inl long ↦ cc long
  | inr fits ↦
      let e : header (length p + 4) ++ p ≡ frame = cc (h, fits) in
      rw (← e) (
        ap read (append_assoc (header (length p + 4)) p rest)
        ∙ read-header (length p + 4) (p ++ rest) (ground arith)
        ∙ read_frame-payload p rest (ground arith))
]

read-special :
    (d : ℕ) (rest : Bytes)
    → d < b'3'
    → b'0' ≤ d
    → read (b'0' ∷ b'0' ∷ b'0' ∷ d ∷ rest) ≡ read_frame (d - b'0') rest
unfolding read frame_length hex_value
read-special d rest h k = ground arith

pub write_packet_total :
    (p : Bytes) → length p ≤ max_payload → (frame : Bytes) × (write_packet p ≡ some frame)
unfolding write_packet
write_packet_total p h = (header (length p + 4) ++ p, ground arith)

-- Every token that can be written is read back, with what follows it left in the stream.
pub read-write_token :
    (t : Token) (rest frame : Bytes)
    → write_token t ≡ some frame
    → read (frame ++ rest) ≡ token t rest
unfolding write_token read_frame
read-write_token (packet p) rest frame h = read-write_packet p rest frame h
read-write_token flush rest frame h = ground (arith, read-special b'0' rest)
read-write_token delim rest frame h = ground (arith, read-special b'1' rest)
read-write_token response_end rest frame h = ground (arith, read-special b'2' rest)

abbrev pub payload : Token → Bytes
payload (packet p) = p
payload _ = []

-- The number that the digits of a token's frame give.
abbrev pub announced : Token → ℕ
announced (packet p) = length p + 4
announced flush = 0
announced delim = 1
announced response_end = 2

-- The byte `c` is the hexadecimal digit of the value `v`: `0` is 48, `a` is 97, `A` is 65.
abbrev pub IsHex : ℕ → ℕ → Type 0
IsHex c v =
    ((c ≡ 48 + v) × (v < 10))
    ⊎ ((c ≡ 87 + v) × (10 ≤ v) × (v < 16))
    ⊎ ((c ≡ 55 + v) × (10 ≤ v) × (v < 16))

-- Four digits that write a number, the first digit counting most.
pub record IsNumeral (digits : Bytes) (n : ℕ) : Type 0 where
  pub a : ℕ
  pub b : ℕ
  pub c : ℕ
  pub d : ℕ
  pub four : digits ≡ a ∷ b ∷ c ∷ d ∷ []
  pub w : ℕ
  pub x : ℕ
  pub y : ℕ
  pub z : ℕ
  pub first : IsHex a w
  pub second : IsHex b x
  pub third : IsHex c y
  pub fourth : IsHex d z
  pub sum : ((w * 16 + x) * 16 + y) * 16 + z ≡ n

-- What a token was read from: four digits that announce it, the payload, the rest of the stream.
pub record IsFrame (s : Bytes) (t : Token) (rest : Bytes) : Type 0 where
  pub digits : Bytes
  pub splits : s ≡ digits ++ (payload t ++ rest)
  pub four : length digits ≡ 4
  pub numeral : IsNumeral digits (announced t)
  pub fits : length (payload t) ≤ max_payload

hex_value-IsHex : (c v : ℕ) → hex_value c ≡ some v → IsHex c v
unfolding hex_value
hex_value-IsHex c v h = ground arith

frame_length-IsNumeral :
    (a b c d n : ℕ) → frame_length a b c d ≡ some n → IsNumeral (a ∷ b ∷ c ∷ d ∷ []) n
unfolding frame_length
frame_length-IsNumeral a b c d n h = elim (Option-cases (hex_value a)) [
  | inl p ↦ absurd (ground arith)
  | inr (w, p) ↦ elim (Option-cases (hex_value b)) [
    | inl q ↦ absurd (ground arith)
    | inr (x, q) ↦ elim (Option-cases (hex_value c)) [
      | inl r ↦ absurd (ground arith)
      | inr (y, r) ↦ elim (Option-cases (hex_value d)) [
        | inl e ↦ absurd (ground arith)
        | inr (z, e) ↦
            let sum : (w * 16 + x) * 256 + (y * 16 + z) ≡ n = ground arith in
            record {
              a = a;
              b = b;
              c = c;
              d = d;
              four = refl;
              w = w;
              x = x;
              y = y;
              z = z;
              first = hex_value-IsHex a w p;
              second = hex_value-IsHex b x q;
              third = hex_value-IsHex c y r;
              fourth = hex_value-IsHex d z e;
              sum = omega arith;
            }
      ]
    ]
  ]
]

read_frame-announced :
    (n : ℕ) (s rest : Bytes) (t : Token) → read_frame n s ≡ token t rest → n ≡ announced t
unfolding read_frame read_payload_of
read_frame-announced n s rest (packet p) h = ground (arith, length-take (n - 4) s)
read_frame-announced n s rest flush h = ground arith
read_frame-announced n s rest delim h = ground arith
read_frame-announced n s rest response_end h = ground arith

read_frame-IsFrame :
    (digits s rest : Bytes) (n : ℕ) (t : Token)
    → length digits ≡ 4
    → IsNumeral digits n
    → read_frame n s ≡ token t rest
    → IsFrame (digits ++ s) t rest
unfolding read_frame read_payload_of
read_frame-IsFrame digits s rest n (packet p) f i h = record {
  digits = digits;
  splits = ground (arith, take-append-drop (n - 4) s);
  four = f;
  numeral = rw (← read_frame-announced n s rest (packet p) h) i;
  fits = ground (arith, length-take (n - 4) s);
}
read_frame-IsFrame digits s rest n t f i h = record {
  digits = digits;
  splits = ground arith;
  four = f;
  numeral = rw (← read_frame-announced n s rest t h) i;
  fits = omega arith;
}

-- Whatever the stream, a token that `Read` accepts was sent as four hexadecimal digits, of either
-- case, with its payload behind them. The digits give the length of payload and digits together, or
-- 0, 1 or 2 for the three special frames; the payload is within the limit, and the rest of the stream
-- is left as it was.
pub read-IsFrame : (s rest : Bytes) (t : Token) → read s ≡ token t rest → IsFrame s t rest
unfolding read
read-IsFrame (a ∷ b ∷ c ∷ d ∷ s) rest t h = elim (Option-cases (frame_length a b c d)) [
  | inl bad ↦ cc (h, bad)
  | inr (n, good) ↦
      read_frame-IsFrame (a ∷ b ∷ c ∷ d ∷ []) s rest n t refl
        (frame_length-IsNumeral a b c d n good) (rw (good, read) at h)
]
read-IsFrame _ rest t h = cc
