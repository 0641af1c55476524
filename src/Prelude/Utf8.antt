-- ===== src/Prelude/Utf8.antt =====
-- The decoding of UTF-8 by Go's strings, `range` and packages unicode/utf8 and encoding/json.
use bucketvcs.Prelude.{
  ℕ, zero, suc, ◌≡◌, ◌<◌, refl, ap, ◌∙◌, arith, Bool, ◌&&◌, ◌||◌, [], ◌∷◌, ltb, leb, ◌==◌,
  if◌then◌else◌, Bytes,
}

unfoldable pub between : ℕ → ℕ → ℕ → Bool
between low high c = leb low c && leb c high

-- The byte with that index, or 0, which continues no rune.
unfoldable pub byte_at : ℕ → Bytes → ℕ
byte_at i [] = 0
byte_at zero (c ∷ s) = c
byte_at (suc i) (c ∷ s) = byte_at i s

-- Whether the bytes are a rune of two, of three or of four bytes.
unfoldable pub is_two : ℕ → ℕ → Bool
is_two a b = between 194 223 a && between 128 191 b

unfoldable pub is_three : ℕ → ℕ → ℕ → Bool
is_three a b c =
    ((a == 224 && between 160 191 b)
      || (a == 237 && between 128 159 b)
      || ((between 225 236 a || between 238 239 a) && between 128 191 b))
    && between 128 191 c

unfoldable pub is_four : ℕ → ℕ → ℕ → ℕ → Bool
is_four a b c d =
    ((a == 240 && between 144 191 b)
      || (a == 244 && between 128 143 b)
      || (between 241 243 a && between 128 191 b))
    && between 128 191 c
    && between 128 191 d

unfoldable pub size_of_rune : ℕ → ℕ → ℕ → ℕ → ℕ
size_of_rune a b c d =
    if ltb a 128
    then 1
    else if is_two a b
    then 2
    else if is_three a b c
    then 3
    else if is_four a b c d
    then 4
    else 0

-- How many bytes the first rune has: 0 where the first byte begins no valid rune, which Go reads as
-- U+FFFD of width 1.
unfoldable pub rune_size : Bytes → ℕ
rune_size s = size_of_rune (byte_at 0 s) (byte_at 1 s) (byte_at 2 s) (byte_at 3 s)

-- What encoding/json makes of the bytes of a string, in either direction: each byte that begins no valid
-- rune becomes U+FFFD. The first argument is the number of bytes that are the rest of a rune.
unfoldable pub utf8_from : ℕ → Bytes → Bytes
utf8_from skip [] = []
utf8_from (suc skip) (c ∷ s) = c ∷ utf8_from skip s
utf8_from zero (c ∷ s) = elim (rune_size (c ∷ s)) [
  | zero ↦ 239 ∷ 191 ∷ 189 ∷ utf8_from zero s
  | suc more ↦ c ∷ utf8_from more s
]

unfoldable pub to_utf8 : Bytes → Bytes
to_utf8 s = utf8_from 0 s

-- A text that is valid UTF-8.
abbrev pub IsUtf8 : Bytes → Type 0
IsUtf8 s = to_utf8 s ≡ s

size-one : (a b c d b' c' d' : ℕ) → size_of_rune a b c d ≡ 1 → size_of_rune a b' c' d' ≡ 1
unfolding size_of_rune
size-one a b c d b' c' d' h = ground arith

size-two : (a b c d c' d' : ℕ) → size_of_rune a b c d ≡ 2 → size_of_rune a b c' d' ≡ 2
unfolding size_of_rune
size-two a b c d c' d' h = ground arith

size-three : (a b c d d' : ℕ) → size_of_rune a b c d ≡ 3 → size_of_rune a b c d' ≡ 3
unfolding size_of_rune
size-three a b c d d' h = ground arith

byte_at-utf8_from : (i more : ℕ) (s : Bytes) → i < more → byte_at i (utf8_from more s) ≡ byte_at i s
unfolding byte_at utf8_from
byte_at-utf8_from i more [] h = refl
byte_at-utf8_from i zero (c ∷ s) h = absurd (omega arith)
byte_at-utf8_from zero (suc more) (c ∷ s) h = refl
byte_at-utf8_from (suc i) (suc more) (c ∷ s) h = byte_at-utf8_from i more s (omega arith)

-- The bytes of a rune stay when the text behind it changes.
rune_size-kept :
    (c : ℕ) (s : Bytes) (more : ℕ)
    → rune_size (c ∷ s) ≡ suc more
    → rune_size (c ∷ utf8_from more s) ≡ suc more
unfolding rune_size byte_at
rune_size-kept c s zero h = size-one c (byte_at 0 s) (byte_at 1 s) (byte_at 2 s) _ _ _ h
rune_size-kept c s (suc zero) h =
    rw (byte_at-utf8_from 0 1 s (omega arith))
      (size-two c (byte_at 0 s) (byte_at 1 s) (byte_at 2 s) _ _ h)
rune_size-kept c s (suc (suc zero)) h =
    rw (byte_at-utf8_from 0 2 s (omega arith), byte_at-utf8_from 1 2 s (omega arith))
      (size-three c (byte_at 0 s) (byte_at 1 s) (byte_at 2 s) _ h)
rune_size-kept c s (suc (suc (suc more))) h =
    rw
      (
        byte_at-utf8_from 0 (suc (suc (suc more))) s (omega arith),
        byte_at-utf8_from 1 (suc (suc (suc more))) s (omega arith),
        byte_at-utf8_from 2 (suc (suc (suc more))) s (omega arith),
      )
      h

utf8_from-replacement :
    (s : Bytes) → utf8_from zero (239 ∷ 191 ∷ 189 ∷ s) ≡ 239 ∷ 191 ∷ 189 ∷ utf8_from zero s
unfolding utf8_from rune_size byte_at size_of_rune is_two is_three between
utf8_from-replacement s = refl

utf8_from-rune :
    (c : ℕ) (s : Bytes) (more : ℕ)
    → rune_size (c ∷ s) ≡ suc more
    → utf8_from zero (c ∷ s) ≡ c ∷ utf8_from more s
unfolding utf8_from
utf8_from-rune c s more e = rw (utf8_from, e) refl

utf8_from-utf8_from : (skip : ℕ) (s : Bytes) → utf8_from skip (utf8_from skip s) ≡ utf8_from skip s
unfolding utf8_from
utf8_from-utf8_from skip [] = refl
utf8_from-utf8_from (suc skip) (c ∷ s) = ap (c ∷◌) (utf8_from-utf8_from skip s)
utf8_from-utf8_from zero (c ∷ s) =
    by_size (rune_size (c ∷ s)) refl (λ skip. utf8_from-utf8_from skip s)
  where
    by_size :
        (n : ℕ)
        → rune_size (c ∷ s) ≡ n
        → ((skip : ℕ) → utf8_from skip (utf8_from skip s) ≡ utf8_from skip s)
        → utf8_from zero (utf8_from zero (c ∷ s)) ≡ utf8_from zero (c ∷ s)
    by_size zero e again =
        rw (utf8_from, e)
          (utf8_from-replacement (utf8_from zero s) ∙ ap (λ x. 239 ∷ 191 ∷ 189 ∷ x) (again zero))
    by_size (suc more) e again =
        rw (utf8_from, e)
          (utf8_from-rune c (utf8_from more s) more (rune_size-kept c s more e)
            ∙ ap (c ∷◌) (again more))

-- What was made valid is left as it is.
pub to_utf8-IsUtf8 : (s : Bytes) → IsUtf8 (to_utf8 s)
unfolding to_utf8
to_utf8-IsUtf8 s = utf8_from-utf8_from 0 s
