-- ===== src/Prelude/Words.antt =====
-- Bitwise operations on machine words of `n` bits, as loops over the bits.
use bucketvcs.Prelude.{
  ℕ, zero, suc, ◌+◌, ◌*◌, ◌/◌, ◌%◌, ◌<◌, ◌≡◌, refl, sym, ap, ◌∙◌, Bool, false, not, ◌&&◌, ◌||◌,
  arith, ◌==◌, if◌then◌else◌,
}

-- Bit `i` of a word.
unfoldable pub bit : ℕ → ℕ → Bool
bit zero a = a % 2 == 1
bit (suc i) a = bit i (a / 2)

-- `a & b` and `a | b`
unfoldable pub and_word : ℕ → ℕ → ℕ → ℕ
and_word zero a b = 0
and_word (suc n) a b = (if a % 2 == 1 && b % 2 == 1 then 1 else 0) + 2 * and_word n (a / 2) (b / 2)

unfoldable pub or_word : ℕ → ℕ → ℕ → ℕ
or_word zero a b = 0
or_word (suc n) a b = (if a % 2 == 1 || b % 2 == 1 then 1 else 0) + 2 * or_word n (a / 2) (b / 2)

-- `a &^ b`
unfoldable pub and_not_word : ℕ → ℕ → ℕ → ℕ
and_not_word zero a b = 0
and_not_word (suc n) a b =
    (if a % 2 == 1 && not (b % 2 == 1) then 1 else 0) + 2 * and_not_word n (a / 2) (b / 2)

pub bit-and_word : (n i a b : ℕ) → i < n → bit i (and_word n a b) ≡ (bit i a && bit i b)
unfolding bit and_word
bit-and_word zero i a b h = absurd (omega arith)
bit-and_word (suc n) zero a b h = ground arith
bit-and_word (suc n) (suc i) a b h = ground (arith, bit-and_word n i (a / 2) (b / 2))

pub bit-or_word : (n i a b : ℕ) → i < n → bit i (or_word n a b) ≡ (bit i a || bit i b)
unfolding bit or_word
bit-or_word zero i a b h = absurd (omega arith)
bit-or_word (suc n) zero a b h = ground arith
bit-or_word (suc n) (suc i) a b h = ground (arith, bit-or_word n i (a / 2) (b / 2))

pub bit-zero : (i : ℕ) → bit i 0 ≡ false
unfolding bit
bit-zero zero = refl
bit-zero (suc i) = bit-zero i

-- A word with no bit in common with another: no bit of `a & b` is set.
pub and_word-eq-zero :
    (n a b : ℕ) → and_word n a b ≡ 0 → (i : ℕ) → i < n → (bit i a && bit i b) ≡ false
and_word-eq-zero n a b e i h = sym (bit-and_word n i a b h) ∙ (ap (bit i) e ∙ bit-zero i)

pub and_word-zero :
    (n a b : ℕ) → ((i : ℕ) → i < n → (bit i a && bit i b) ≡ false) → and_word n a b ≡ 0
unfolding and_word bit
and_word-zero zero a b h = refl
and_word-zero (suc n) a b h =
    ground
      (arith, h 0 (omega arith), and_word-zero n (a / 2) (b / 2) (λ i l. h (suc i) (omega arith)))
