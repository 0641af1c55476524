-- ===== src/Prelude/Text.antt =====
-- Go strings and byte slices as lists of byte values.
use Prim.Native.Nat.{ℕ}
use Prim.Native.Char.{code}
use Prim.Native.String.{String}
use mathlib.Core.Path.{◌≡◌, refl}
use mathlib.Core.Logic.{◌↔◌}
use mathlib.Core.Bool.{Bool, true, false, ◌&&◌, ◌||◌}
use mathlib.Core.List.{List, [], ◌∷◌}
use native.Mathlib.Omega.{arith}
use bucketvcs.Prelude.Tests.{◌==◌, ltb, if◌then◌else◌}

abbrev pub Bytes : Type 0
Bytes = List ℕ

-- The bytes of an ASCII literal.
abbrev pub codes : String → Bytes
codes String.[] = []
codes (String.◌∷◌ c s) = code c ∷ codes s

-- `==` on strings, `bytes.Equal`
unfoldable pub eqb : Bytes → Bytes → Bool
eqb [] [] = true
eqb (x ∷ xs) (y ∷ ys) = x == y && eqb xs ys
eqb _ _ = false

pub eqb_iff : (a b : Bytes) → (eqb a b ≡ true) ↔ (a ≡ b)
unfolding eqb
eqb_iff (x ∷ a) (y ∷ b) = ground (arith, eqb_iff a b)
eqb_iff _ _ = ground arith

pub eqb_refl : (a : Bytes) → eqb a a ≡ true
eqb_refl a = (eqb_iff a a).1 refl

-- `<` on strings, `bytes.Compare(a, b) < 0`
unfoldable pub lex_lt : Bytes → Bytes → Bool
lex_lt [] [] = false
lex_lt [] (y ∷ ys) = true
lex_lt (x ∷ xs) [] = false
lex_lt (x ∷ xs) (y ∷ ys) = ltb x y || (x == y && lex_lt xs ys)

pub lex_lt-irreflexive : (a : Bytes) → lex_lt a a ≡ false
unfolding lex_lt
lex_lt-irreflexive [] = refl
lex_lt-irreflexive (x ∷ a) = ground (arith, lex_lt-irreflexive a)

pub lex_lt-transitive : (a b c : Bytes) → lex_lt a b ≡ true → lex_lt b c ≡ true → lex_lt a c ≡ true
unfolding lex_lt
lex_lt-transitive [] [] c h k = cc
lex_lt-transitive [] (y ∷ b) [] h k = cc
lex_lt-transitive [] (y ∷ b) (z ∷ c) h k = refl
lex_lt-transitive (x ∷ a) [] c h k = cc
lex_lt-transitive (x ∷ a) (y ∷ b) [] h k = cc
lex_lt-transitive (x ∷ a) (y ∷ b) (z ∷ c) h k = ground (arith, lex_lt-transitive a b c)

pub lex_lt-asymmetric : (a b : Bytes) → lex_lt a b ≡ true → lex_lt b a ≡ false
unfolding lex_lt
lex_lt-asymmetric [] [] h = cc
lex_lt-asymmetric [] (y ∷ b) h = refl
lex_lt-asymmetric (x ∷ a) [] h = cc
lex_lt-asymmetric (x ∷ a) (y ∷ b) h = ground (arith, lex_lt-asymmetric a b)

-- The order is total.
pub lex_lt-connected : (a b : Bytes) → lex_lt a b ≡ false → lex_lt b a ≡ false → a ≡ b
unfolding lex_lt
lex_lt-connected [] [] h k = refl
lex_lt-connected [] (y ∷ b) h k = cc
lex_lt-connected (x ∷ a) [] h k = cc
lex_lt-connected (x ∷ a) (y ∷ b) h k = ground (arith, lex_lt-connected a b)

-- `strings.HasPrefix(s, p)`
unfoldable pub has_prefix : Bytes → Bytes → Bool
has_prefix s [] = true
has_prefix [] (c ∷ p) = false
has_prefix (d ∷ s) (c ∷ p) = d == c && has_prefix s p

-- `strings.HasSuffix(s, p)`
unfoldable pub has_suffix : Bytes → Bytes → Bool
unfolding eqb
has_suffix [] p = eqb [] p
has_suffix (d ∷ s) p = eqb (d ∷ s) p || has_suffix s p

-- `strings.Contains(s, p)`
unfoldable pub contains : Bytes → Bytes → Bool
unfolding has_prefix
contains [] p = has_prefix [] p
contains (d ∷ s) p = has_prefix (d ∷ s) p || contains s p

abbrev cons_head : ℕ → List Bytes → List Bytes
cons_head c [] = (c ∷ []) ∷ []
cons_head c (s ∷ ss) = (c ∷ s) ∷ ss

-- `strings.Split(s, sep)` at a separator of one byte
unfoldable pub split : ℕ → Bytes → List Bytes
split sep [] = [] ∷ []
split sep (c ∷ s) = let rest = split sep s in if c == sep then [] ∷ rest else cons_head c rest

unfoldable pub is_empty {ℓ} : {A : Type ℓ} → List A → Bool
is_empty [] = true
is_empty _ = false
