-- ===== src/Prelude/Lists.antt =====
-- Lists measured and cut by native numbers, under the library's names.
use Prim.Native.Nat.{ℕ, zero, suc, ◌+◌, ◌-◌, min}
use mathlib.Core.Path.{◌≡◌, refl, ap, subst}
use mathlib.Core.Logic.{◌⊎◌, inl, inr}
use mathlib.Core.List.{List, [], ◌∷◌, ◌++◌, map}
use mathlib.Core.Option.{Option, none, some}
use native.Mathlib.Omega.{arith}

module _ {ℓ} {A : Type ℓ} where
  abbrev pub length : List A → ℕ
  length [] = 0
  length (x ∷ xs) = suc (length xs)

  abbrev pub get_elem? : List A → ℕ → Option A
  get_elem? [] i = none
  get_elem? (x ∷ xs) zero = some x
  get_elem? (x ∷ xs) (suc i) = get_elem? xs i

  abbrev pub take : ℕ → List A → List A
  take zero xs = []
  take (suc n) [] = []
  take (suc n) (x ∷ xs) = x ∷ take n xs

  abbrev pub drop : ℕ → List A → List A
  drop zero xs = xs
  drop (suc n) [] = []
  drop (suc n) (x ∷ xs) = drop n xs

module _ {ℓ} {A : Type ℓ} where
  pub length-append : (xs ys : List A) → length (xs ++ ys) ≡ length xs + length ys
  length-append [] ys = omega arith
  length-append (x ∷ xs) ys = omega (arith, length-append xs ys)

  pub take-append-drop : (n : ℕ) (xs : List A) → take n xs ++ drop n xs ≡ xs
  take-append-drop zero xs = refl
  take-append-drop (suc n) [] = refl
  take-append-drop (suc n) (x ∷ xs) = rw (take-append-drop n xs)

  pub length-take : (n : ℕ) (xs : List A) → length (take n xs) ≡ min n (length xs)
  length-take zero xs = omega arith
  length-take (suc n) [] = omega arith
  length-take (suc n) (x ∷ xs) = omega (arith, length-take n xs)

  pub length-drop : (n : ℕ) (xs : List A) → length (drop n xs) ≡ length xs - n
  length-drop zero xs = omega arith
  length-drop (suc n) [] = omega arith
  length-drop (suc n) (x ∷ xs) = omega (arith, length-drop n xs)

  pub take-append_self : (xs ys : List A) → take (length xs) (xs ++ ys) ≡ xs
  take-append_self [] ys = refl
  take-append_self (x ∷ xs) ys = ap (◌∷◌ x) (take-append_self xs ys)

  pub drop-append_self : (xs ys : List A) → drop (length xs) (xs ++ ys) ≡ ys
  drop-append_self [] ys = refl
  drop-append_self (x ∷ xs) ys = drop-append_self xs ys

pub take-append_at {ℓ} :
    {A : Type ℓ} (n : ℕ) (xs ys : List A) → length xs ≡ n → take n (xs ++ ys) ≡ xs
take-append_at n xs ys h = rw (← h) (take-append_self xs ys)

-- n times one item.
abbrev pub repeat {ℓ} : {A : Type ℓ} → ℕ → A → List A
repeat zero x = []
repeat (suc n) x = x ∷ repeat n x

-- A predicate of every item, which computes to a tuple.
abbrev pub All {ℓ κ} : {A : Type ℓ} → (A → Type κ) → List A → Type κ
All P [] = Unit
All P (x ∷ xs) = P x × All P xs

-- Membership, with the place kept.
pub data Elem {ℓ} {A : Type ℓ} (x : A) : List A → Type ℓ where
  at_head : (y : A) (ys : List A) → y ≡ x → Elem x (y ∷ ys)
  in_tail : (y : A) (ys : List A) → Elem x ys → Elem x (y ∷ ys)

pub Elem-nil {ℓ} : {A : Type ℓ} (x : A) → ¬ (Elem x [])
Elem-nil x m = elim m [ ]

pub Elem-cons {ℓ} : {A : Type ℓ} {x y : A} {ys : List A} → Elem x (y ∷ ys) → (y ≡ x) ⊎ Elem x ys
Elem-cons (at_head y ys e) = inl e
Elem-cons (in_tail y ys m) = inr m

pub Elem-append_left {ℓ} : {A : Type ℓ} (x : A) (xs ys : List A) → Elem x xs → Elem x (xs ++ ys)
Elem-append_left x [] ys m = absurd (Elem-nil x m)
Elem-append_left x (y ∷ xs) ys m = elim (Elem-cons m) [
  | inl e ↦ at_head y (xs ++ ys) e
  | inr l ↦ in_tail y (xs ++ ys) (Elem-append_left x xs ys l)
]

pub Elem-append_right {ℓ} : {A : Type ℓ} (x : A) (xs ys : List A) → Elem x ys → Elem x (xs ++ ys)
Elem-append_right x [] ys m = m
Elem-append_right x (y ∷ xs) ys m = in_tail y (xs ++ ys) (Elem-append_right x xs ys m)

pub Elem-append {ℓ} :
    {A : Type ℓ} (x : A) (xs ys : List A) → Elem x (xs ++ ys) → Elem x xs ⊎ Elem x ys
Elem-append x [] ys m = inr m
Elem-append x (y ∷ xs) ys m = elim (Elem-cons m) [
  | inl e ↦ inl (at_head y xs e)
  | inr t ↦ elim (Elem-append x xs ys t) [ inl l ↦ inl (in_tail y xs l) | inr r ↦ inr r ]
]

pub Elem-map {ℓ κ} :
    {A : Type ℓ} {B : Type κ} (f : A → B) (y : B) (xs : List A)
    → Elem y (map f xs)
    → (x : A) × Elem x xs × (f x ≡ y)
Elem-map f y [] m = absurd (Elem-nil y m)
Elem-map f y (x ∷ xs) m = elim (Elem-cons m) [
  | inl e ↦ (x, at_head x xs refl, e)
  | inr t ↦ let (z, i, e) = Elem-map f y xs t in (z, in_tail x xs i, e)
]

pub map-Elem {ℓ κ} :
    {A : Type ℓ} {B : Type κ} (f : A → B) (x : A) (xs : List A) → Elem x xs → Elem (f x) (map f xs)
map-Elem f x [] m = absurd (Elem-nil x m)
map-Elem f x (y ∷ xs) m = elim (Elem-cons m) [
  | inl e ↦ at_head (f y) (map f xs) (ap f e)
  | inr t ↦ in_tail (f y) (map f xs) (map-Elem f x xs t)
]

pub Elem-All {ℓ κ} :
    {A : Type ℓ} (P : A → Type κ) (x : A) (xs : List A) → All P xs → Elem x xs → P x
Elem-All P x [] h m = absurd (Elem-nil x m)
Elem-All P x (y ∷ xs) h m = elim (Elem-cons m) [
  | inl e ↦ subst P e h.0
  | inr t ↦ Elem-All P x xs h.1 t
]

-- The first element of a list of which a predicate holds.
abbrev pub First {ℓ} : {A : Type ℓ} → (A → Type 0) → List A → A → Type ℓ
First {A = A} P xs x =
    (before : List A) × (after : List A) × (xs ≡ before ++ x ∷ after)
    × All (λ y. ¬ (P y)) before
    × P x

pub All-weaken {ℓ κ μ} :
    {A : Type ℓ} (P : A → Type κ) (Q : A → Type μ) (xs : List A)
    → ((x : A) → P x → Q x)
    → All P xs
    → All Q xs
All-weaken P Q [] f h = tt
All-weaken P Q (x ∷ xs) f h = (f x h.0, All-weaken P Q xs f h.1)

pub All-append {ℓ κ} :
    {A : Type ℓ} (P : A → Type κ) (xs ys : List A) → All P xs → All P ys → All P (xs ++ ys)
All-append P [] ys h k = k
All-append P (x ∷ xs) ys h k = (h.0, All-append P xs ys h.1 k)
