-- ===== src/Receivepack/Commands.antt =====
-- How internal/gitproto/receivepack/parse.go ends on one line of a push.
use bucketvcs.Prelude.{
  ◌-◌, ◌≤◌, ◌≡◌, inl, inr, Bool, true, false, not, ◌&&◌, ◌||◌, List, [], ◌∷◌, ◌++◌, arith, ltb,
  if◌then◌else◌, length, take, Bytes, codes, eqb, has_prefix, has_suffix, All, All-append,
  Bool-cases, Option-cases,
}
use bucketvcs.Repo.RefStore.{null_oid_hex}
use bucketvcs.Receivepack.{
  UpdateCommand, ParseError, Result, ok, err, out_of_fuel, ◌>>=◌, cut, strip_lf, valid_hex_oid40,
  split_caps, check_command, parse_command, parse_line, max_update_commands, too_many_commands,
}

-- An error that the code has.
abbrev pub IsKnown : ParseError → Type 0
IsKnown out_of_fuel = ⊥
IsKnown _ = Unit

abbrev pub Ends {ℓ} : {A : Type ℓ} → (A → Type 0) → Result A → Type 0
Ends P (ok a) = P a
Ends P (err e) = IsKnown e

module _ {ℓ κ} {A : Type ℓ} {B : Type κ} (good : A → Type 0) (fine : B → Type 0)
    (next : A → Result B) (ends : (x : A) → good x → Ends fine (next x)) where
  Ends-bind : (r : Result A) → Ends good r → Ends fine (r >>= next)
  Ends-bind (ok x) h = ends x h
  Ends-bind (err out_of_fuel) h = h
  Ends-bind (err _) h = tt

module _ (check_ref_format : Bytes → Bool) where
  -- Ids of 40 hex digits that are not both zeros, and a refname that git admits and is no replacement.
  abbrev pub IsCommand : UpdateCommand → Type 0
  IsCommand u =
      (valid_hex_oid40 u.old_oid ≡ true)
      × (valid_hex_oid40 u.new_oid ≡ true)
      × (check_ref_format u.refname ≡ true)
      × (has_prefix u.refname (codes "refs/replace/") ≡ false)
      × (eqb u.new_oid null_oid_hex && eqb u.old_oid null_oid_hex ≡ false)

  abbrev pub AreCommands : List UpdateCommand → Type 0
  AreCommands us = All IsCommand us × (length us ≤ max_update_commands)

  check_command-Ends :
      (old neu ref : Bytes) → Ends IsCommand (check_command check_ref_format old neu ref)
  unfolding check_command
  check_command-Ends old neu ref =
      elim (Bool-cases (not (valid_hex_oid40 old) || not (valid_hex_oid40 neu))) [
        | inl a ↦ rw a tt
        | inr a ↦ elim (Bool-cases (check_ref_format ref)) [
          | inr b ↦ rw (a, b) tt
          | inl b ↦ elim (Bool-cases (has_prefix ref (codes "refs/replace/"))) [
            | inl c ↦ rw (a, b, c) tt
            | inr c ↦ elim (Bool-cases (eqb neu null_oid_hex && eqb old null_oid_hex)) [
              | inl d ↦ rw (a, b, c, d) tt
              | inr d ↦ rw (a, b, c, d) (ground arith, ground arith, b, c, d)
            ]
          ]
        ]
      ]

  parse_command-Ends : (line : Bytes) → Ends IsCommand (parse_command check_ref_format line)
  unfolding parse_command
  parse_command-Ends line = elim (Option-cases (cut 32 line)) [
    | inl n ↦ rw (parse_command, n) tt
    | inr ((old, rest), h) ↦ elim (Option-cases (cut 32 rest)) [
      | inl n ↦ rw (parse_command, h, n) tt
      | inr ((neu, ref), g) ↦ rw (parse_command, h, g) (check_command-Ends old neu ref)
    ]
  ]

  strip_lf-known : (s : Bytes) → Ends (λ (t : Bytes). Unit {0}) (strip_lf s)
  unfolding strip_lf
  strip_lf-known s = elim (Bool-cases (has_suffix s (10 ∷ []))) [
    | inr f ↦ rw f tt
    | inl t ↦ elim (Bool-cases (has_suffix (take (length s - 1) s) (10 ∷ []))) [
      | inl u ↦ rw (t, u) tt
      | inr u ↦ rw (t, u) tt
    ]
  ]

  unfoldable pub LineEnds : Result (List Bytes × List UpdateCommand) → Type 0
  LineEnds r = Ends (λ (p : List Bytes × List UpdateCommand). AreCommands p.1) r

  add-Ends :
      (caps : List Bytes) (us : List UpdateCommand) (u : UpdateCommand)
      → AreCommands us
      → IsCommand u
      → LineEnds (
          if ltb max_update_commands (length (us ++ u ∷ []))
          then err too_many_commands
          else ok (caps, us ++ u ∷ []))
  unfolding LineEnds
  add-Ends caps us u (good, short) c =
      elim (Bool-cases (ltb max_update_commands (length (us ++ u ∷ [])))) [
        | inl t ↦ rw t tt
        | inr f ↦ rw f (All-append IsCommand us (u ∷ []) good (c, tt), ground arith)
      ]

  pub parse_line-Ends :
      (first : Bool) (caps : List Bytes) (us : List UpdateCommand) (s : Bytes)
      → AreCommands us
      → LineEnds (parse_line check_ref_format first caps us s)
  unfolding parse_line LineEnds
  parse_line-Ends first caps us s good =
      let ok_line = λ (p : List Bytes × List UpdateCommand). AreCommands p.1 in
      Ends-bind (λ (t : Bytes). Unit {0}) ok_line _
        (λ line known.
          let (caps', command) = split_caps first caps line in
          Ends-bind IsCommand ok_line _ (λ u c. add-Ends caps' us u good c)
            (parse_command check_ref_format command) (parse_command-Ends command))
        (strip_lf s) (strip_lf-known s)
