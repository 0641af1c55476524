-- ===== src/Receivepack/Line.antt =====
-- A line as a client writes it, and that internal/gitproto/receivepack/parse.go reads it back.
use bucketvcs.Prelude.{
  ℕ, ◌≤◌, ◌<◌, ◌≡◌, refl, ap, ◌∙◌, inl, inr, Bool, true, false, List, [], ◌∷◌, ◌++◌, none, some,
  arith, ltb, ◌==◌, length, Bytes, eqb, has_suffix, Bool-cases, Option-cases, append-nil,
}
use bucketvcs.Pktline.{max_payload}
use bucketvcs.Receivepack.{
  UpdateCommand, ok, cut, fields, strip_lf, hex_digits, valid_hex_oid40, split_caps, check_command,
  parse_command, parse_line, max_update_commands,
}
use bucketvcs.Receivepack.Commands.{IsCommand}

-- The line of a command.
abbrev pub line_of : UpdateCommand → Bytes
line_of u = u.old_oid ++ 32 ∷ (u.new_oid ++ 32 ∷ u.refname)

-- A refname without a NUL and with no line feed at its end, in a line that fits.
abbrev pub IsPlain : UpdateCommand → Type 0
IsPlain u =
    (cut 0 u.refname ≡ none)
    × (has_suffix u.refname (10 ∷ []) ≡ false)
    × (length (line_of u) ≤ max_payload)

cut-cons :
    (sep c : ℕ) (s : Bytes) → cut sep (c ∷ s) ≡ none → ((c == sep) ≡ false) × (cut sep s ≡ none)
unfolding cut
cut-cons sep c s h = elim (Bool-cases (c == sep)) [
  | inl t ↦ cc (rw t at h)
  | inr f ↦ elim (Option-cases (cut sep s)) [ inl n ↦ (f, n) | inr (p, e) ↦ cc (rw (f, e) at h) ]
]

cut-append : (sep : ℕ) (s t : Bytes) → cut sep s ≡ none → cut sep (s ++ sep ∷ t) ≡ some (s, t)
unfolding cut
cut-append sep [] t h = ground arith
cut-append sep (c ∷ s) t h = let (f, n) = cut-cons sep c s h in rw (f, cut-append sep s t n) refl

cut-append_none :
    (sep : ℕ) (s t : Bytes) → cut sep s ≡ none → cut sep t ≡ none → cut sep (s ++ t) ≡ none
unfolding cut
cut-append_none sep [] t h g = g
cut-append_none sep (c ∷ s) t h g =
    let (f, n) = cut-cons sep c s h in rw (f, cut-append_none sep s t n g) refl

hex_digits-cut : (sep : ℕ) (s : Bytes) → sep < 48 → hex_digits s ≡ true → cut sep s ≡ none
unfolding hex_digits cut
hex_digits-cut sep [] small h = refl
hex_digits-cut sep (c ∷ s) small h =
    let f : (c == sep) ≡ false = ground arith in
    rw (f, hex_digits-cut sep s small (ground arith)) refl

has_suffix-append :
    (s t : Bytes) (c : ℕ) → has_suffix (s ++ c ∷ t) (10 ∷ []) ≡ has_suffix (c ∷ t) (10 ∷ [])
unfolding has_suffix eqb
has_suffix-append [] t c = refl
has_suffix-append (a ∷ []) t c = ground arith
has_suffix-append (a ∷ b ∷ s) t c = ground (arith, has_suffix-append (b ∷ s) t c)

strip_lf-plain : (s : Bytes) → has_suffix s (10 ∷ []) ≡ false → strip_lf s ≡ ok s
unfolding strip_lf
strip_lf-plain s h = rw h refl

module _ (check_ref_format : Bytes → Bool) where
  module _ (u : UpdateCommand) (command : IsCommand check_ref_format u) (plain : IsPlain u) where
    check_command-ok : check_command check_ref_format u.old_oid u.new_oid u.refname ≡ ok u
    unfolding check_command
    check_command-ok =
        let (old, neu, format, no_replace, change) = command in
        rw (old, neu, format, no_replace, change) refl

    oid_cut : (sep : ℕ) (oid : Bytes) → sep < 48 → valid_hex_oid40 oid ≡ true → cut sep oid ≡ none
    unfolding valid_hex_oid40
    oid_cut sep oid small h = hex_digits-cut sep oid small (ground arith)

    parse_command-line_of : parse_command check_ref_format (line_of u) ≡ ok u
    unfolding parse_command
    parse_command-line_of =
        rw
          (
            parse_command,
            cut-append 32 u.old_oid (u.new_oid ++ 32 ∷ u.refname)
                (oid_cut 32 u.old_oid (omega arith) command.0),
            cut-append 32 u.new_oid u.refname (oid_cut 32 u.new_oid (omega arith) command.1),
          )
          check_command-ok

    line_of-plain : has_suffix (line_of u) (10 ∷ []) ≡ false
    unfolding has_suffix eqb
    line_of-plain =
        has_suffix-append u.old_oid (u.new_oid ++ 32 ∷ u.refname) 32
        ∙ has_suffix-append (32 ∷ u.new_oid) u.refname 32
        ∙ plain.1

    space_cut : (s : Bytes) → cut 0 s ≡ none → cut 0 (32 ∷ s) ≡ none
    unfolding cut
    space_cut s h = rw h refl

    line_of-cut : cut 0 (line_of u) ≡ none
    line_of-cut =
        cut-append_none 0 u.old_oid (32 ∷ (u.new_oid ++ 32 ∷ u.refname))
          (oid_cut 0 u.old_oid (omega arith) command.0)
          (space_cut (u.new_oid ++ 32 ∷ u.refname) (
            cut-append_none 0 u.new_oid (32 ∷ u.refname)
              (oid_cut 0 u.new_oid (omega arith) command.1) (space_cut u.refname plain.0)))

    pub parse_line-line_of :
        (caps : List Bytes) (us : List UpdateCommand)
        → length (us ++ u ∷ []) ≤ max_update_commands
        → parse_line check_ref_format false caps us (line_of u) ≡ ok (caps, us ++ u ∷ [])
    unfolding parse_line split_caps
    parse_line-line_of caps us short =
        let fits : ltb max_update_commands (length (us ++ u ∷ [])) ≡ false = ground arith in
        rw (strip_lf-plain (line_of u) line_of-plain, parse_command-line_of, fits) refl

    pub parse_line-first :
        (caps_text : Bytes)
        → has_suffix caps_text (10 ∷ []) ≡ false
        → parse_line check_ref_format true [] [] (line_of u ++ 0 ∷ caps_text)
          ≡ ok (fields caps_text, u ∷ [])
    unfolding parse_line split_caps has_suffix eqb
    parse_line-first caps_text h =
        let e : has_suffix (line_of u ++ 0 ∷ caps_text) (10 ∷ []) ≡ false =
          has_suffix-append (line_of u) caps_text 0 ∙ h in
        rw
          (
            strip_lf-plain (line_of u ++ 0 ∷ caps_text) e,
            split_caps,
            cut-append 0 (line_of u) caps_text line_of-cut,
            parse_command-line_of,
          )
          (ap (λ (caps : List Bytes). ok (caps, u ∷ [])) (append-nil (fields caps_text)))
