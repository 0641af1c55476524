-- ===== src/Receivepack/Accepted.antt =====
-- What holds of every push that internal/gitproto/receivepack/parse.go accepts.
use bucketvcs.Prelude.{
  ℕ, zero, suc, ◌+◌, ◌≤◌, ◌<◌, ◌≡◌, refl, ap, inl, inr, Bool, true, false, ◌&&◌, List, [], ◌∷◌,
  ◌++◌, Option, none, some, arith, length, Bytes, is_empty, eqb_iff, All, Bool-cases, Option-cases,
  length-append,
}
use bucketvcs.Pktline.{Token, packet, flush, delim, response_end, Outcome, token, eof, failed, read}
use bucketvcs.Pktline.Frames.{payload, read-IsFrame}
use bucketvcs.Receivepack.{
  UpdateCommand, Request, IncomingError, Result, ok, err, out_of_fuel, has_refname, has_duplicates,
  all_delete, trailer_fails, store_pack, finish, parse_line, parse_lines,
  parse_receive_pack_request, max_update_commands,
}
use bucketvcs.Receivepack.Commands.{Ends, IsCommand, AreCommands, LineEnds, parse_line-Ends}

-- No two commands have one refname.
abbrev pub DistinctNames : List UpdateCommand → Type 0
DistinctNames [] = Unit
DistinctNames (u ∷ us) =
    All (λ (v : UpdateCommand). ¬ (v.refname ≡ u.refname)) us × DistinctNames us

has_refname-All :
    (name : Bytes) (us : List UpdateCommand)
    → has_refname name us ≡ false
    → All (λ (v : UpdateCommand). ¬ (v.refname ≡ name)) us
unfolding has_refname
has_refname-All name [] h = tt
has_refname-All name (u ∷ us) h =
    ((λ e. absurd (cc ((eqb_iff u.refname name).1 e, h))), has_refname-All name us (ground arith))

has_duplicates-DistinctNames :
    (us : List UpdateCommand) → has_duplicates us ≡ false → DistinctNames us
unfolding has_duplicates
has_duplicates-DistinctNames [] h = tt
has_duplicates-DistinctNames (u ∷ us) h =
    (has_refname-All u.refname us (ground arith), has_duplicates-DistinctNames us (ground arith))

module _ (check_ref_format : Bytes → Bool) where
  read-shorter : (s rest : Bytes) (t : Token) → read s ≡ token t rest → length rest + 4 ≤ length s
  read-shorter s rest t h =
      let f = read-IsFrame s rest t h in
      omega (
        arith,
        f.four,
        ap length f.splits,
        length-append f.digits (payload t ++ rest),
        length-append (payload t) rest,
      )

  LinesEnd : Result (List Bytes × List UpdateCommand × Bytes) → Type 0
  LinesEnd r =
      Ends (λ (p : List Bytes × List UpdateCommand × Bytes). AreCommands check_ref_format p.1) r

  module _ (fuel : ℕ) (first : Bool) (caps : List Bytes) (us : List UpdateCommand) (s : Bytes)
      (good : AreCommands check_ref_format us)
      (rest_ends : (caps' : List Bytes) (us' : List UpdateCommand) (rest : Bytes)
        → length rest + 4 ≤ length s
        → AreCommands check_ref_format us'
        → LinesEnd (parse_lines check_ref_format fuel false caps' us' rest)) where
    line_ends :
        (line rest : Bytes) (r : Result (List Bytes × List UpdateCommand))
        → read s ≡ token (packet line) rest
        → parse_line check_ref_format first caps us line ≡ r
        → LineEnds check_ref_format r
        → LinesEnd (parse_lines check_ref_format (suc fuel) first caps us s)
    unfolding parse_lines LinesEnd LineEnds
    line_ends line rest (ok (caps', us')) e f g =
        rw (parse_lines, e, f) (rest_ends caps' us' rest (read-shorter s rest (packet line) e) g)
    line_ends line rest (err out_of_fuel) e f g = absurd g
    line_ends line rest (err x) e f g = rw (parse_lines, e, f) g

    step_ends :
        (o : Outcome)
        → read s ≡ o
        → LinesEnd (parse_lines check_ref_format (suc fuel) first caps us s)
    unfolding parse_lines LinesEnd
    step_ends eof e = rw (parse_lines, e) tt
    step_ends (failed x) e = rw (parse_lines, e) tt
    step_ends (token delim rest) e = rw (parse_lines, e) tt
    step_ends (token response_end rest) e = rw (parse_lines, e) tt
    step_ends (token flush rest) e = elim (Bool-cases (first && is_empty us)) [
      | inl t ↦ rw (parse_lines, e, t) tt
      | inr f ↦ rw (parse_lines, e, f) good
    ]
    step_ends (token (packet line) rest) e =
        line_ends line rest (parse_line check_ref_format first caps us line) e refl
          (parse_line-Ends check_ref_format first caps us line good)

  parse_lines-Ends :
      (fuel : ℕ) (first : Bool) (caps : List Bytes) (us : List UpdateCommand) (s : Bytes)
      → length s < fuel
      → AreCommands check_ref_format us
      → LinesEnd (parse_lines check_ref_format fuel first caps us s)
  parse_lines-Ends zero first caps us s h good = absurd (omega arith)
  parse_lines-Ends (suc fuel) first caps us s h good =
      step_ends fuel first caps us s good
        (λ caps' us' rest le good'. parse_lines-Ends fuel false caps' us' rest (omega arith) good')
        (read s) refl

  -- A pack comes with a command that is no deletion only.
  abbrev pub PackFits : List UpdateCommand → Option Bytes → Type 0
  PackFits us none = Unit
  PackFits us (some p) = (all_delete us ≡ false) × (is_empty p ≡ false)

  abbrev pub IsAccepted : Request → Type 0
  IsAccepted r =
      All (IsCommand check_ref_format) r.updates
      × (is_empty r.updates ≡ false)
      × (length r.updates ≤ max_update_commands)
      × DistinctNames r.updates
      × PackFits r.updates r.pack

  module _ (fault : Option IncomingError) (caps : List Bytes) (us : List UpdateCommand)
      (rest : Bytes) (good : AreCommands check_ref_format us) where
    store_pack-Ends :
        is_empty us ≡ false → DistinctNames us → Ends IsAccepted (store_pack fault caps us rest)
    unfolding store_pack
    store_pack-Ends some_us distinct = elim (Bool-cases (all_delete us)) [
      | inl t ↦ elim (Bool-cases (is_empty rest)) [
        | inl e ↦ elim (Bool-cases (trailer_fails fault)) [
          | inl x ↦ rw (t, e, x) tt
          | inr x ↦ rw (t, e, x) (good.0, some_us, good.1, distinct, tt)
        ]
        | inr e ↦ rw (t, e) tt
      ]
      | inr t ↦ elim (Option-cases fault) [
        | inr (x, e) ↦ rw (t, e) tt
        | inl e ↦ elim (Bool-cases (is_empty rest)) [
          | inl n ↦ rw (t, e, n) (good.0, some_us, good.1, distinct, tt)
          | inr n ↦ rw (t, e, n) (good.0, some_us, good.1, distinct, (t, n))
        ]
      ]
    ]

    finish-Ends : Ends IsAccepted (finish fault caps us rest)
    unfolding finish
    finish-Ends = elim (Bool-cases (is_empty us)) [
      | inl e ↦ rw e tt
      | inr e ↦ elim (Bool-cases (has_duplicates us)) [
        | inl d ↦ rw (e, d) tt
        | inr d ↦ rw (e, d) (store_pack-Ends e (has_duplicates-DistinctNames us d))
      ]
    ]

  -- Every body is parsed to an end, with an error of the code or with a request: that has between one
  -- and 4096 commands, each with two ids of 40 hex digits of which one is not zero and a refname that git
  -- admits outside refs/replace/, no two commands for one ref, and a pack only if not all commands
  -- are deletions.
  pub parse-IsAccepted :
      (fault : Option IncomingError) (body : Bytes)
      → Ends IsAccepted (parse_receive_pack_request check_ref_format fault body)
  unfolding parse_receive_pack_request LinesEnd
  parse-IsAccepted fault body =
      of_lines (parse_lines check_ref_format (suc (length body)) true [] [] body) refl
        (parse_lines-Ends (suc (length body)) true [] [] body (omega arith) (tt, omega arith))
    where
      of_lines :
          (r : Result (List Bytes × List UpdateCommand × Bytes))
          → parse_lines check_ref_format (suc (length body)) true [] [] body ≡ r
          → LinesEnd r
          → Ends IsAccepted (parse_receive_pack_request check_ref_format fault body)
      of_lines (ok (caps, us, rest)) e g =
          rw (parse_receive_pack_request, e) (finish-Ends fault caps us rest g)
      of_lines (err out_of_fuel) e g = absurd g
      of_lines (err x) e g = rw (parse_receive_pack_request, e) g
