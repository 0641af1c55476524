-- ===== src/Receivepack/RoundTrip.antt =====
-- A push as a client writes it, and that internal/gitproto/receivepack/parse.go reads it back.
use bucketvcs.Prelude.{
  ℕ, zero, suc, ◌+◌, ◌≤◌, ◌<◌, ◌≡◌, refl, sym, ap, ◌∙◌, ◌⊎◌, inl, inr, Bool, true, false, List, [],
  ◌∷◌, ◌++◌, none, some, arith, if◌then◌else◌, length, Bytes, codes, has_suffix, is_empty, All,
  Bool-cases, length-append, append_assoc, append-nil,
}
use bucketvcs.Prelude.Sort.{member}
use bucketvcs.Pktline.{token, packet, flush, read, write_packet, write_flush, header, max_payload}
use bucketvcs.Pktline.Frames.{read-write_packet, read-write_token}
use bucketvcs.Receivepack.{
  UpdateCommand, ok, fields, has_duplicates, all_delete, trailer_fails, store_pack, finish,
  parse_lines, parse_receive_pack_request, max_update_commands,
}
use bucketvcs.Receivepack.Commands.{IsCommand}
use bucketvcs.Receivepack.Line.{line_of, IsPlain, parse_line-line_of, parse_line-first}

abbrev pub frame_of : Bytes → Bytes
frame_of p = header (length p + 4) ++ p

unfoldable pub frames_of : List UpdateCommand → Bytes
frames_of [] = []
frames_of (u ∷ us) = frame_of (line_of u) ++ frames_of us

-- A push: the first command with the capabilities, the others, a flush and the pack.
unfoldable pub push_of : Bytes → UpdateCommand → List UpdateCommand → Bytes → Bytes
push_of caps_text u us pack =
    frame_of (line_of u ++ 0 ∷ caps_text) ++ (frames_of us ++ (write_flush ++ pack))

module _ (check_ref_format : Bytes → Bool) where
  read-frame_of :
      (p rest : Bytes) → length p ≤ max_payload → read (frame_of p ++ rest) ≡ token (packet p) rest
  unfolding write_packet
  read-frame_of p rest h = read-write_packet p rest (frame_of p) (ground arith)

  read-flush : (rest : Bytes) → read (write_flush ++ rest) ≡ token flush rest
  unfolding bucketvcs.Pktline.write_token
  read-flush rest = read-write_token flush rest write_flush refl

  parse_lines-frames_of :
      (fuel : ℕ) (caps : List Bytes) (done us : List UpdateCommand) (pack : Bytes)
      → length us < fuel
      → length (done ++ us) ≤ max_update_commands
      → All (IsCommand check_ref_format) us
      → All IsPlain us
      → parse_lines check_ref_format fuel false caps done (frames_of us ++ (write_flush ++ pack))
        ≡ ok (caps, done ++ us, pack)
  unfolding parse_lines frames_of
  parse_lines-frames_of zero caps done us pack h short good plain = absurd (omega arith)
  parse_lines-frames_of (suc fuel) caps done [] pack h short good plain =
      rw (parse_lines, read-flush pack) (ap (λ us. ok (caps, us, pack)) (sym (append-nil done)))
  parse_lines-frames_of (suc fuel) caps done (u ∷ us) pack h short (g, good) (p, plain) =
      let next = write_flush ++ pack in
      let joined : (done ++ u ∷ []) ++ us ≡ done ++ u ∷ us = append_assoc done (u ∷ []) us in
      let size = ap length joined in
      let one : length (done ++ u ∷ []) ≤ max_update_commands =
        omega (arith, size, short, length-append (done ++ u ∷ []) us) in
      let rest =
        parse_lines-frames_of fuel caps (done ++ u ∷ []) us pack (omega arith) (omega (arith, size))
          good plain in
      rw
        (
          parse_lines,
          append_assoc (frame_of (line_of u)) (frames_of us) next,
          read-frame_of (line_of u) (frames_of us ++ next) p.2,
          parse_line-line_of check_ref_format u g p caps done one,
        )
        (rest ∙ ap (λ all. ok (caps, all, pack)) joined)

  length-frames_of : (us : List UpdateCommand) → length us ≤ length (frames_of us)
  unfolding frames_of header
  length-frames_of [] = omega arith
  length-frames_of (u ∷ us) =
      omega (arith, length-frames_of us, length-append (frame_of (line_of u)) (frames_of us))

  parse_lines-push_of :
      (caps_text : Bytes) (u : UpdateCommand) (us : List UpdateCommand) (pack : Bytes)
      → All (IsCommand check_ref_format) (u ∷ us)
      → All IsPlain (u ∷ us)
      → has_suffix caps_text (10 ∷ []) ≡ false
      → length (line_of u ++ 0 ∷ caps_text) ≤ max_payload
      → length (u ∷ us) ≤ max_update_commands
      → parse_lines check_ref_format
          (suc (length (push_of caps_text u us pack)))
          true
          []
          []
          (push_of caps_text u us pack)
        ≡ ok (fields caps_text, u ∷ us, pack)
  unfolding parse_lines push_of header
  parse_lines-push_of caps_text u us pack (g, good) (p, plain) h fits short =
      let first = line_of u ++ 0 ∷ caps_text in
      let others = frames_of us ++ (write_flush ++ pack) in
      let long : length us < length (frame_of first ++ others) = omega (
        arith,
        length-append (frame_of first) others,
        length-frames_of us,
        length-append (frames_of us) (write_flush ++ pack),
      ) in
      rw
        (
          parse_lines,
          read-frame_of first others fits,
          parse_line-first check_ref_format u g p caps_text h,
        )
        (parse_lines-frames_of (length (frame_of first ++ others)) (fields caps_text) (u ∷ []) us
          pack long short good plain)

  finish_lem :
      (caps : List Bytes) (us : List UpdateCommand) (pack : Bytes)
      → is_empty us ≡ false
      → has_duplicates us ≡ false
      → (all_delete us ≡ false) ⊎ (pack ≡ [])
      → finish none caps us pack
        ≡ ok (record {
          caps = caps;
          updates = us;
          pack = if is_empty pack then none else some pack;
          is_atomic = member (codes "atomic") caps;
        })
  unfolding finish store_pack trailer_fails is_empty
  finish_lem caps us pack some_us distinct (inl changes) = rw (some_us, distinct, changes) refl
  finish_lem caps us pack some_us distinct (inr nothing) = elim (Bool-cases (all_delete us)) [
    | inl t ↦ rw (nothing, some_us, distinct, t) refl
    | inr f ↦ rw (some_us, distinct, f) refl
  ]

  -- A push as it is written is read back: with the capabilities of its first line, its commands in
  -- their order and its pack. Its commands are admissible, for different refs, and at most 4096; their
  -- refnames have no NUL and no line feed at the end; each line fits into a packet; and a push that
  -- only deletes has no pack.
  pub parse-push_of :
      (caps_text : Bytes) (u : UpdateCommand) (us : List UpdateCommand) (pack : Bytes)
      → All (IsCommand check_ref_format) (u ∷ us)
      → All IsPlain (u ∷ us)
      → has_suffix caps_text (10 ∷ []) ≡ false
      → length (line_of u ++ 0 ∷ caps_text) ≤ max_payload
      → length (u ∷ us) ≤ max_update_commands
      → has_duplicates (u ∷ us) ≡ false
      → (all_delete (u ∷ us) ≡ false) ⊎ (pack ≡ [])
      → parse_receive_pack_request check_ref_format none (push_of caps_text u us pack)
        ≡ ok (record {
          caps = fields caps_text;
          updates = u ∷ us;
          pack = if is_empty pack then none else some pack;
          is_atomic = member (codes "atomic") (fields caps_text);
        })
  unfolding parse_receive_pack_request is_empty
  parse-push_of caps_text u us pack good plain h fits short distinct only =
      rw
        (
          parse_receive_pack_request,
          parse_lines-push_of caps_text u us pack good plain h fits short,
        )
        (finish_lem (fields caps_text) (u ∷ us) pack refl distinct only)
