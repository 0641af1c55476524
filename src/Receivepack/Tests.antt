-- ===== src/Receivepack/Tests.antt =====
-- A push of one new branch and one deletion, and the theorems of the parser at that input.
use bucketvcs.Prelude.{
  repeat, ℕ, zero, suc, ◌≡◌, refl, ◌⊎◌, inl, inr, ◌++◌, Bool, true, false, not, List, [], ◌∷◌,
  Option, none, some, arith, Bytes, codes, is_empty,
}
use bucketvcs.Repo.RefStore.{null_oid_hex}
use bucketvcs.Receivepack.{
  UpdateCommand, Request, Result, ok, err, duplicate_refname, flush_only_probe,
  parse_receive_pack_request,
}
use bucketvcs.Receivepack.Commands.{Ends}
use bucketvcs.Receivepack.Accepted.{IsAccepted, parse-IsAccepted}
use bucketvcs.Receivepack.RoundTrip.{push_of, parse-push_of}

-- A check that admits every name but the empty one.
abbrev some_name : Bytes → Bool
some_name s = not (is_empty s)

abbrev new_branch : UpdateCommand
new_branch = record {
  old_oid = null_oid_hex;
  new_oid = repeat 40 b'a';
  refname = codes "refs/heads/main";
}

abbrev deletion : UpdateCommand
deletion = record {
  old_oid = repeat 40 b'b';
  new_oid = null_oid_hex;
  refname = codes "refs/heads/old";
}

abbrev caps_text : Bytes
caps_text = codes " report-status atomic"

abbrev pushed : Request
pushed = record {
  caps = codes "report-status" ∷ codes "atomic" ∷ [];
  updates = new_branch ∷ deletion ∷ [];
  pack = some (codes "PACK");
  is_atomic = true;
}

parse_probe : parse_receive_pack_request some_name none (codes "0000") ≡ err flush_only_probe
unfolding parse_receive_pack_request bucketvcs.Receivepack.parse_lines bucketvcs.Pktline.read
    bucketvcs.Pktline.frame_length bucketvcs.Pktline.hex_value bucketvcs.Pktline.read_frame is_empty
parse_probe = refl

parse_twice :
    parse_receive_pack_request some_name none (push_of caps_text deletion (deletion ∷ []) [])
    ≡ err duplicate_refname
unfolding parse_receive_pack_request bucketvcs.Receivepack.parse_lines bucketvcs.Pktline.read
    push_of bucketvcs.Pktline.header bucketvcs.Pktline.frame_length bucketvcs.Pktline.hex_value
    bucketvcs.Pktline.hex_nibble bucketvcs.Pktline.read_frame bucketvcs.Pktline.read_payload_of
    bucketvcs.Receivepack.RoundTrip.frames_of bucketvcs.Receivepack.parse_line
    bucketvcs.Receivepack.strip_lf bucketvcs.Prelude.has_suffix bucketvcs.Receivepack.parse_command
    bucketvcs.Receivepack.cut bucketvcs.Receivepack.split_caps bucketvcs.Prelude.Sort.member
    bucketvcs.Prelude.eqb bucketvcs.Prelude.has_prefix is_empty bucketvcs.Receivepack.all_delete
    bucketvcs.Receivepack.check_command bucketvcs.Receivepack.fields
    bucketvcs.Receivepack.fields_from bucketvcs.Receivepack.space_size
    bucketvcs.Prelude.Utf8.byte_at bucketvcs.Prelude.Utf8.between bucketvcs.Receivepack.finish
    bucketvcs.Receivepack.has_duplicates bucketvcs.Receivepack.has_refname
    bucketvcs.Receivepack.hex_digits bucketvcs.Receivepack.store_pack
    bucketvcs.Receivepack.valid_hex_oid40
parse_twice = refl

parse-push_of_example :
    parse_receive_pack_request some_name none
      (push_of caps_text new_branch (deletion ∷ []) (codes "PACK"))
    ≡ ok pushed
unfolding bucketvcs.Receivepack.valid_hex_oid40 bucketvcs.Receivepack.hex_digits is_empty
    bucketvcs.Prelude.has_prefix bucketvcs.Prelude.eqb bucketvcs.Receivepack.cut
    bucketvcs.Prelude.has_suffix bucketvcs.Receivepack.has_duplicates
    bucketvcs.Receivepack.has_refname bucketvcs.Receivepack.all_delete bucketvcs.Receivepack.fields
    bucketvcs.Receivepack.fields_from bucketvcs.Receivepack.space_size
    bucketvcs.Prelude.Utf8.byte_at bucketvcs.Prelude.Utf8.between bucketvcs.Prelude.Sort.member
parse-push_of_example =
    parse-push_of some_name caps_text new_branch (deletion ∷ []) (codes "PACK")
      ((refl, refl, refl, refl, refl), ((refl, refl, refl, refl, refl), tt))
      ((refl, refl, omega arith), ((refl, refl, omega arith), tt)) refl (omega arith) (omega arith)
      refl (inl refl)

parse-IsAccepted_example : Ends (IsAccepted some_name) (
    parse_receive_pack_request some_name none
      (push_of caps_text new_branch (deletion ∷ []) (codes "PACK")))
parse-IsAccepted_example =
    parse-IsAccepted some_name none (push_of caps_text new_branch (deletion ∷ []) (codes "PACK"))

-- U+0085 and U+3000 separate fields; the same last bytes behind others do not.
fields_unicode :
    bucketvcs.Receivepack.fields
      (codes "ab" ++ 194 ∷ 133 ∷ codes "c" ++ 227 ∷ 128 ∷ 128 ∷ codes " d" ++ 195 ∷ 133 ∷ [])
    ≡ codes "ab" ∷ codes "c" ∷ (codes "d" ++ 195 ∷ 133 ∷ []) ∷ []
unfolding bucketvcs.Receivepack.fields bucketvcs.Receivepack.fields_from
    bucketvcs.Receivepack.space_size bucketvcs.Prelude.Utf8.byte_at bucketvcs.Prelude.Utf8.between
    is_empty
fields_unicode = refl

-- A body whose end cannot be read ends a push that only deletes with an error.
deletion_unread :
    bucketvcs.Receivepack.finish (some bucketvcs.Receivepack.read_body) [] (deletion ∷ []) []
    ≡ err (bucketvcs.Receivepack.incoming bucketvcs.Receivepack.read_body)
unfolding bucketvcs.Receivepack.finish bucketvcs.Receivepack.has_duplicates
    bucketvcs.Receivepack.has_refname bucketvcs.Receivepack.store_pack
    bucketvcs.Receivepack.all_delete bucketvcs.Receivepack.trailer_fails is_empty
    bucketvcs.Prelude.eqb
deletion_unread = refl
