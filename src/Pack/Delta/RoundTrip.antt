-- ===== src/Pack/Delta/RoundTrip.antt =====
-- A reference encoder of deltas, which `applyDelta` reads back.
use bucketvcs.Prelude.{
  ℕ, zero, suc, ◌+◌, ◌*◌, ◌/◌, ◌%◌, ◌^◌, ◌≤◌, ◌<◌, ◌≡◌, refl, ap, ◌∙◌, false, List, [], ◌∷◌, ◌++◌,
  arith, ltb, if◌then◌else◌, length, take, drop, Bytes, All, append-nil, append_assoc,
  length-append,
}
use bucketvcs.Prelude.{length-take, length-drop, take-append_self, drop-append_self}
use bucketvcs.Pack.Delta.{
  ok, max_object_size, read_size_from, read_size_varint, has_bit, read_field, copy, insert_literal,
  copy_instruction, instruction, run, run_sized, check_base, apply_delta,
}

-- A size below 2^35: seven bits a byte, the low ones first.
unfoldable pub write_size : ℕ → ℕ → Bytes
write_size zero v = v ∷ []
write_size (suc n) v =
    let rest = write_size n (v / 128) in if ltb v 128 then v ∷ [] else (128 + v % 128) ∷ rest

read_size-28 :
    (v acc : ℕ) (rest : Bytes)
    → v < 4
    → acc < 2 ^ 28
    → read_size_from 28 acc (write_size 0 v ++ rest) ≡ ok (acc + v * 2 ^ 28, rest)
unfolding read_size_from write_size
read_size-28 v acc rest h k = ground arith

read_size-21 :
    (v acc : ℕ) (rest : Bytes)
    → v < 2 ^ 9
    → acc < 2 ^ 21
    → read_size_from 21 acc (write_size 1 v ++ rest) ≡ ok (acc + v * 2 ^ 21, rest)
unfolding read_size_from write_size
read_size-21 v acc rest h k = ground (arith, read_size-28 (v / 128) (acc + v % 128 * 2 ^ 21) rest)

read_size-14 :
    (v acc : ℕ) (rest : Bytes)
    → v < 2 ^ 16
    → acc < 2 ^ 14
    → read_size_from 14 acc (write_size 2 v ++ rest) ≡ ok (acc + v * 2 ^ 14, rest)
unfolding read_size_from write_size
read_size-14 v acc rest h k = ground (arith, read_size-21 (v / 128) (acc + v % 128 * 2 ^ 14) rest)

read_size-7 :
    (v acc : ℕ) (rest : Bytes)
    → v < 2 ^ 23
    → acc < 2 ^ 7
    → read_size_from 7 acc (write_size 3 v ++ rest) ≡ ok (acc + v * 2 ^ 7, rest)
unfolding read_size_from write_size
read_size-7 v acc rest h k = ground (arith, read_size-14 (v / 128) (acc + v % 128 * 2 ^ 7) rest)

-- A size up to 1 GiB reads back.
pub read-write_size :
    (v : ℕ) (rest : Bytes)
    → v ≤ max_object_size
    → read_size_varint (write_size 4 v ++ rest) ≡ ok (v, rest)
unfolding read_size_from write_size
read-write_size v rest h = ground (arith, read_size-7 (v / 128) (v % 128) rest)

-- One instruction: a slice of the base, or bytes of its own.
pub data Op : Type 0 where
  copy_op : ℕ → ℕ → Op
  literal_op : Bytes → Op

-- The bytes of an instruction; all seven bits of a copy are set.
unfoldable pub encode_op : Op → Bytes
encode_op (copy_op off sz) =
    255
    ∷ off % 256
    ∷ off / 256 % 256
    ∷ off / 65536 % 256
    ∷ off / 16777216 % 256
    ∷ sz % 256
    ∷ sz / 256 % 256
    ∷ sz / 65536 % 256
    ∷ []
encode_op (literal_op s) = length s ∷ s

unfoldable pub encode_ops : List Op → Bytes
encode_ops [] = []
encode_ops (op ∷ ops) = encode_op op ++ encode_ops ops

-- What an instruction stands for.
unfoldable pub expand_op : Bytes → Op → Bytes
expand_op base (copy_op off sz) = take sz (drop off base)
expand_op base (literal_op s) = s

unfoldable pub expand : Bytes → List Op → Bytes
expand base [] = []
expand base (op ∷ ops) = expand_op base op ++ expand base ops

unfoldable pub encode_delta : Bytes → List Op → Bytes
encode_delta base ops =
    write_size 4 (length base) ++ (write_size 4 (length (expand base ops)) ++ encode_ops ops)

-- A slice that lies in the base, or 1 to 127 bytes.
abbrev pub IsOp : Bytes → Op → Type 0
IsOp base (copy_op off sz) = (1 ≤ sz) × (sz < 2 ^ 24) × (off + sz ≤ length base)
IsOp base (literal_op s) = (1 ≤ length s) × (length s ≤ 127)

read_field-offset :
    (off : ℕ) (r : Bytes)
    → off < 2 ^ 32
    → read_field 255 4 0 0 0
        (off % 256 ∷ off / 256 % 256 ∷ off / 65536 % 256 ∷ off / 16777216 % 256 ∷ r)
      ≡ ok (off, r)
unfolding read_field has_bit
read_field-offset off r h = ap (λ n. ok (n, r)) (omega arith)

read_field-size :
    (sz : ℕ) (r : Bytes)
    → sz < 2 ^ 24
    → read_field 255 3 4 0 0 (sz % 256 ∷ sz / 256 % 256 ∷ sz / 65536 % 256 ∷ r) ≡ ok (sz, r)
unfolding read_field has_bit
read_field-size sz r h = ap (λ n. ok (n, r)) (omega arith)

module _ (base : Bytes) (size : ℕ) (small : length base ≤ max_object_size) where
  copy_instruction-encode :
      (off sz : ℕ) (rest out : Bytes)
      → IsOp base (copy_op off sz)
      → length out + sz ≤ size
      → copy_instruction base size 255
          (off % 256
            ∷ off / 256 % 256
            ∷ off / 65536 % 256
            ∷ off / 16777216 % 256
            ∷ sz % 256
            ∷ sz / 256 % 256
            ∷ sz / 65536 % 256
            ∷ rest)
          out
        ≡ ok (out ++ take sz (drop off base), rest)
  unfolding copy_instruction copy
  copy_instruction-encode off sz rest out (low, high, inside) fits =
      rw (read_field-offset off (sz % 256 ∷ sz / 256 % 256 ∷ sz / 65536 % 256 ∷ rest) (omega arith))
        (rw (read_field-size sz rest high) (ground arith))

  instruction-copy :
      (off sz : ℕ) (rest out : Bytes)
      → IsOp base (copy_op off sz)
      → length out + sz ≤ size
      → instruction base size 255
          (off % 256
            ∷ off / 256 % 256
            ∷ off / 65536 % 256
            ∷ off / 16777216 % 256
            ∷ sz % 256
            ∷ sz / 256 % 256
            ∷ sz / 65536 % 256
            ∷ rest)
          out
        ≡ ok (out ++ take sz (drop off base), rest)
  unfolding instruction has_bit
  instruction-copy off sz rest out v fits = copy_instruction-encode off sz rest out v fits

  has_bit-small : (n : ℕ) → n ≤ 127 → has_bit n 7 ≡ false
  unfolding has_bit
  has_bit-small n h = ground arith

  instruction-literal :
      (s rest out : Bytes)
      → IsOp base (literal_op s)
      → length out + length s ≤ size
      → instruction base size (length s) (s ++ rest) out ≡ ok (out ++ s, rest)
  unfolding instruction insert_literal
  instruction-literal s rest out (low, high) fits =
      rw (has_bit-small (length s) high)
        (ground (arith, take-append_self s rest, drop-append_self s rest, length-append s rest))

  length-cut : (off sz : ℕ) → off + sz ≤ length base → length (take sz (drop off base)) ≡ sz
  length-cut off sz h = omega (arith, length-take sz (drop off base), length-drop off base)

  run-encode_ops :
      (ops : List Op) (fuel : ℕ) (out : Bytes)
      → All (IsOp base) ops
      → length (encode_ops ops) ≤ fuel
      → length (out ++ expand base ops) ≡ size
      → run base size fuel (encode_ops ops) out ≡ ok (out ++ expand base ops)
  unfolding run encode_ops encode_op expand expand_op
  run-encode_ops [] fuel out valid enough total = rw append-nil (ground (arith, append-nil out))
  run-encode_ops (copy_op off sz ∷ ops) zero out valid enough total = absurd (omega arith)
  run-encode_ops (copy_op off sz ∷ ops) (suc fuel) out (v, valid) enough total =
      let cut = take sz (drop off base) in
      let (low, high, inside) = v in
      let fits : length out + sz ≤ size = omega (
        arith,
        total,
        length-append out (cut ++ expand base ops),
        length-append cut (expand base ops),
        length-cut off sz inside,
      ) in
      rw (instruction-copy off sz (encode_ops ops) out v fits) (
        run-encode_ops ops fuel (out ++ cut) valid (omega arith)
          (rw (append_assoc out cut (expand base ops)) total)
        ∙ rw (append_assoc out cut (expand base ops)) refl)
  run-encode_ops (literal_op s ∷ ops) zero out valid enough total = absurd (omega arith)
  run-encode_ops (literal_op s ∷ ops) (suc fuel) out (v, valid) enough total =
      let fits : length out + length s ≤ size = omega (
        arith,
        total,
        length-append out (s ++ expand base ops),
        length-append s (expand base ops),
      ) in
      rw (instruction-literal s (encode_ops ops) out v fits) (
        run-encode_ops ops fuel (out ++ s) valid (omega (arith, length-append s (encode_ops ops)))
          (rw (append_assoc out s (expand base ops)) total)
        ∙ rw (append_assoc out s (expand base ops)) refl)

-- The delta that encodes a list of slices of the base and of literal bytes is applied to just what the
-- list stands for, if base and result are at most 1 GiB long.
pub apply_delta-encode :
    (base : Bytes) (ops : List Op)
    → All (IsOp base) ops
    → length base ≤ max_object_size
    → length (expand base ops) ≤ max_object_size
    → apply_delta base (encode_delta base ops) ≡ ok (expand base ops)
unfolding apply_delta check_base run_sized encode_delta
apply_delta-encode base ops valid small small' =
    rw
      (read-write_size (length base) (write_size 4 (length (expand base ops)) ++ encode_ops ops)
        small)
      (ground (
        arith,
        read-write_size (length (expand base ops)) (encode_ops ops) small',
        run-encode_ops base (length (expand base ops)) small ops (length (encode_ops ops)) [] valid,
      ))
