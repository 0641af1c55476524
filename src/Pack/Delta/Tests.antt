-- ===== src/Pack/Delta/Tests.antt =====
-- Runs of `applyDelta`, and its theorems at concrete inputs.
use bucketvcs.Prelude.{◌≤◌, ◌≡◌, refl, List, [], ◌∷◌, arith, length, Bytes, codes, All}
use bucketvcs.Pack.Delta.{
  Result, ok, err, reserved_opcode, copy_out_of_range, base_size_differs, out_of_fuel,
  max_object_size, read_size_from, read_size_varint, apply_delta, check_base, run_sized,
}
use bucketvcs.Pack.Delta.Bounds.{apply_delta-sizes}
use bucketvcs.Pack.Delta.RoundTrip.{
  Op, copy_op, literal_op, IsOp, expand, expand_op, encode_delta, apply_delta-encode,
}

abbrev base : Bytes
base = codes "hello world"

abbrev ops : List Op
ops = copy_op 6 5 ∷ literal_op (codes ", ") ∷ copy_op 0 5 ∷ []

ops_valid : All (IsOp base) ops
ops_valid = (
  (omega arith, omega arith, omega arith),
  ((omega arith, omega arith), ((omega arith, omega arith, omega arith), tt)),
)

base_small : length base ≤ max_object_size
base_small = omega arith

result_small : length (expand base ops) ≤ max_object_size
unfolding expand expand_op
result_small = omega arith

apply_delta-encode_example : apply_delta base (encode_delta base ops) ≡ ok (expand base ops)
apply_delta-encode_example = apply_delta-encode base ops ops_valid base_small result_small

-- A delta with a short copy: offset 6 in one byte, size 5 in one byte.
abbrev short_delta : Bytes
short_delta = 11 ∷ 5 ∷ 145 ∷ 6 ∷ 5 ∷ []

short_applied : apply_delta base short_delta ≡ ok (codes "world")
unfolding apply_delta read_size_from check_base run_sized bucketvcs.Pack.Delta.run
    bucketvcs.Pack.Delta.instruction bucketvcs.Pack.Delta.has_bit
    bucketvcs.Pack.Delta.copy_instruction bucketvcs.Pack.Delta.read_field bucketvcs.Pack.Delta.copy
short_applied = refl

apply_delta-sizes_example :
    (r r' : Bytes) × (read_size_varint short_delta ≡ ok (length base, r))
    × (read_size_varint r ≡ ok (length (codes "world"), r'))
    × (length base ≤ max_object_size)
    × (length (codes "world") ≤ max_object_size)
apply_delta-sizes_example = apply_delta-sizes base short_delta (codes "world") short_applied

refusals :
    (apply_delta base (11 ∷ 1 ∷ 0 ∷ []) ≡ err reserved_opcode)
    × (apply_delta base (11 ∷ 5 ∷ 145 ∷ 9 ∷ 5 ∷ []) ≡ err copy_out_of_range)
    × (apply_delta base (12 ∷ 5 ∷ []) ≡ err base_size_differs)
unfolding apply_delta read_size_from check_base run_sized bucketvcs.Pack.Delta.run
    bucketvcs.Pack.Delta.instruction bucketvcs.Pack.Delta.has_bit
    bucketvcs.Pack.Delta.copy_instruction bucketvcs.Pack.Delta.read_field bucketvcs.Pack.Delta.copy
refusals = (refl, refl, refl)
