-- ===== src/Pack/Delta.antt =====
-- internal/pack/delta.go: applying a Git delta to a base. A byte is below 256; the `|` of disjoint bits
-- is written as a sum.
pub mod Bounds
pub mod RoundTrip
mod Tests
use bucketvcs.Prelude.{
  ℕ, zero, suc, ◌+◌, ◌-◌, ◌*◌, ◌/◌, ◌%◌, ◌^◌, ◌≤◌, ◌<◌, ◌≡◌, ◌≢◌, refl, sym, ap, ap₂, ◌∙◌, ◌↔◌, ◌⊎◌,
  inl, inr, Bool, true, false, not, ◌&&◌, ◌||◌, List, [], ◌∷◌, ◌++◌, Option, none, some, arith, ltb,
  leb, ◌==◌, if◌then◌else◌, length, take, drop, Bytes, codes, eqb, has_prefix, has_suffix, contains,
  split, is_empty, Bool-cases, Option-cases, eqb_iff, eqb_refl, All, append-nil, append_assoc,
  length-append,
}
use bucketvcs.Prelude.Assoc.{Assoc, lookup, insert, remove, lookup-insert, lookup-remove, map_laws}

pub data DeltaError : Type 0 where
  unexpected_eof varint_overflow base_too_large base_size_differs result_too_large : DeltaError
  copy_out_of_range exceeds_result_size reserved_opcode result_size_differs out_of_fuel : DeltaError

pub data Result {ℓ} (A : Type ℓ) : Type ℓ where
  ok : A → Result A
  err : DeltaError → Result A

module _ {ℓ κ} {A : Type ℓ} {B : Type κ} where
  infixl 5 ◌>>=◌
  abbrev pub ◌>>=◌ : Result A → (A → Result B) → Result B
  err reason >>= next = err reason
  ok value >>= next = next value

pub Result-cases {ℓ} :
    {A : Type ℓ} (r : Result A) → ((a : A) × (r ≡ ok a)) ⊎ ((e : DeltaError) × (r ≡ err e))
Result-cases (ok a) = inl (a, refl)
Result-cases (err e) = inr (e, refl)

-- `maxObjectSize`
abbrev pub max_object_size : ℕ
max_object_size = 2 ^ 30

-- The loop of `readSizeVarint`, with the rest of the input.
unfoldable pub read_size_from : ℕ → ℕ → Bytes → Result (ℕ × Bytes)
read_size_from shift v [] = err unexpected_eof
read_size_from shift v (b ∷ r) =
    let payload = b % 128 in
    let v' = (v + payload * 2 ^ shift) % 2 ^ 64 in
    let rest = read_size_from (shift + 7) v' r in
    if leb 64 shift || (ltb 57 shift && not (payload / 2 ^ (64 - shift) == 0))
    then err varint_overflow
    else if b / 128 % 2 == 0
    then ok (v', r)
    else rest

abbrev pub read_size_varint : Bytes → Result (ℕ × Bytes)
read_size_varint r = read_size_from 0 0 r

-- `op&(1<<i) != 0`
unfoldable pub has_bit : ℕ → ℕ → Bool
has_bit op i = not (op / 2 ^ i % 2 == 0)

-- The loops that assemble an offset or a size: `n` bytes at most, each there if its bit is set.
unfoldable pub read_field : ℕ → ℕ → ℕ → ℕ → ℕ → Bytes → Result (ℕ × Bytes)
read_field op zero bit shift v r = ok (v, r)
read_field op (suc n) bit shift v [] =
    if has_bit op bit then err unexpected_eof else read_field op n (bit + 1) (shift + 8) v []
read_field op (suc n) bit shift v (b ∷ r) =
    let taken = read_field op n (bit + 1) (shift + 8) (v + b * 2 ^ shift) r in
    let skipped = read_field op n (bit + 1) (shift + 8) v (b ∷ r) in
    if has_bit op bit then taken else skipped

abbrev pub copy_size : ℕ → ℕ
copy_size sz = if sz == 0 then 65536 else sz

module _ (base : Bytes) (result_size : ℕ) where
  -- A copy, once its offset and size are read.
  unfoldable pub copy : ℕ → ℕ → Bytes → Result Bytes
  copy off sz out =
      if ltb (length base) (off + sz)
      then err copy_out_of_range
      else if ltb result_size (length out + sz)
      then err exceeds_result_size
      else ok (out ++ take sz (drop off base))

  unfoldable pub insert_literal : ℕ → Bytes → Bytes → Result (Bytes × Bytes)
  insert_literal n r out =
      if ltb result_size (length out + n)
      then err exceeds_result_size
      else if ltb (length r) n
      then err unexpected_eof
      else ok (out ++ take n r, drop n r)

  -- The output after an instruction, and the rest of the input.
  unfoldable pub copy_instruction : ℕ → Bytes → Bytes → Result (Bytes × Bytes)
  copy_instruction op r out = do
    (off, r1) ← read_field op 4 0 0 0 r
    (sz, r2) ← read_field op 3 4 0 0 r1
    out' ← copy off (copy_size sz) out
    ok (out', r2)

  unfoldable pub instruction : ℕ → Bytes → Bytes → Result (Bytes × Bytes)
  instruction op r out =
      if has_bit op 7
      then copy_instruction op r out
      else if op == 0
      then err reserved_opcode
      else insert_literal (op % 128) r out

  -- The loop over the instructions.
  unfoldable pub run : ℕ → Bytes → Bytes → Result Bytes
  run fuel [] out = if length out == result_size then ok out else err result_size_differs
  run zero (op ∷ r) out = err out_of_fuel
  run (suc fuel) (op ∷ r) out = instruction op r out >>= λ p. run fuel p.1 p.0

-- From the size of the result on. An instruction takes at least one byte, so the length of the input
-- is fuel enough.
unfoldable pub run_sized : Bytes → Bytes → Result Bytes
run_sized base r = read_size_varint r >>= λ p.
    if ltb max_object_size p.0 then err result_too_large else run base p.0 (length p.1) p.1 []

unfoldable pub check_base : Bytes → ℕ × Bytes → Result Bytes
check_base base p =
    if ltb max_object_size p.0
    then err base_too_large
    else if not (p.0 == length base)
    then err base_size_differs
    else run_sized base p.1

-- `applyDelta`
unfoldable pub apply_delta : Bytes → Bytes → Result Bytes
apply_delta base delta = read_size_varint delta >>= check_base base
