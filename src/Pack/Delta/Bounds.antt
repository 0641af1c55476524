-- ===== src/Pack/Delta/Bounds.antt =====
-- The sizes that a delta declares, and the fuel of the loop.
use bucketvcs.Prelude.{
  ℕ, zero, suc, ◌+◌, ◌*◌, ◌%◌, ◌^◌, ◌≤◌, ◌≡◌, ◌≢◌, inl, inr, [], ◌∷◌, arith, ◌==◌, length, take,
  drop, Bytes, Bool-cases, length-append,
}
use bucketvcs.Prelude.{length-take, length-drop}
use bucketvcs.Pack.Delta.{
  out_of_fuel, Result, ok, err, Result-cases, max_object_size, read_size_varint, has_bit,
  read_field, copy_size, copy, insert_literal, copy_instruction, instruction, run, run_sized,
  check_base, apply_delta,
}

read_field-shrinks :
    (op n bit shift v w : ℕ) (r r' : Bytes)
    → read_field op n bit shift v r ≡ ok (w, r')
    → length r' ≤ length r
unfolding read_field
read_field-shrinks op zero bit shift v w r r' h = ground arith
read_field-shrinks op (suc n) bit shift v w [] r' h =
    ground (arith, read_field-shrinks op n (bit + 1) (shift + 8) v w [] r')
read_field-shrinks op (suc n) bit shift v w (b ∷ r) r' h = ground (
  arith,
  read_field-shrinks op n (bit + 1) (shift + 8) (v + b * 2 ^ shift) w r r',
  read_field-shrinks op n (bit + 1) (shift + 8) v w (b ∷ r) r',
)

read_field-fuel :
    (op n bit shift v : ℕ) (r : Bytes) → read_field op n bit shift v r ≢ err out_of_fuel
unfolding read_field
read_field-fuel op zero bit shift v r h = ground arith
read_field-fuel op (suc n) bit shift v [] h =
    ground (arith, read_field-fuel op n (bit + 1) (shift + 8) v [])
read_field-fuel op (suc n) bit shift v (b ∷ r) h = ground (
  arith,
  read_field-fuel op n (bit + 1) (shift + 8) (v + b * 2 ^ shift) r,
  read_field-fuel op n (bit + 1) (shift + 8) v (b ∷ r),
)

module _ (base : Bytes) (size : ℕ) where
  -- No more input than there was, and output within the declared size.
  abbrev Left : Bytes → Result (Bytes × Bytes) → Type 0
  Left r step =
      (step ≢ err out_of_fuel)
      × ((out' r' : Bytes) → step ≡ ok (out', r') → (length r' ≤ length r) × (length out' ≤ size))

  length-cut : (off sz : ℕ) → off + sz ≤ length base → length (take sz (drop off base)) ≡ sz
  length-cut off sz h = omega (arith, length-take sz (drop off base), length-drop off base)

  insert_literal-Left : (n : ℕ) (r out : Bytes) → Left r (insert_literal base size n r out)
  unfolding insert_literal
  insert_literal-Left n r out = (
    λ h. ground arith,
    λ out' r' h. ground (arith, length-take n r, length-drop n r, length-append out (take n r)),
  )

  copy_lem :
      (off sz : ℕ) (out : Bytes)
      → (copy base size off sz out ≢ err out_of_fuel)
        × ((out' : Bytes) → copy base size off sz out ≡ ok out' → length out' ≤ size)
  unfolding copy
  copy_lem off sz out = (
    λ h. ground arith,
    λ out' h. ground (arith, length-cut off sz, length-append out (take sz (drop off base))),
  )

  copy_instruction-Left : (op : ℕ) (r out : Bytes) → Left r (copy_instruction base size op r out)
  unfolding copy_instruction
  copy_instruction-Left op r out = elim (Result-cases (read_field op 4 0 0 0 r)) [
    | inr (e, q) ↦ (λ h. ground (arith, read_field-fuel op 4 0 0 0 r), λ out' r' h. ground arith)
    | inl ((off, r1), q) ↦ elim (Result-cases (read_field op 3 4 0 0 r1)) [
      | inr (e, p) ↦ (λ h. ground (arith, read_field-fuel op 3 4 0 0 r1), λ out' r' h. ground arith)
      | inl ((sz, r2), p) ↦ elim (Result-cases (copy base size off (copy_size sz) out)) [
        | inr (e, c) ↦
            (λ h. ground (arith, (copy_lem off (copy_size sz) out).0), λ out' r' h. ground arith)
        | inl (out1, c) ↦ (
          λ h. ground arith,
          λ out' r' h. ground (
            arith,
            (copy_lem off (copy_size sz) out).1 out1 c,
            read_field-shrinks op 4 0 0 0 off r r1 q,
            read_field-shrinks op 3 4 0 0 sz r1 r2 p,
          ),
        )
      ]
    ]
  ]

  instruction-Left : (op : ℕ) (r out : Bytes) → Left r (instruction base size op r out)
  unfolding instruction
  instruction-Left op r out = elim (Bool-cases (has_bit op 7)) [
    | inl copies ↦ rw copies (copy_instruction-Left op r out)
    | inr other ↦ rw other (elim (Bool-cases (op == 0)) [
      | inl zero_ ↦ rw zero_ (λ h. cc, λ out' r' h. cc)
      | inr literal ↦ rw literal (insert_literal-Left (op % 128) r out)
    ])
  ]

  -- The length of the input is fuel enough for the loop: each instruction takes a byte at least.
  run-fuel :
      (fuel : ℕ) (r out : Bytes) → length r ≤ fuel → run base size fuel r out ≢ err out_of_fuel
  unfolding run
  run-fuel fuel [] out h e = ground arith
  run-fuel zero (op ∷ r) out h e = omega arith
  run-fuel (suc fuel) (op ∷ r) out h e = elim (Result-cases (instruction base size op r out)) [
    | inr (x, q) ↦ (instruction-Left op r out).0 (ground arith)
    | inl ((out', r'), q) ↦
        run-fuel fuel r' out' (omega (arith, ((instruction-Left op r out).1 out' r' q).0))
          (ground arith)
  ]

  run-length :
      (fuel : ℕ) (r out done : Bytes) → run base size fuel r out ≡ ok done → length done ≡ size
  unfolding run
  run-length fuel [] out done h = ground arith
  run-length zero (op ∷ r) out done h = absurd (ground arith)
  run-length (suc fuel) (op ∷ r) out done h = elim (Result-cases (instruction base size op r out)) [
    | inr (x, q) ↦ absurd (ground arith)
    | inl ((out', r'), q) ↦ run-length fuel r' out' done (ground arith)
  ]

-- A delta that is applied was made for a base of that length, and the result has the length that the
-- delta declares; both are at most 1 GiB.
pub apply_delta-sizes :
    (base delta out : Bytes)
    → apply_delta base delta ≡ ok out
    → (r r' : Bytes) × (read_size_varint delta ≡ ok (length base, r))
      × (read_size_varint r ≡ ok (length out, r'))
      × (length base ≤ max_object_size)
      × (length out ≤ max_object_size)
unfolding apply_delta check_base run_sized
apply_delta-sizes base delta out h = elim (Result-cases (read_size_varint delta)) [
  | inr (e, q) ↦ absurd (ground arith)
  | inl ((n, r), q) ↦ elim (Result-cases (read_size_varint r)) [
    | inr (e, p) ↦ absurd (ground arith)
    | inl ((m, r'), p) ↦
        let done : length out ≡ m = run-length base m (length r') r' [] out (ground arith) in
        let n_eq : n ≡ length base = ground arith in
        (r, r', rw (← n_eq) q, rw done p, ground arith, ground arith)
  ]
]
