-- ===== src/Pack/Resolve/Tests.antt =====
-- Runs of `resolveObject` on a pack with one blob and one delta on it.
use bucketvcs.Prelude.{ℕ, ◌≤◌, ◌≡◌, refl, ◌↔◌, ◌||◌, [], ◌∷◌, none, ◌==◌, if◌then◌else◌, codes}
use bucketvcs.Pack.Resolve.{
  blob, plain, ofs_delta, delta_chain_too_deep, pack_corrupt, PackFile, ok, err, resolve_object,
  resolve_rec, seen, read_plain, apply_at, base_of,
}
use bucketvcs.Pack.Resolve.Chain.{Denotes, resolve_object_iff}

abbrev pack : PackFile
pack = record {
  read_object_header = λ off.
      if off == 12
      then ok (record { kind = plain blob; size = 11; header_len = 1 })
      else if off == 40
      then ok (record { kind = ofs_delta 12; size = 5; header_len = 2 })
      else err pack_corrupt;
  inflate_at = λ off n.
      if off == 13
      then ok (codes "hello world")
      else if off == 42
      then ok (11 ∷ 5 ∷ 145 ∷ 6 ∷ 5 ∷ [])
      else err pack_corrupt;
  has_offset = λ off. off == 12 || off == 40;
  lookup = λ oid. none;
}

delta_resolved : resolve_object pack 1 40 ≡ ok (record { kind = blob; body = codes "world" })
unfolding resolve_object resolve_rec seen base_of read_plain apply_at
    bucketvcs.Pack.Delta.apply_delta bucketvcs.Pack.Delta.read_size_from
    bucketvcs.Pack.Delta.check_base bucketvcs.Pack.Delta.run_sized bucketvcs.Pack.Delta.run
    bucketvcs.Pack.Delta.instruction bucketvcs.Pack.Delta.has_bit
    bucketvcs.Pack.Delta.copy_instruction bucketvcs.Pack.Delta.read_field bucketvcs.Pack.Delta.copy
delta_resolved = refl

depth_exceeded : resolve_object pack 0 40 ≡ err delta_chain_too_deep
unfolding resolve_object resolve_rec seen
depth_exceeded = refl

resolve_object_iff_example :
    (resolve_object pack 1 40 ≡ ok (record { kind = blob; body = codes "world" }))
    ↔ ((n : ℕ) × (n ≤ 1) × Denotes pack 40 n (record { kind = blob; body = codes "world" }))
resolve_object_iff_example =
    resolve_object_iff pack 1 40 (record { kind = blob; body = codes "world" })
