-- ===== src/Pack/Resolve.antt =====
-- internal/pack/delta.go: resolving an object through its chain of deltas, over the headers and the
-- inflated bodies of a pack.
pub mod Chain
mod Tests
use bucketvcs.Prelude.{
  ℕ, zero, suc, ◌+◌, ◌-◌, ◌*◌, ◌/◌, ◌%◌, ◌^◌, ◌≤◌, ◌<◌, ◌≡◌, ◌≢◌, refl, sym, ap, ap₂, ◌∙◌, ◌↔◌, ◌⊎◌,
  inl, inr, Bool, true, false, not, ◌&&◌, ◌||◌, List, [], ◌∷◌, ◌++◌, Option, none, some, arith, ltb,
  leb, ◌==◌, if◌then◌else◌, length, take, drop, Bytes, codes, eqb, has_prefix, has_suffix, contains,
  split, is_empty, Bool-cases, Option-cases, eqb_iff, eqb_refl, All, append-nil, append_assoc,
  length-append,
}
use bucketvcs.Prelude.Assoc.{Assoc, lookup, insert, remove, lookup-insert, lookup-remove, map_laws}
use bucketvcs.Pack.Delta.{
  Result as DeltaResult, ok as delta_ok, err as delta_err, apply_delta, Result-cases as delta_cases,
}

pub data ObjectType : Type 0 where
  commit tree blob tag : ObjectType

-- `ObjectHeader`, by its type.
pub data Kind : Type 0 where
  plain : ObjectType → Kind
  ofs_delta : ℕ → Kind
  ref_delta : Bytes → Kind

pub record ObjectHeader : Type 0 where
  pub kind : Kind
  pub size : ℕ
  pub header_len : ℕ

pub record Object : Type 0 where
  pub kind : ObjectType
  pub body : Bytes

pub data PackError : Type 0 where
  pack_corrupt delta_chain_too_deep : PackError

pub data Result {ℓ} (A : Type ℓ) : Type ℓ where
  ok : A → Result A
  err : PackError → Result A

module _ {ℓ κ} {A : Type ℓ} {B : Type κ} where
  infixl 5 ◌>>=◌
  abbrev pub ◌>>=◌ : Result A → (A → Result B) → Result B
  err reason >>= next = err reason
  ok value >>= next = next value

pub Result-cases {ℓ} :
    {A : Type ℓ} (r : Result A) → ((a : A) × (r ≡ ok a)) ⊎ ((e : PackError) × (r ≡ err e))
Result-cases (ok a) = inl (a, refl)
Result-cases (err e) = inr (e, refl)

-- The pack: `readObjectHeader` at an offset, `inflateAt`, and the index.
pub record PackFile : Type 0 where
  pub read_object_header : ℕ → Result ObjectHeader
  pub inflate_at : ℕ → ℕ → Result Bytes
  pub has_offset : ℕ → Bool
  pub lookup : Bytes → Option ℕ

unfoldable pub seen : ℕ → List ℕ → Bool
seen off [] = false
seen off (o ∷ visited) = o == off || seen off visited

module _ (pack : PackFile) where
  -- The body of a delta at its offset, applied to the base.
  unfoldable pub apply_at : ℕ → ObjectHeader → Object → Result Object
  apply_at off hdr base = pack.inflate_at (off + hdr.header_len) hdr.size >>= λ delta_body.
      elim (apply_delta base.body delta_body) [
        | delta_err e ↦ err pack_corrupt
        | delta_ok out ↦ ok (record { kind = base.kind; body = out })
      ]

  -- The offset of the base of a delta.
  unfoldable pub base_of : ℕ → Kind → Result ℕ
  base_of off (plain t) = err pack_corrupt
  base_of off (ofs_delta base_offset) =
      if pack.has_offset base_offset then ok base_offset else err pack_corrupt
  base_of off (ref_delta oid) = elim (pack.lookup oid) [
    | none ↦ err pack_corrupt
    | some base_off ↦ if base_off == off then err pack_corrupt else ok base_off
  ]

  unfoldable pub read_plain : ℕ → ObjectHeader → ObjectType → Result Object
  read_plain off hdr t = pack.inflate_at (off + hdr.header_len) hdr.size >>= λ body.
      ok (record { kind = t; body = body })

  -- `resolveObjectRec`: the depth that is left bounds the recursion.
  unfoldable pub resolve_rec : ℕ → ℕ → List ℕ → Result Object
  resolve_rec zero off visited =
      if seen off visited
      then err pack_corrupt
      else pack.read_object_header off >>= λ hdr. elim hdr.kind [
        | plain t ↦ read_plain off hdr t
        | ofs_delta b ↦ err delta_chain_too_deep
        | ref_delta oid ↦ err delta_chain_too_deep
      ]
  resolve_rec (suc depth) off visited =
      if seen off visited
      then err pack_corrupt
      else pack.read_object_header off >>= λ hdr. elim hdr.kind [
        | plain t ↦ read_plain off hdr t
        | ofs_delta b ↦
            (base_of off (ofs_delta b) >>= λ base_off.
            resolve_rec depth base_off (off ∷ visited) >>= apply_at off hdr)
        | ref_delta oid ↦
            (base_of off (ref_delta oid) >>= λ base_off.
            resolve_rec depth base_off (off ∷ visited) >>= apply_at off hdr)
      ]

  -- `resolveObject`
  unfoldable pub resolve_object : ℕ → ℕ → Result Object
  resolve_object max_depth off = resolve_rec max_depth off []
