-- ===== src/Pack/Resolve/Chain.antt =====
-- The object at an offset of a pack as the format defines it, and `resolveObject`.
use bucketvcs.Prelude.{
  ℕ, zero, suc, ◌≤◌, ◌<◌, ◌≡◌, refl, sym, ap, ◌∙◌, ◌↔◌, ◌⊎◌, inl, inr, true, false, List, [], ◌∷◌,
  arith, ◌==◌, Bytes, Bool-cases,
}
use bucketvcs.Pack.Resolve.{
  ObjectType, Kind, plain, ofs_delta, ref_delta, ObjectHeader, Object, PackFile, ok, ◌>>=◌,
  Result-cases, seen, apply_at, base_of, read_plain, resolve_rec, resolve_object,
}

module _ (pack : PackFile) where
  -- The object at an offset, as the format defines it, over a chain of so many deltas.
  pub data Denotes : ℕ → ℕ → Object → Type 0 where
    whole :
        (off : ℕ) (hdr : ObjectHeader) (t : ObjectType) (obj : Object)
        → pack.read_object_header off ≡ ok hdr
        → hdr.kind ≡ plain t
        → read_plain pack off hdr t ≡ ok obj
        → Denotes off 0 obj
    delta :
        (off n base_off : ℕ) (hdr : ObjectHeader) (base obj : Object)
        → pack.read_object_header off ≡ ok hdr
        → base_of pack off hdr.kind ≡ ok base_off
        → Denotes base_off n base
        → apply_at pack off hdr base ≡ ok obj
        → Denotes off (suc n) obj

  Kind-cases :
      (k : Kind)
      → ((t : ObjectType) × (k ≡ plain t))
        ⊎ (((b : ℕ) × (k ≡ ofs_delta b)) ⊎ ((oid : Bytes) × (k ≡ ref_delta oid)))
  Kind-cases (plain t) = inl (t, refl)
  Kind-cases (ofs_delta b) = inr (inl (b, refl))
  Kind-cases (ref_delta oid) = inr (inr (oid, refl))

  -- A delta's step: the same for both kinds.
  resolve_step :
      (depth off : ℕ) (visited : List ℕ) (hdr : ObjectHeader) (base_off : ℕ)
      → seen off visited ≡ false
      → pack.read_object_header off ≡ ok hdr
      → base_of pack off hdr.kind ≡ ok base_off
      → resolve_rec pack (suc depth) off visited
        ≡ (resolve_rec pack depth base_off (off ∷ visited) >>= apply_at pack off hdr)
  unfolding resolve_rec base_of
  resolve_step depth off visited hdr base_off fresh r b = elim (Kind-cases hdr.kind) [
    | inl (t, k) ↦ absurd (ground arith)
    | inr (inl (o, k)) ↦ ground arith
    | inr (inr (oid, k)) ↦ ground arith
  ]

  -- The end of a chain.
  resolve_whole :
      (depth off : ℕ) (visited : List ℕ) (hdr : ObjectHeader) (t : ObjectType)
      → seen off visited ≡ false
      → pack.read_object_header off ≡ ok hdr
      → hdr.kind ≡ plain t
      → resolve_rec pack depth off visited ≡ read_plain pack off hdr t
  unfolding resolve_rec
  resolve_whole zero off visited hdr t fresh r k = ground arith
  resolve_whole (suc depth) off visited hdr t fresh r k = ground arith

  resolve-header :
      (depth off : ℕ) (visited : List ℕ) (obj : Object)
      → resolve_rec pack depth off visited ≡ ok obj
      → (hdr : ObjectHeader) × (pack.read_object_header off ≡ ok hdr) × (seen off visited ≡ false)
  unfolding resolve_rec
  resolve-header zero off visited obj h = elim (Result-cases (pack.read_object_header off)) [
    | inr (e, q) ↦ absurd (ground arith)
    | inl (hdr, q) ↦ (hdr, q, ground arith)
  ]
  resolve-header (suc depth) off visited obj h = elim (Result-cases (pack.read_object_header off)) [
    | inr (e, q) ↦ absurd (ground arith)
    | inl (hdr, q) ↦ (hdr, q, ground arith)
  ]

  resolve-base :
      (depth off : ℕ) (visited : List ℕ) (hdr : ObjectHeader) (obj : Object)
      → resolve_rec pack (suc depth) off visited ≡ ok obj
      → pack.read_object_header off ≡ ok hdr
      → ((t : ObjectType) × (hdr.kind ≡ plain t))
        ⊎ ((base_off : ℕ) × (base_of pack off hdr.kind ≡ ok base_off))
  unfolding resolve_rec
  resolve-base depth off visited hdr obj h r = elim (Kind-cases hdr.kind) [
    | inl (t, k) ↦ inl (t, k)
    | inr (inl (o, k)) ↦ inr (elim (Result-cases (base_of pack off (ofs_delta o))) [
      | inl (b, q) ↦ (b, rw k q)
      | inr (e, q) ↦ absurd (ground arith)
    ])
    | inr (inr (oid, k)) ↦ inr (elim (Result-cases (base_of pack off (ref_delta oid))) [
      | inl (b, q) ↦ (b, rw k q)
      | inr (e, q) ↦ absurd (ground arith)
    ])
  ]

  -- An object that is resolved is the one at its offset, over a chain that the depth allows.
  pub resolve_rec-Denotes :
      (depth off : ℕ) (visited : List ℕ) (obj : Object)
      → resolve_rec pack depth off visited ≡ ok obj
      → (n : ℕ) × (n ≤ depth) × Denotes off n obj
  unfolding resolve_rec
  resolve_rec-Denotes zero off visited obj h =
      let (hdr, q, fresh) = resolve-header zero off visited obj h in
      elim (Kind-cases hdr.kind) [
        | inl (t, k) ↦ (
          0,
          omega arith,
          whole off hdr t obj q k (sym (resolve_whole zero off visited hdr t fresh q k) ∙ h),
        )
        | inr deltas ↦ absurd (too_deep hdr q deltas h)
      ]
    where
      too_deep :
          (hdr : ObjectHeader)
          → pack.read_object_header off ≡ ok hdr
          → ((b : ℕ) × (hdr.kind ≡ ofs_delta b)) ⊎ ((oid : Bytes) × (hdr.kind ≡ ref_delta oid))
          → resolve_rec pack zero off visited ≡ ok obj
          → ⊥
      too_deep hdr q (inl (b, k)) h = ground arith
      too_deep hdr q (inr (oid, k)) h = ground arith
  resolve_rec-Denotes (suc depth) off visited obj h =
      let (hdr, q, fresh) = resolve-header (suc depth) off visited obj h in
      elim (resolve-base depth off visited hdr obj h q) [
        | inl (t, k) ↦ (
          0,
          omega arith,
          whole off hdr t obj q k (sym (resolve_whole (suc depth) off visited hdr t fresh q k) ∙ h),
        )
        | inr (base_off, b) ↦
            let step = sym (resolve_step depth off visited hdr base_off fresh q b) ∙ h in
            elim (Result-cases (resolve_rec pack depth base_off (off ∷ visited))) [
              | inr (e, r) ↦ absurd (ground arith)
              | inl (base, r) ↦
                  let (n, low, d) = resolve_rec-Denotes depth base_off (off ∷ visited) base r in
                  (suc n, omega arith, delta off n base_off hdr base obj q b d (ground arith))
            ]
      ]

  -- The length of the chain of an offset is one.
  Denotes-depth : (off n m : ℕ) (a b : Object) → Denotes off n a → Denotes off m b → n ≡ m
  unfolding base_of
  Denotes-depth off n m a b (whole _ hdr t _ r k p) (whole _ hdr' t' _ r' k' p') = refl
  Denotes-depth off n m a b (whole _ hdr t _ r k p) (delta _ n' base_off hdr' base _ r' k' d p') =
      absurd (ground arith)
  Denotes-depth off n m a b (delta _ n' base_off hdr base _ r k d p) (whole _ hdr' t' _ r' k' p') =
      absurd (ground arith)
  Denotes-depth off n m a b (delta _ n1 off1 hdr base _ r k d p)
        (delta _ n2 off2 hdr' base' _ r' k' d' p') =
      let same : off1 ≡ off2 = ground arith in
      ap suc (Denotes-depth off1 n1 n2 base base' d (rw same d'))

  -- The offsets that are passed have longer chains.
  abbrev Longer : ℕ → List ℕ → Type 0
  Longer n visited = (o m : ℕ) (a : Object) → seen o visited ≡ true → Denotes o m a → n < m

  -- An object whose chain the depth allows is resolved, if no chain of an offset that was passed is as
  -- short: the guard against cycles never refuses it.
  resolve_rec_complete :
      (depth off n : ℕ) (visited : List ℕ) (obj : Object)
      → Denotes off n obj
      → n ≤ depth
      → Longer n visited
      → resolve_rec pack depth off visited ≡ ok obj
  unfolding seen
  resolve_rec_complete depth off n visited obj (whole _ hdr t _ r k p) low longer =
      elim (Bool-cases (seen off visited)) [
        | inl passed ↦ absurd (omega (arith, longer off 0 obj passed (whole off hdr t obj r k p)))
        | inr fresh ↦ resolve_whole depth off visited hdr t fresh r k ∙ p
      ]
  resolve_rec_complete zero off n visited obj (delta _ n' base_off hdr base _ r k d p) low longer =
      absurd (omega arith)
  resolve_rec_complete (suc depth) off n visited obj (delta _ n' base_off hdr base _ r k d p) low
        longer =
      elim (Bool-cases (seen off visited)) [
        | inl passed ↦ absurd (
            omega
              (arith, longer off (suc n') obj passed (delta off n' base_off hdr base obj r k d p)))
        | inr fresh ↦
            let next : Longer n' (off ∷ visited) = λ o m a s d'. elim (Bool-cases (off == o)) [
              | inl same ↦
                  let e : off ≡ o = ground arith in
                  omega (
                    arith,
                    Denotes-depth off m (suc n') a obj (rw e d')
                        (delta off n' base_off hdr base obj r k d p),
                  )
              | inr other ↦ omega (arith, longer o m a (ground arith) d')
            ] in
            resolve_step depth off visited hdr base_off fresh r k
            ∙ rw (resolve_rec_complete depth base_off n' (off ∷ visited) base d (omega arith) next)
                p
      ]

  -- `resolveObject` returns an object just when it is the one that the pack's format defines at the
  -- offset, over a chain of deltas that is no longer than the depth allows: the depth bounds all it
  -- does, and its guard against cycles refuses no object that has one.
  pub resolve_object_iff :
      (max_depth off : ℕ) (obj : Object)
      → (resolve_object pack max_depth off ≡ ok obj)
        ↔ ((n : ℕ) × (n ≤ max_depth) × Denotes off n obj)
  unfolding resolve_object seen
  resolve_object_iff max_depth off obj = (
    resolve_rec-Denotes max_depth off [] obj,
    λ (n, low, d). resolve_rec_complete max_depth off n [] obj d low (λ o m a s d'. cc),
  )
