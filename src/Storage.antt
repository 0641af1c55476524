-- ===== src/Storage.antt =====
-- internal/storage: the contract of an object store, its errors and its version tokens.
pub mod Localfs
use bucketvcs.Prelude.{
  ℕ, ◌≡◌, refl, ◌≢◌, ◌⊎◌, inl, inr, Bool, ◌&&◌, Bytes, arith, eqb, eqb_iff, ◌↔◌,
}

-- The sentinels of errors.go that the modelled code tells apart, the errors of localfs, and `io` for
-- an error of the operating system.
pub data StorageError : Type 0 where
  not_found already_exists version_mismatch invalid_argument not_supported : StorageError
  closed unsupported_sidecar_schema io : StorageError

pub data Result {ℓ} (A : Type ℓ) : Type ℓ where
  ok : A → Result A
  err : StorageError → Result A

module _ {ℓ κ} {A : Type ℓ} {B : Type κ} where
  infixl 5 ◌>>=◌
  abbrev pub ◌>>=◌ : Result A → (A → Result B) → Result B
  err reason >>= next = err reason
  ok value >>= next = next value

module _ {κ} {B : Type κ} where
  infixl 5 ◌>>◌
  -- For a check, whose success has no value.
  abbrev pub ◌>>◌ : Result (Unit {0}) → Result B → Result B
  check >> rest = check >>= λ _. rest

pub Result-cases {ℓ} :
    {A : Type ℓ} (r : Result A) → ((a : A) × (r ≡ ok a)) ⊎ ((e : StorageError) × (r ≡ err e))
Result-cases (ok a) = inl (a, refl)
Result-cases (err e) = inr (e, refl)

-- `VersionKind`
pub data VersionKind : Type 0 where
  unknown etag generation version_id opaque_kind : VersionKind

-- `ObjectVersion`
pub record ObjectVersion : Type 0 where
  pub provider : Bytes
  pub token : Bytes
  pub kind : VersionKind

unfoldable pub same_kind : VersionKind → VersionKind → Bool
same_kind unknown unknown = Bool.true
same_kind etag etag = Bool.true
same_kind generation generation = Bool.true
same_kind version_id version_id = Bool.true
same_kind opaque_kind opaque_kind = Bool.true
same_kind _ _ = Bool.false

-- `==` on the struct
unfoldable pub same_version : ObjectVersion → ObjectVersion → Bool
unfolding same_kind
same_version a b = eqb a.provider b.provider && eqb a.token b.token && same_kind a.kind b.kind

pub same_version_iff : (a b : ObjectVersion) → (same_version a b ≡ Bool.true) ↔ (a ≡ b)
unfolding same_version
same_version_iff a b = ground (arith, eqb_iff a.provider b.provider, eqb_iff a.token b.token)

-- The contract of `ObjectStore` that the repository engine uses. `S` is the state of the bucket, `B`
-- a body, `V` a version token, which callers only compare. A call that fails may still have changed
-- its own key (an adapter may commit and then report an error), but not on a refused precondition.
pub record ObjectStore (S B V : Type 0) : Type 0 where
  pub get : S → Bytes → Result (B × V)
  pub put_if_absent : S → Bytes → B → Result V × S
  pub put_if_version_matches : S → Bytes → V → B → Result V × S
  pub token_text : V → Bytes
  pub absent_stored :
      (s : S) (k : Bytes) (b : B) (v : V)
      → (put_if_absent s k b).0 ≡ ok v
      → (get s k ≡ err not_found) × (get (put_if_absent s k b).1 k ≡ ok (b, v))
  pub absent_refused :
      (s : S) (k : Bytes) (b : B)
      → (put_if_absent s k b).0 ≡ err already_exists
      → get (put_if_absent s k b).1 k ≡ get s k
  pub absent_frame : (s : S) (k j : Bytes) (b : B) → k ≢ j → get (put_if_absent s k b).1 j ≡ get s j
  pub matches_stored :
      (s : S) (k : Bytes) (v : V) (b : B) (w : V)
      → (put_if_version_matches s k v b).0 ≡ ok w
      → get (put_if_version_matches s k v b).1 k ≡ ok (b, w)
  pub matches_held :
      (s : S) (k : Bytes) (v : V) (b : B) (w : V)
      → (put_if_version_matches s k v b).0 ≡ ok w
      → (c : B) × (get s k ≡ ok (c, v))
  pub matches_refused :
      (s : S) (k : Bytes) (v : V) (b : B)
      → (put_if_version_matches s k v b).0 ≡ err version_mismatch
      → get (put_if_version_matches s k v b).1 k ≡ get s k
  pub matches_frame :
      (s : S) (k j : Bytes) (v : V) (b : B)
      → k ≢ j
      → get (put_if_version_matches s k v b).1 j ≡ get s j

-- What the collector asks of a store besides: the version of an object without its body, and a removal
-- under a condition. As above, a call that fails may have changed its own key.
pub record Deletes (S B V : Type 0) (store : ObjectStore S B V) : Type 0 where
  pub head : S → Bytes → Result V × S
  pub delete_if_version_matches : S → Bytes → V → Result (Unit {0}) × S
  pub head_frame : (s : S) (k j : Bytes) → store.get (head s k).1 j ≡ store.get s j
  pub delete_held :
      (s : S) (k : Bytes) (v : V)
      → (delete_if_version_matches s k v).0 ≡ ok tt
      → (c : B) × (store.get s k ≡ ok (c, v))
  pub delete_removed :
      (s : S) (k : Bytes) (v : V)
      → (delete_if_version_matches s k v).0 ≡ ok tt
      → store.get (delete_if_version_matches s k v).1 k ≡ err not_found
  pub delete_frame :
      (s : S) (k j : Bytes) (v : V)
      → k ≢ j
      → store.get (delete_if_version_matches s k v).1 j ≡ store.get s j
