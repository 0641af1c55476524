-- ===== src/Repo/Errors.antt =====
-- internal/repo/repoerrs, and the other errors of the repository engine.
use bucketvcs.Prelude.{ℕ, List, ◌≡◌, refl, ◌⊎◌, inl, inr, Bytes}
use bucketvcs.Storage.{StorageError}

pub data RepoError : Type 0 where
  repo_exists repo_not_found unsupported_schema invalid_tenant_id invalid_repo_id : RepoError
  object_format_not_supported parse_failed not_an_object reserved_key key_collision : RepoError
  canceled invalid_manifest shard_corrupt lookup_not_in_stage nil_map : RepoError
  callback_failed : ℕ → RepoError
  -- `CommitGaveUpError`: the attempts, the orphan tx ids, the last error.
  gave_up : ℕ → List Bytes → StorageError → RepoError
  storage_failed : StorageError → RepoError

pub data Result {ℓ} (A : Type ℓ) : Type ℓ where
  ok : A → Result A
  err : RepoError → Result A

module _ {ℓ κ} {A : Type ℓ} {B : Type κ} where
  infixl 5 ◌>>=◌
  abbrev pub ◌>>=◌ : Result A → (A → Result B) → Result B
  err reason >>= next = err reason
  ok value >>= next = next value

module _ {κ} {B : Type κ} where
  infixl 5 ◌>>◌
  -- For a check, whose success has no value.
  abbrev pub ◌>>◌ : Result (Unit {0}) → Result B → Result B
  check >> rest = check >>= λ _. rest

pub Result-cases {ℓ} :
    {A : Type ℓ} (r : Result A) → ((a : A) × (r ≡ ok a)) ⊎ ((e : RepoError) × (r ≡ err e))
Result-cases (ok a) = inl (a, refl)
Result-cases (err e) = inr (e, refl)
