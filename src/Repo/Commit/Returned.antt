-- ===== src/Repo/Commit/Returned.antt =====
-- How `Commit` ends when an attempt does not end in a conflict.
use bucketvcs.Prelude.{
  ℕ, zero, suc, ◌+◌, ◌<◌, ◌≡◌, ◌∙◌, ◌⊎◌, false, List, [], ◌∷◌, ◌++◌, arith, Bytes,
}
use bucketvcs.Storage.{StorageError, version_mismatch, ObjectStore}
use bucketvcs.Repo.Errors.{Result}
use bucketvcs.Repo.Keys.{RepoKeys}
use bucketvcs.Repo.Manifest.{Content, Texts}
use bucketvcs.Repo.Tx.{TxBody}
use bucketvcs.Repo.Commit.{
  RootView, Turn, CommitPolicy, returned, conflict, attempt, commit_loop, normalize, commit,
}
use bucketvcs.Repo.Commit.Attempt.{Retries}

module _ {S V : Type 0} (texts : Texts) (store : ObjectStore S Content V) (k : RepoKeys)
    (tx_body : TxBody) (build_body : RootView V → Content ⊎ ℕ) (turns : ℕ → Turn S)
    (patient : (j : ℕ) → (turns j).canceled_in_backoff ≡ false) where
  step-returned :
      (left i : ℕ) (policy : CommitPolicy) (orphans : List Bytes) (last : StorageError) (s s' : S)
      (r : Result Bytes)
      → attempt texts store k tx_body build_body (turns i) s ≡ (returned r, s')
      → commit_loop texts store k (suc left) policy tx_body build_body turns i orphans last s
        ≡ (r, s')
  unfolding commit_loop
  step-returned left i policy orphans last s s' r done = ground arith

  step-conflict :
      (left i : ℕ) (policy : CommitPolicy) (orphans : List Bytes) (last e : StorageError) (s : S)
      → (attempt texts store k tx_body build_body (turns i) s).0 ≡ conflict e
      → commit_loop texts store k (suc left) policy tx_body build_body turns i orphans last s
        ≡ commit_loop texts store k left policy tx_body build_body turns
            (i + 1)
            (orphans ++ (turns i).tx_id ∷ [])
            e
            (attempt texts store k tx_body build_body (turns i) s).1
  unfolding commit_loop
  step-conflict left i policy orphans last e s lost = ground (arith, patient i)

  commit_loop-first_return :
      (n left i j : ℕ) (policy : CommitPolicy) (orphans : List Bytes) (last : StorageError)
      (s u s' : S) (r : Result Bytes)
      → j ≡ i + n
      → n < left
      → Retries texts store k tx_body build_body turns i n s u
      → attempt texts store k tx_body build_body (turns j) u ≡ (returned r, s')
      → commit_loop texts store k left policy tx_body build_body turns i orphans last s ≡ (r, s')
  commit_loop-first_return n zero i j policy orphans last s u s' r at few tried done =
      absurd (omega arith)
  commit_loop-first_return zero (suc left) i j policy orphans last s u s' r at few tried done =
      let same : j ≡ i = omega arith in
      step-returned left i policy orphans last s s' r (rw (tried, ← same) done)
  commit_loop-first_return (suc n) (suc left) i j policy orphans last s u s' r at few
        (e, lost, tried) done =
      step-conflict left i policy orphans last e s lost
      ∙ commit_loop-first_return n left (i + 1) j policy (orphans ++ (turns i).tx_id ∷ []) e
          (attempt texts store k tx_body build_body (turns i) s).1 u s' r (omega arith)
          (omega arith) tried done

  -- A `Commit` ends with the result of the first attempt that does not end in a conflict, if it has the
  -- attempts for it and is not cancelled while it waits: it returns what that attempt returns, error or
  -- id, and leaves the bucket as that attempt leaves it.
  pub commit-first_return :
      (policy : CommitPolicy) (n : ℕ) (s u s' : S) (r : Result Bytes)
      → n < (normalize policy).max_retries
      → Retries texts store k tx_body build_body turns 1 n s u
      → attempt texts store k tx_body build_body (turns (1 + n)) u ≡ (returned r, s')
      → commit texts store k policy tx_body build_body turns s ≡ (r, s')
  unfolding commit
  commit-first_return policy n s u s' r few tried done =
      commit_loop-first_return n (normalize policy).max_retries 1 (1 + n) (normalize policy) []
        version_mismatch s u s' r (omega arith) few tried done
