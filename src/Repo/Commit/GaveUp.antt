-- ===== src/Repo/Commit/GaveUp.antt =====
-- How `Commit` ends when it does not publish.
use bucketvcs.Prelude.{
  ℕ, zero, suc, ◌+◌, ◌≡◌, ◌⊎◌, false, List, [], ◌∷◌, ◌++◌, arith, Bytes, append-nil, append_assoc,
}
use bucketvcs.Storage.{version_mismatch, ObjectStore}
use bucketvcs.Repo.Errors.{gave_up, err}
use bucketvcs.Repo.Keys.{RepoKeys}
use bucketvcs.Repo.Manifest.{Content, Texts}
use bucketvcs.Repo.Tx.{TxBody}
use bucketvcs.Repo.Commit.{
  RootView, Turn, CommitPolicy, conflict, attempt, commit_loop, normalize, commit,
}

module _ {S V : Type 0} (texts : Texts) (store : ObjectStore S Content V) (k : RepoKeys)
    (tx_body : TxBody) (build_body : RootView V → Content ⊎ ℕ) where
  -- The tx ids of `n` turns from number `i`.
  abbrev pub ids_from : (ℕ → Turn S) → ℕ → ℕ → List Bytes
  ids_from turns i zero = []
  ids_from turns i (suc n) = (turns i).tx_id ∷ ids_from turns (i + 1) n

  module _ (turns : ℕ → Turn S)
      (loses : (j : ℕ) (u : S)
        → (attempt texts store k tx_body build_body (turns j) u).0 ≡ conflict version_mismatch)
      (patient : (j : ℕ) → (turns j).canceled_in_backoff ≡ false) where
    commit_loop-gave_up :
        (left : ℕ) (policy : CommitPolicy) (i : ℕ) (orphans : List Bytes) (s : S)
        → (commit_loop texts store k left policy tx_body build_body turns i orphans version_mismatch
            s).0
          ≡ err (gave_up policy.max_retries (orphans ++ ids_from turns i left) version_mismatch)
    unfolding commit_loop
    commit_loop-gave_up zero policy i orphans s = rw append-nil
    commit_loop-gave_up (suc left) policy i orphans s =
        let s' = (attempt texts store k tx_body build_body (turns i) s).1 in
        ground (
          arith,
          loses i s,
          patient i,
          commit_loop-gave_up left policy (i + 1) (orphans ++ (turns i).tx_id ∷ []) s',
          append_assoc orphans ((turns i).tx_id ∷ []) (ids_from turns (i + 1) left),
        )

    -- A `Commit` of which every attempt loses its race gives up after exactly its budget of attempts,
    -- at least one, and reports the transaction ids of all of them, in order, as orphans.
    pub commit-gave_up :
        (policy : CommitPolicy) (s : S)
        → (commit texts store k policy tx_body build_body turns s).0
          ≡ err (
              gave_up
                (normalize policy).max_retries
                (ids_from turns 1 (normalize policy).max_retries)
                version_mismatch)
    unfolding commit
    commit-gave_up policy s =
        commit_loop-gave_up (normalize policy).max_retries (normalize policy) 1 [] s
