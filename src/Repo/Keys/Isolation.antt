-- ===== src/Repo/Keys/Isolation.antt =====
-- internal/repo/keys: the keys of two repositories never meet, nor do the root and the tx records.
use bucketvcs.Prelude.{
  ℕ, ◌≡◌, ◌≢◌, refl, sym, ap, ap₂, ◌∙◌, true, [], ◌∷◌, ◌++◌, arith, Bytes, codes, append_assoc,
}
use bucketvcs.Repo.Keys.{
  is_id_byte, all_id_bytes, matches_id_pattern, validate_id, RepoKeys, prefix_of, root_manifest_key,
  tx_record_key, commit_marker_key,
}

cancel : (p x y : Bytes) → p ++ x ≡ p ++ y → x ≡ y
cancel [] x y h = h
cancel (c ∷ p) x y h = cancel p x y (cc)

-- Two names of id bytes that end at a slash end at the same one.
slash_splits :
    (a b x y : Bytes)
    → all_id_bytes a ≡ true
    → all_id_bytes b ≡ true
    → a ++ b'/' ∷ x ≡ b ++ b'/' ∷ y
    → (a ≡ b) × (x ≡ y)
unfolding all_id_bytes is_id_byte
slash_splits [] [] x y ha hb h = (refl, cc)
slash_splits [] (d ∷ b) x y ha hb h = ground arith
slash_splits (c ∷ a) [] x y ha hb h = ground arith
slash_splits (c ∷ a) (d ∷ b) x y ha hb h =
    let (e, f) = slash_splits a b x y (ground arith) (ground arith) (cc) in
    let e' : c ≡ d = cc in (ap₂ ◌∷◌ e' e, f)

valid-all_id_bytes : (s : Bytes) → validate_id s ≡ true → all_id_bytes s ≡ true
unfolding validate_id matches_id_pattern
valid-all_id_bytes s h = ground arith

prefix_of-append :
    (t r x : Bytes)
    → prefix_of t r ++ x ≡ codes "tenants/" ++ (t ++ b'/' ∷ (codes "repos/" ++ (r ++ b'/' ∷ x)))
prefix_of-append t r x = simp append_assoc

-- For valid names: a key under the prefix of one repository is under the prefix of another only if
-- tenant and repository are the same, and then it is the same key behind the prefix.
pub prefix_of-isolated :
    (tenant repo tenant' repo' x y : Bytes)
    → validate_id tenant ≡ true
    → validate_id repo ≡ true
    → validate_id tenant' ≡ true
    → validate_id repo' ≡ true
    → prefix_of tenant repo ++ x ≡ prefix_of tenant' repo' ++ y
    → (tenant ≡ tenant') × (repo ≡ repo') × (x ≡ y)
prefix_of-isolated t r t' r' x y ht hr ht' hr' h =
    let tail = λ (r : Bytes) (x : Bytes). codes "repos/" ++ (r ++ b'/' ∷ x) in
    let h' =
      cancel (codes "tenants/") (t ++ b'/' ∷ tail r x) (t' ++ b'/' ∷ tail r' y)
        (sym (prefix_of-append t r x) ∙ h ∙ prefix_of-append t' r' y) in
    let (e, f) =
      slash_splits t t' (tail r x) (tail r' y) (valid-all_id_bytes t ht) (valid-all_id_bytes t' ht')
        h' in
    let (e', f') =
      slash_splits r r' x y (valid-all_id_bytes r hr) (valid-all_id_bytes r' hr')
        (cancel (codes "repos/") (r ++ b'/' ∷ x) (r' ++ b'/' ∷ y) f) in
    (e, e', f')

abbrev first_byte : Bytes → ℕ
first_byte [] = 0
first_byte (c ∷ s) = c

-- The root manifest is no transaction record and no commit marker, whatever the transaction's name.
pub root-ne-tx :
    (r : RepoKeys) (tx_id : Bytes)
    → (root_manifest_key r ≢ tx_record_key r tx_id)
      × (root_manifest_key r ≢ commit_marker_key r tx_id)
unfolding root_manifest_key tx_record_key commit_marker_key
root-ne-tx r tx_id = (
  λ h. omega (
    arith,
    ap first_byte
        (cancel r.prefix (codes "manifest/root.json") (codes "tx/" ++ (tx_id ++ codes ".json")) h),
  ),
  λ h. omega (
    arith,
    ap first_byte (
        cancel r.prefix (codes "manifest/root.json")
          (codes "tx/" ++ (tx_id ++ codes ".json") ++ codes ".commit")
          (h ∙ append_assoc r.prefix (codes "tx/" ++ (tx_id ++ codes ".json")) (codes ".commit"))),
  ),
)
