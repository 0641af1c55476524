-- ===== src/Gc/Unreachable.antt =====
-- What the mark phase of internal/gc discovers is unreachable, but for the orphan markers.
use bucketvcs.Prelude.{
  ◌≡◌, refl, inl, inr, Bool, true, false, List, [], ◌∷◌, ◌++◌, arith, Bytes, codes, lex_lt,
  Bool-cases, All, All-append,
}
use mathlib.Core.Path.{subst}
use bucketvcs.Prelude.Sort.{member, sort_by, self, insert_by}
use bucketvcs.Repo.Errors.{Result, ok, err, ◌>>=◌}
use bucketvcs.Repo.Keys.{RepoKeys}
use bucketvcs.Gc.LiveSet.{LiveSet}
use bucketvcs.Gc.Discover.{
  Listing, TxKeys, excluding, list_excluding_live, discover_tx_records, keep_if, tx_keys_of,
  list_subs, discover_canonical_packs, discover_indexes, discover_bundles, objects_of, is_record,
  is_marker,
}
use bucketvcs.Gc.Mark.{Found, discover_all}

-- The live set does not name the key.
abbrev pub Unreachable : LiveSet → Bytes → Type 0
Unreachable live key = member key live ≡ false

excluding-Unreachable :
    (live : LiveSet) (keys : List Bytes) → All (Unreachable live) (excluding live keys)
unfolding excluding
excluding-Unreachable live [] = tt
excluding-Unreachable live (key ∷ keys) = elim (Bool-cases (member key live)) [
  | inl t ↦ rw t (excluding-Unreachable live keys)
  | inr f ↦ rw f (f, excluding-Unreachable live keys)
]

pub >>=-ok {ℓ κ} :
    {A : Type ℓ} {B : Type κ} (m : Result A) (f : A → Result B) (b : B)
    → (m >>= f) ≡ ok b
    → (a : A) × (m ≡ ok a) × (f a ≡ ok b)
>>=-ok (ok a) f b h = (a, refl, h)
>>=-ok (err e) f b h = cc

pub ok-injective {ℓ} : {A : Type ℓ} (a b : A) → ok a ≡ ok b → a ≡ b
ok-injective a b h = cc

list_excluding_live-Unreachable :
    (listing : Listing) (prefix : Bytes) (live : LiveSet) (keys : List Bytes)
    → list_excluding_live listing prefix live ≡ ok keys
    → All (Unreachable live) keys
unfolding list_excluding_live
list_excluding_live-Unreachable listing prefix live keys h =
    let (all, q, e) = >>=-ok (objects_of (listing prefix)) (λ ks. ok (excluding live ks)) keys h in
    subst (All (Unreachable live)) (ok-injective _ _ e) (excluding-Unreachable live all)

list_subs-Unreachable :
    (listing : Listing) (k : RepoKeys) (live : LiveSet) (subs : List Bytes) (keys : List Bytes)
    → list_subs listing k live subs ≡ ok keys
    → All (Unreachable live) keys
unfolding list_subs
list_subs-Unreachable listing k live [] keys h =
    subst (All (Unreachable live)) (ok-injective _ _ h) tt
list_subs-Unreachable listing k live (sub ∷ subs) keys h =
    let prefix = k.prefix ++ (codes "indexes/" ++ sub) in
    let (got, q, h') =
      >>=-ok (list_excluding_live listing prefix live)
        (λ got. list_subs listing k live subs >>= λ rest. ok (got ++ rest)) keys h in
    let (rest, r, e) = >>=-ok (list_subs listing k live subs) (λ rest. ok (got ++ rest)) keys h' in
    subst (All (Unreachable live)) (ok-injective _ _ e) (
      All-append (Unreachable live) got rest
        (list_excluding_live-Unreachable listing prefix live got q)
        (list_subs-Unreachable listing k live subs rest r))

keep_if-All :
    (P : Bytes → Type 0) (test : Bytes → Bool) (keys : List Bytes)
    → ((key : Bytes) → test key ≡ true → P key)
    → All P (keep_if test keys)
unfolding keep_if
keep_if-All P test [] p = tt
keep_if-All P test (key ∷ keys) p = elim (Bool-cases (test key)) [
  | inr f ↦ rw f (keep_if-All P test keys p)
  | inl t ↦ elim (Bool-cases (member key (keep_if test keys))) [
    | inl d ↦ rw (t, d) (keep_if-All P test keys p)
    | inr n ↦ rw (t, n) (p key t, keep_if-All P test keys p)
  ]
]

insert_by-All :
    (P : Bytes → Type 0) (x : Bytes) (xs : List Bytes)
    → P x
    → All P xs
    → All P (insert_by self x xs)
unfolding insert_by
insert_by-All P x [] p a = (p, tt)
insert_by-All P x (y ∷ ys) p (q, a) = elim (Bool-cases (lex_lt (self y) (self x))) [
  | inl t ↦ rw t (q, insert_by-All P x ys p a)
  | inr f ↦ rw f (p, (q, a))
]

sort_by-All : (P : Bytes → Type 0) (xs : List Bytes) → All P xs → All P (sort_by self xs)
unfolding sort_by
sort_by-All P [] a = tt
sort_by-All P (x ∷ xs) (p, a) = insert_by-All P x (sort_by self xs) p (sort_by-All P xs a)

-- The keys that a mark found, but for the orphan markers, are not live.
abbrev pub FoundUnreachable : LiveSet → Found → Type 0
FoundUnreachable live f =
    All (Unreachable live) f.packs
    × All (Unreachable live) f.indexes
    × All (Unreachable live) f.txs.candidates
    × All (Unreachable live) f.bundles

tx_keys-Unreachable :
    (listing : Listing) (k : RepoKeys) (live : LiveSet) (txs : TxKeys)
    → discover_tx_records listing k live ≡ ok txs
    → All (Unreachable live) txs.candidates
unfolding discover_tx_records tx_keys_of
tx_keys-Unreachable listing k live txs h =
    let prefix = k.prefix ++ codes "tx/" in
    let (keys, q, e) =
      >>=-ok (objects_of (listing prefix))
        (λ keys.
          ok (tx_keys_of live (keep_if (is_record prefix) keys) (keep_if (is_marker prefix) keys)))
        txs h in
    subst (λ (x : TxKeys). All (Unreachable live) x.candidates) (ok-injective _ _ e)
      (sort_by-All (Unreachable live) _
        (keep_if-All (Unreachable live) _ _ (λ key t. ground arith)))

pub discover_all-Unreachable :
    (listing : Listing) (k : RepoKeys) (live : LiveSet) (found : Found)
    → discover_all listing k live ≡ ok found
    → FoundUnreachable live found
unfolding discover_all discover_canonical_packs discover_indexes discover_bundles
discover_all-Unreachable listing k live found h =
    let (packs, p, h1) = >>=-ok (discover_canonical_packs listing k live) _ found h in
    let (indexes, i, h2) = >>=-ok (discover_indexes listing k live) _ found h1 in
    let (txs, t, h3) = >>=-ok (discover_tx_records listing k live) _ found h2 in
    let (bundles, b, h4) = >>=-ok (discover_bundles listing k live) _ found h3 in
    subst (FoundUnreachable live) (ok-injective _ found h4) (
      list_excluding_live-Unreachable listing _ live packs p,
      list_subs-Unreachable listing k live _ indexes i,
      tx_keys-Unreachable listing k live txs t,
      list_excluding_live-Unreachable listing _ live bundles b,
    )
