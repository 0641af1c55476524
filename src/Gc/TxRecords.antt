-- ===== src/Gc/TxRecords.antt =====
-- Which transaction records and which commit markers the mark phase of internal/gc takes for orphans.
use bucketvcs.Prelude.{
  ◌∙◌, ◌≡◌, refl, Bool, true, false, not, ◌&&◌, List, [], ◌∷◌, ◌++◌, arith, Bytes, codes, eqb,
  eqb_iff, is_empty,
}
use mathlib.Core.Path.{subst}
use bucketvcs.Prelude.Sort.{member, member-sort, sort_by, self}
use bucketvcs.Repo.Errors.{ok}
use bucketvcs.Repo.Keys.{RepoKeys}
use bucketvcs.Gc.LiveSet.{LiveSet}
use bucketvcs.Gc.Discover.{
  Listing, TxKeys, objects_of, is_record, is_marker, keep_if, trim_suffix, tx_keys_of,
  discover_tx_records,
}
use bucketvcs.Gc.Unreachable.{>>=-ok, ok-injective}

test-eq : (test : Bytes → Bool) (j key : Bytes) → eqb j key ≡ true → test j ≡ test key
test-eq test j key h = rw ((eqb_iff j key).0 h) refl

member-eq : (j key : Bytes) (keys : List Bytes) → eqb j key ≡ true → member j keys ≡ member key keys
member-eq j key keys h = rw ((eqb_iff j key).0 h) refl

member-keep_if :
    (test : Bytes → Bool) (key : Bytes) (keys : List Bytes)
    → member key (keep_if test keys) ≡ (member key keys && test key)
unfolding member keep_if
member-keep_if test key [] = refl
member-keep_if test key (j ∷ keys) = ground (
  arith,
  member-keep_if test key keys,
  eqb_iff j key,
  test-eq test j key,
  member-eq j key (keep_if test keys),
)

member-filtered :
    (test : Bytes → Bool) (key : Bytes) (keys : List Bytes)
    → member key (sort_by self (keep_if test keys)) ≡ (member key keys && test key)
member-filtered test key keys =
    rw (member-sort key (keep_if test keys)) (member-keep_if test key keys)

keep_if-nonempty :
    (test : Bytes → Bool) (key : Bytes) (keys : List Bytes)
    → member key keys ≡ true
    → test key ≡ true
    → is_empty (keep_if test keys) ≡ false
unfolding is_empty member
keep_if-nonempty test key keys m t =
    nonempty (keep_if test keys) (member-keep_if test key keys ∙ rw (m, t) refl)
  where
    nonempty : (xs : List Bytes) → member key xs ≡ true → is_empty xs ≡ false
    nonempty [] h = cc
    nonempty (x ∷ xs) h = refl

-- What a mark says of the transaction records, of the objects that were listed.
abbrev pub SaysOf : Bytes → LiveSet → List Bytes → TxKeys → Bytes → Type 0
SaysOf prefix live keys txs key =
    (member key txs.candidates ≡ (
      member key keys
      && is_record prefix key
      && not (member key live)
      && not (member (key ++ codes ".commit") keys && is_marker prefix (key ++ codes ".commit"))))
    × (member key txs.orphan_markers ≡ (
        member key keys
        && is_marker prefix key
        && not (
            member (trim_suffix key (codes ".commit")) keys
            && is_record prefix (trim_suffix key (codes ".commit")))))
    × (member key keys ≡ true → is_marker prefix key ≡ true → txs.armed ≡ true)

tx_keys-SaysOf :
    (prefix : Bytes) (live : LiveSet) (keys : List Bytes) (key : Bytes)
    → SaysOf prefix live keys
        (tx_keys_of live (keep_if (is_record prefix) keys) (keep_if (is_marker prefix) keys))
        key
unfolding tx_keys_of
tx_keys-SaysOf prefix live keys key =
    let records = keep_if (is_record prefix) keys in
    let markers = keep_if (is_marker prefix) keys in
    let marked = key ++ codes ".commit" in
    let bare = trim_suffix key (codes ".commit") in
    (
      member-filtered (λ j. not (member j live) && not (member (j ++ codes ".commit") markers)) key
            records
          ∙ ground (
            arith,
            member-keep_if (is_record prefix) key keys,
            member-keep_if (is_marker prefix) marked keys,
          ),
      member-filtered (λ j. not (member (trim_suffix j (codes ".commit")) records)) key markers
          ∙ ground (
            arith,
            member-keep_if (is_marker prefix) key keys,
            member-keep_if (is_record prefix) bare keys,
          ),
      λ m t. rw (keep_if-nonempty (is_marker prefix) key keys m t),
    )

-- Over the objects that were listed: the candidates are exactly the listed records that are not live
-- and have no listed marker, the orphan markers exactly the listed markers whose record is not listed,
-- and a marker in the listing arms the sweep of records.
pub discover_tx_records-SaysOf :
    (listing : Listing) (k : RepoKeys) (live : LiveSet) (txs : TxKeys)
    → discover_tx_records listing k live ≡ ok txs
    → (keys : List Bytes) × (objects_of (listing (k.prefix ++ codes "tx/")) ≡ ok keys)
      × ((key : Bytes) → SaysOf (k.prefix ++ codes "tx/") live keys txs key)
unfolding discover_tx_records
discover_tx_records-SaysOf listing k live txs h =
    let prefix = k.prefix ++ codes "tx/" in
    let (keys, q, e) = >>=-ok (objects_of (listing prefix)) _ txs h in
    (
      keys,
      q,
      subst (λ (x : TxKeys). (key : Bytes) → SaysOf prefix live keys x key) (ok-injective _ txs e)
          (tx_keys-SaysOf prefix live keys),
    )
