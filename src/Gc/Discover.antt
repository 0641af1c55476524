-- ===== src/Gc/Discover.antt =====
-- internal/gc/discover.go: the objects of a repository that its live set does not name. A listing is
-- the sequence of pages that the store gives, token after token.
use bucketvcs.Prelude.{
  Bool, not, ◌&&◌, List, [], ◌∷◌, ◌++◌, if◌then◌else◌, length, drop, take, ◌-◌, Bytes, codes,
  has_prefix, has_suffix, is_empty,
}
use bucketvcs.Prelude.Sort.{member, sort_by, self}
use bucketvcs.Repo.Errors.{Result, ok, err, storage_failed, ◌>>=◌}
use bucketvcs.Repo.Keys.{RepoKeys}
use bucketvcs.Storage.{StorageError}
use bucketvcs.Gc.LiveSet.{LiveSet}

pub data Pages : Type 0 where
  failed : StorageError → Pages
  last : List Bytes → Pages
  page : List Bytes → Pages → Pages

-- Every prefix has its listing.
abbrev pub Listing : Type 0
Listing = Bytes → Pages

-- The objects of all the pages.
unfoldable pub objects_of : Pages → Result (List Bytes)
objects_of (failed e) = err (storage_failed e)
objects_of (last keys) = ok keys
objects_of (page keys pages) = objects_of pages >>= λ rest. ok (keys ++ rest)

unfoldable pub excluding : LiveSet → List Bytes → List Bytes
excluding live [] = []
excluding live (key ∷ keys) =
    let rest = excluding live keys in if member key live then rest else key ∷ rest

-- `listExcludingLive`
unfoldable pub list_excluding_live : Listing → Bytes → LiveSet → Result (List Bytes)
list_excluding_live listing prefix live =
    objects_of (listing prefix) >>= λ keys. ok (excluding live keys)

-- `DiscoverCanonicalPacks`
unfoldable pub discover_canonical_packs : Listing → RepoKeys → LiveSet → Result (List Bytes)
discover_canonical_packs listing k live =
    list_excluding_live listing (k.prefix ++ codes "packs/canonical/") live

-- The loop over the kinds of indexes.
unfoldable pub list_subs : Listing → RepoKeys → LiveSet → List Bytes → Result (List Bytes)
list_subs listing k live [] = ok []
list_subs listing k live (sub ∷ subs) = do
  got ← list_excluding_live listing (k.prefix ++ (codes "indexes/" ++ sub)) live
  rest ← list_subs listing k live subs
  ok (got ++ rest)

-- `DiscoverIndexes`
unfoldable pub discover_indexes : Listing → RepoKeys → LiveSet → Result (List Bytes)
discover_indexes listing k live = list_subs listing k live (
    codes "object-map/"
    ∷ codes "commit-graph/"
    ∷ codes "reachability/"
    ∷ codes "reachability-delta/"
    ∷ [])

-- `DiscoverBundles`
unfoldable pub discover_bundles : Listing → RepoKeys → LiveSet → Result (List Bytes)
discover_bundles listing k live = list_excluding_live listing (k.prefix ++ codes "bundles/") live

-- `strings.TrimPrefix`
unfoldable pub trim_prefix : Bytes → Bytes → Bytes
trim_prefix s p = if has_prefix s p then drop (length p) s else s

-- `strings.TrimSuffix`
unfoldable pub trim_suffix : Bytes → Bytes → Bytes
trim_suffix s p = if has_suffix s p then take (length s - length p) s else s

unfoldable pub is_marker : Bytes → Bytes → Bool
is_marker prefix key = has_suffix (trim_prefix key prefix) (codes ".json.commit")

unfoldable pub is_record : Bytes → Bytes → Bool
is_record prefix key =
    not (is_marker prefix key) && has_suffix (trim_prefix key prefix) (codes ".json")

-- The sets of the listing, in which a key that is listed twice stands once.
unfoldable pub keep_if : (Bytes → Bool) → List Bytes → List Bytes
keep_if test [] = []
keep_if test (key ∷ keys) =
    let rest = keep_if test keys in
    if test key then (if member key rest then rest else key ∷ rest) else rest

-- What `DiscoverTxRecords` returns besides an error.
pub record TxKeys : Type 0 where
  pub candidates : List Bytes
  pub orphan_markers : List Bytes
  pub armed : Bool

-- The loops over the two sets.
unfoldable pub tx_keys_of : LiveSet → List Bytes → List Bytes → TxKeys
tx_keys_of live records markers = record {
  candidates = sort_by self (
      keep_if (λ key. not (member key live) && not (member (key ++ codes ".commit") markers))
        records);
  orphan_markers =
      sort_by self
        (keep_if (λ key. not (member (trim_suffix key (codes ".commit")) records)) markers);
  armed = not (is_empty markers);
}

-- `DiscoverTxRecords`
unfoldable pub discover_tx_records : Listing → RepoKeys → LiveSet → Result TxKeys
discover_tx_records listing k live =
    let prefix = k.prefix ++ codes "tx/" in
    objects_of (listing prefix) >>= λ keys.
    ok (tx_keys_of live (keep_if (is_record prefix) keys) (keep_if (is_marker prefix) keys))
