-- ===== src/Repo/Memory.antt =====
-- A bucket in memory, for the runs of the repository engine.
use bucketvcs.Prelude.{
  ◌≡◌, ◌≢◌, inl, inr, Bool, true, false, [], Option, none, some, arith, if◌then◌else◌, Bytes,
  Option-cases, eqb_iff, eqb_refl,
}
use bucketvcs.Prelude.Assoc.{Assoc, lookup, insert, remove, lookup-insert, lookup-remove}
use native.Mathlib.Decide.{ℕ_discrete}
use bucketvcs.Storage.{
  not_found, already_exists, version_mismatch, ObjectStore, Deletes, ok as stored, err as refused,
  Result as Stored,
}
use bucketvcs.Repo.Manifest.{Content}

unfoldable pub discrete_content : Discrete Content
discrete_content = hlevel ℕ_discrete

unfoldable pub go_same : {P : Type 0} → Dec P → Bool
go_same (yes _) = true
go_same (no _) = false

go_same_eq : {P : Type 0} (d : Dec P) → go_same d ≡ true → P
unfolding go_same
go_same_eq (yes e) h = e
go_same_eq (no ne) h = cc

unfoldable pub same_content : Content → Content → Bool
unfolding go_same discrete_content
same_content a b = go_same (discrete_content a b)

pub same_content_eq : (a b : Content) → same_content a b ≡ true → a ≡ b
unfolding same_content
same_content_eq a b h = go_same_eq (discrete_content a b) h

-- A bucket in memory, whose version tokens are the contents.
abbrev pub Memory : Type 0
Memory = Assoc Content

abbrev pub found : Option Content → Stored (Content × Content)
found none = refused not_found
found (some c) = stored (c, c)

abbrev pub memory_get : Memory → Bytes → Stored (Content × Content)
memory_get s k = found (lookup k s)

unfoldable pub memory_absent : Memory → Bytes → Content → Stored Content × Memory
memory_absent s k b = elim (lookup k s) [
  | none ↦ (stored b, insert k b s)
  | some _ ↦ (refused already_exists, s)
]

unfoldable pub memory_matches : Memory → Bytes → Content → Content → Stored Content × Memory
memory_matches s k v b = elim (lookup k s) [
  | none ↦ (refused version_mismatch, s)
  | some c ↦ if same_content c v then (stored b, insert k b s) else (refused version_mismatch, s)
]

pub memory_absent-stored :
    (s : Memory) (k : Bytes) (b v : Content)
    → (memory_absent s k b).0 ≡ stored v
    → (memory_get s k ≡ refused not_found) × (memory_get (memory_absent s k b).1 k ≡ stored (b, v))
unfolding memory_absent
memory_absent-stored s k b v h = ground (arith, lookup-insert k k b s, eqb_refl k)

pub memory_matches-stored :
    (s : Memory) (k : Bytes) (v b w : Content)
    → (memory_matches s k v b).0 ≡ stored w
    → memory_get (memory_matches s k v b).1 k ≡ stored (b, w)
unfolding memory_matches
memory_matches-stored s k v b w h = ground (arith, lookup-insert k k b s, eqb_refl k)

pub memory_matches_held :
    (s : Memory) (k : Bytes) (v b w : Content)
    → (memory_matches s k v b).0 ≡ stored w
    → (c : Content) × (memory_get s k ≡ stored (c, v))
unfolding memory_matches
memory_matches_held s k v b w h = elim (Option-cases (lookup k s)) [
  | inl q ↦ absurd (ground arith)
  | inr (c, q) ↦ (v, ground (arith, same_content_eq c v))
]

pub memory_absent_refused :
    (s : Memory) (k : Bytes) (b : Content)
    → (memory_absent s k b).0 ≡ refused already_exists
    → memory_get (memory_absent s k b).1 k ≡ memory_get s k
unfolding memory_absent
memory_absent_refused s k b h = ground arith

pub memory_absent_frame :
    (s : Memory) (k j : Bytes) (b : Content)
    → k ≢ j
    → memory_get (memory_absent s k b).1 j ≡ memory_get s j
unfolding memory_absent
memory_absent_frame s k j b ne = ground (arith, lookup-insert k j b s, eqb_iff k j)

pub memory_matches_refused :
    (s : Memory) (k : Bytes) (v b : Content)
    → (memory_matches s k v b).0 ≡ refused version_mismatch
    → memory_get (memory_matches s k v b).1 k ≡ memory_get s k
unfolding memory_matches
memory_matches_refused s k v b h = ground arith

pub memory_matches_frame :
    (s : Memory) (k j : Bytes) (v b : Content)
    → k ≢ j
    → memory_get (memory_matches s k v b).1 j ≡ memory_get s j
unfolding memory_matches
memory_matches_frame s k j v b ne = ground (arith, lookup-insert k j b s, eqb_iff k j)

abbrev pub memory : ObjectStore Memory Content Content
memory = record {
  get = memory_get;
  put_if_absent = memory_absent;
  put_if_version_matches = memory_matches;
  token_text = λ v. [];
  absent_stored = memory_absent-stored;
  absent_refused = memory_absent_refused;
  absent_frame = memory_absent_frame;
  matches_stored = memory_matches-stored;
  matches_held = memory_matches_held;
  matches_refused = memory_matches_refused;
  matches_frame = memory_matches_frame;
}

pub memory_token_names :
    (s u : Memory) (key : Bytes) (c d v : Content)
    → memory_get s key ≡ stored (c, v)
    → memory_get u key ≡ stored (d, v)
    → c ≡ d
memory_token_names s u key c d v g h = elim (Option-cases (lookup key s)) [
  | inl q ↦ absurd (ground arith)
  | inr (x, q) ↦ elim (Option-cases (lookup key u)) [
    | inl r ↦ absurd (ground arith)
    | inr (y, r) ↦ ground arith
  ]
]

abbrev pub version_of : Option Content → Stored Content
version_of none = refused not_found
version_of (some c) = stored c

unfoldable pub memory_delete : Memory → Bytes → Content → Stored (Unit {0}) × Memory
memory_delete s k v = elim (lookup k s) [
  | none ↦ (refused not_found, s)
  | some c ↦ if same_content c v then (stored tt, remove k s) else (refused version_mismatch, s)
]

pub memory_delete_held :
    (s : Memory) (k : Bytes) (v : Content)
    → (memory_delete s k v).0 ≡ stored tt
    → (c : Content) × (memory_get s k ≡ stored (c, v))
unfolding memory_delete
memory_delete_held s k v h = elim (Option-cases (lookup k s)) [
  | inl q ↦ absurd (ground arith)
  | inr (c, q) ↦ (v, ground (arith, same_content_eq c v))
]

pub memory_delete_removed :
    (s : Memory) (k : Bytes) (v : Content)
    → (memory_delete s k v).0 ≡ stored tt
    → memory_get (memory_delete s k v).1 k ≡ refused not_found
unfolding memory_delete
memory_delete_removed s k v h = ground (arith, lookup-remove k k s, eqb_refl k)

pub memory_delete_frame :
    (s : Memory) (k j : Bytes) (v : Content)
    → k ≢ j
    → memory_get (memory_delete s k v).1 j ≡ memory_get s j
unfolding memory_delete
memory_delete_frame s k j v ne = ground (arith, lookup-remove k j s, eqb_iff k j)

abbrev pub memory_removal : Deletes Memory Content Content memory
memory_removal = record {
  head = λ s k. (version_of (lookup k s), s);
  delete_if_version_matches = memory_delete;
  head_frame = λ s k j i. memory_get s j;
  delete_held = memory_delete_held;
  delete_removed = memory_delete_removed;
  delete_frame = memory_delete_frame;
}
