-- ===== src/Repo/RefStore/Grouping.antt =====
-- What the updates of a shard are, and what applying them does.
use bucketvcs.Prelude.{
  ◌≡◌, refl, ◌∙◌, inl, inr, true, false, [], ◌∷◌, Option, none, some, arith, if◌then◌else◌, Bytes,
  eqb, Bool-cases, eqb_iff,
}
use bucketvcs.Prelude.Assoc.{Assoc, lookup, insert, remove, lookup-insert, lookup-remove, map_laws}
use bucketvcs.Repo.RefStore.{
  deletes, apply_updates, or_empty, has_upsert, Sha256, shard_key, group_updates,
}

-- Each key stands once, as in a Go map.
abbrev pub DistinctKeys {ℓ} : {V : Type ℓ} → Assoc V → Type ℓ
DistinctKeys [] = Unit
DistinctKeys ((k, v) ∷ m) = (lookup k m ≡ none) × DistinctKeys m

insert-DistinctKeys {ℓ} :
    {V : Type ℓ} (k : Bytes) (v : V) (m : Assoc V) → DistinctKeys m → DistinctKeys (insert k v m)
unfolding insert lookup
insert-DistinctKeys k v [] d = (refl, tt)
insert-DistinctKeys k v ((j, w) ∷ m) (fresh, d) = elim (Bool-cases (eqb j k)) [
  | inl same ↦ rw same (rw (← (eqb_iff j k).0 same) fresh, d)
  | inr other ↦ rw other (
    lookup-insert k j v m ∙ ground (arith, eqb_iff k j, eqb_iff j k),
    insert-DistinctKeys k v m d,
  )
]

-- The value of a name after an update of it.
abbrev pub updated : Option Bytes → Option Bytes → Option Bytes
updated none old = old
updated (some oid) old = if deletes oid then none else some oid

pub apply_updates_lem :
    (n : Bytes) (us refs : Assoc Bytes)
    → DistinctKeys us
    → lookup n (apply_updates us refs) ≡ updated (lookup n us) (lookup n refs)
unfolding apply_updates lookup
apply_updates_lem n [] refs d = refl
apply_updates_lem n ((m, oid) ∷ us) refs (fresh, d) = ground (
  arith,
  eqb_iff m n,
  apply_updates_lem n us (if deletes oid then remove m refs else insert m oid refs) d,
  lookup-insert m n oid refs,
  lookup-remove m n refs,
)

pub has_upsert-none :
    (n oid : Bytes) (us : Assoc Bytes)
    → has_upsert us ≡ false
    → lookup n us ≡ some oid
    → deletes oid ≡ true
unfolding has_upsert lookup
has_upsert-none n oid [] h q = cc
has_upsert-none n oid ((m, o) ∷ us) h q = ground (arith, has_upsert-none n oid us)

module _ (sha : Sha256) where
  -- Every group is a map.
  abbrev DistinctGroups : Assoc (Assoc Bytes) → Type 0
  DistinctGroups groups = (sid : Bytes) → DistinctKeys (or_empty (lookup sid groups))

  group_step-DistinctGroups :
      (name oid : Bytes) (acc : Assoc (Assoc Bytes))
      → DistinctGroups acc
      → DistinctGroups (
          insert
            (shard_key sha name)
            (insert name oid (or_empty (lookup (shard_key sha name) acc)))
            acc)
  unfolding or_empty
  group_step-DistinctGroups name oid acc d sid =
      let g = insert name oid (or_empty (lookup (shard_key sha name) acc)) in
      rw (lookup-insert (shard_key sha name) sid g acc)
        (elim (Bool-cases (eqb (shard_key sha name) sid)) [
          | inl same ↦ rw same (
              insert-DistinctKeys name oid (or_empty (lookup (shard_key sha name) acc))
                (d (shard_key sha name)))
          | inr other ↦ rw other (d sid)
        ])

  pub group_updates-DistinctGroups :
      (us : Assoc Bytes) (acc : Assoc (Assoc Bytes))
      → DistinctGroups acc
      → DistinctGroups (group_updates sha us acc)
  unfolding group_updates
  group_updates-DistinctGroups [] acc d = d
  group_updates-DistinctGroups ((name, oid) ∷ us) acc d =
      group_updates-DistinctGroups us
        (insert (shard_key sha name) (insert name oid (or_empty (lookup (shard_key sha name) acc)))
          acc)
        (group_step-DistinctGroups name oid acc d)

  group_step_lem :
      (n name oid : Bytes) (acc : Assoc (Assoc Bytes))
      → lookup n (
          or_empty (
            lookup (shard_key sha n) (
              insert
                (shard_key sha name)
                (insert name oid (or_empty (lookup (shard_key sha name) acc)))
                acc)))
        ≡ (if eqb name n then some oid else lookup n (or_empty (lookup (shard_key sha n) acc)))
  unfolding or_empty
  group_step_lem n name oid acc = elim (Bool-cases (eqb name n)) [
    | inl same ↦ rw same (rw (← (eqb_iff name n).0 same) (simp map_laws))
    | inr other ↦ rw other (
        ground (
          arith,
          lookup-insert (shard_key sha name) (shard_key sha n)
              (insert name oid (or_empty (lookup (shard_key sha name) acc))) acc,
          lookup-insert name n oid (or_empty (lookup (shard_key sha name) acc)),
          eqb_iff (shard_key sha name) (shard_key sha n),
        ))
  ]

  pub group_updates_lem :
      (n : Bytes) (us : Assoc Bytes) (acc : Assoc (Assoc Bytes))
      → DistinctKeys us
      → lookup n (or_empty (lookup (shard_key sha n) (group_updates sha us acc)))
        ≡ elim (lookup n us) [
          | some oid ↦ some oid
          | none ↦ lookup n (or_empty (lookup (shard_key sha n) acc))
        ]
  unfolding group_updates lookup
  group_updates_lem n [] acc d = refl
  group_updates_lem n ((name, oid) ∷ us) acc (fresh, d) =
      let acc' =
        insert (shard_key sha name) (insert name oid (or_empty (lookup (shard_key sha name) acc)))
          acc in
      ground (arith, eqb_iff name n, group_updates_lem n us acc' d, group_step_lem n name oid acc)
