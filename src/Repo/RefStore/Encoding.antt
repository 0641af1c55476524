-- ===== src/Repo/RefStore/Encoding.antt =====
-- Which refs of internal/repo/refstore are valid UTF-8: those that encoding/json reads, and those that are
-- made from them by valid updates.
use bucketvcs.Prelude.{
  ◌≡◌, refl, inl, inr, [], ◌∷◌, some, arith, if◌then◌else◌, Bytes, eqb, Bool-cases, All,
}
use mathlib.Core.Path.{subst}
use bucketvcs.Prelude.Assoc.{Assoc, lookup, insert, remove, lookup-insert}
use bucketvcs.Prelude.Sort.{keys_of}
use bucketvcs.Prelude.Utf8.{to_utf8, utf8_from, IsUtf8, to_utf8-IsUtf8}
use bucketvcs.Repo.Errors.{ok, Result-cases}
use bucketvcs.Repo.Manifest.{
  Json, null, num, str, format_value, other, Content, object, null_text, text,
}
use bucketvcs.Repo.RefStore.{
  at, deletes, apply_updates, unmarshal_entries, unmarshal_refs, or_empty, Sha256, shard_key,
  group_updates,
}

-- The names and the ids are valid UTF-8.
abbrev pub AllUtf8 : Assoc Bytes → Type 0
AllUtf8 = All (λ (p : Bytes × Bytes). IsUtf8 p.0 × IsUtf8 p.1)

none-IsUtf8 : IsUtf8 []
unfolding to_utf8 utf8_from
none-IsUtf8 = refl

at-cons :
    (k v : Bytes) (refs : Assoc Bytes) (n : Bytes)
    → at ((k, v) ∷ refs) n ≡ (if eqb k n then v else at refs n)
unfolding at lookup
at-cons k v refs n = elim (Bool-cases (eqb k n)) [
  | inl same ↦ rw (at, same) refl
  | inr differ ↦ rw (at, differ) refl
]

pub at-IsUtf8 : (refs : Assoc Bytes) (n : Bytes) → AllUtf8 refs → IsUtf8 (at refs n)
unfolding at lookup
at-IsUtf8 [] n a = none-IsUtf8
at-IsUtf8 ((k, v) ∷ refs) n ((p, q), a) = elim (Bool-cases (eqb k n)) [
  | inl same ↦ rw (at-cons k v refs n, same) q
  | inr differ ↦ rw (at-cons k v refs n, differ) (at-IsUtf8 refs n a)
]

pub keys_of-IsUtf8 : (refs : Assoc Bytes) → AllUtf8 refs → All IsUtf8 (keys_of refs)
unfolding keys_of
keys_of-IsUtf8 [] a = tt
keys_of-IsUtf8 ((k, v) ∷ refs) ((p, q), a) = (p, keys_of-IsUtf8 refs a)

insert-AllUtf8 :
    (k v : Bytes) (refs : Assoc Bytes)
    → IsUtf8 k
    → IsUtf8 v
    → AllUtf8 refs
    → AllUtf8 (insert k v refs)
unfolding insert
insert-AllUtf8 k v [] p q a = ((p, q), tt)
insert-AllUtf8 k v ((j, w) ∷ refs) p q (b, a) = elim (Bool-cases (eqb j k)) [
  | inl same ↦ rw same ((p, q), a)
  | inr differ ↦ rw differ (b, insert-AllUtf8 k v refs p q a)
]

remove-AllUtf8 : (k : Bytes) (refs : Assoc Bytes) → AllUtf8 refs → AllUtf8 (remove k refs)
unfolding remove
remove-AllUtf8 k [] a = tt
remove-AllUtf8 k ((j, w) ∷ refs) (b, a) = elim (Bool-cases (eqb j k)) [
  | inl same ↦ rw same (remove-AllUtf8 k refs a)
  | inr differ ↦ rw differ (b, remove-AllUtf8 k refs a)
]

pub apply_updates-AllUtf8 :
    (us refs : Assoc Bytes) → AllUtf8 us → AllUtf8 refs → AllUtf8 (apply_updates us refs)
unfolding apply_updates
apply_updates-AllUtf8 [] refs u a = a
apply_updates-AllUtf8 ((n, oid) ∷ us) refs ((p, q), u) a = elim (Bool-cases (deletes oid)) [
  | inl t ↦ rw t (apply_updates-AllUtf8 us (remove n refs) u (remove-AllUtf8 n refs a))
  | inr f ↦ rw f (apply_updates-AllUtf8 us (insert n oid refs) u (insert-AllUtf8 n oid refs p q a))
]

unmarshal_entries-AllUtf8 :
    (m : Assoc Json) (acc refs : Assoc Bytes)
    → AllUtf8 acc
    → unmarshal_entries m acc ≡ ok refs
    → AllUtf8 refs
unfolding unmarshal_entries
unmarshal_entries-AllUtf8 [] acc refs a h = subst AllUtf8 (ground arith) a
unmarshal_entries-AllUtf8 ((k, str v) ∷ m) acc refs a h =
    unmarshal_entries-AllUtf8 m (insert (to_utf8 k) (to_utf8 v) acc) refs
      (insert-AllUtf8 (to_utf8 k) (to_utf8 v) acc (to_utf8-IsUtf8 k) (to_utf8-IsUtf8 v) a) h
unmarshal_entries-AllUtf8 ((k, null) ∷ m) acc refs a h =
    unmarshal_entries-AllUtf8 m (insert (to_utf8 k) [] acc) refs
      (insert-AllUtf8 (to_utf8 k) [] acc (to_utf8-IsUtf8 k) none-IsUtf8 a) h
unmarshal_entries-AllUtf8 ((k, num i) ∷ m) acc refs a h = absurd (ground arith)
unmarshal_entries-AllUtf8 ((k, format_value f c) ∷ m) acc refs a h = absurd (ground arith)
unmarshal_entries-AllUtf8 ((k, other b) ∷ m) acc refs a h = absurd (ground arith)

-- What encoding/json reads as a map of refs is valid UTF-8.
pub unmarshal_refs-AllUtf8 :
    (c : Content) (refs : Assoc Bytes) → unmarshal_refs c ≡ ok (some refs) → AllUtf8 refs
unfolding unmarshal_refs
unmarshal_refs-AllUtf8 null_text refs h = absurd (ground arith)
unmarshal_refs-AllUtf8 (text s) refs h = absurd (ground arith)
unmarshal_refs-AllUtf8 (object m) refs h = elim (Result-cases (unmarshal_entries m [])) [
  | inr (e, q) ↦ absurd (ground arith)
  | inl (out, q) ↦ unmarshal_entries-AllUtf8 m [] refs tt (ground arith)
]

module _ (sha : Sha256) where
  abbrev pub AllGroupsUtf8 : Assoc (Assoc Bytes) → Type 0
  AllGroupsUtf8 groups = (sid : Bytes) → AllUtf8 (or_empty (lookup sid groups))

  pub group_updates-AllUtf8 :
      (us : Assoc Bytes) (acc : Assoc (Assoc Bytes))
      → AllUtf8 us
      → AllGroupsUtf8 acc
      → AllGroupsUtf8 (group_updates sha us acc)
  unfolding group_updates or_empty
  group_updates-AllUtf8 [] acc u a = a
  group_updates-AllUtf8 ((name, oid) ∷ us) acc ((p, q), u) a =
      let own = shard_key sha name in
      let g = insert name oid (or_empty (lookup own acc)) in
      let good : AllUtf8 g = insert-AllUtf8 name oid (or_empty (lookup own acc)) p q (a own) in
      group_updates-AllUtf8 us (insert own g acc) u (λ sid.
        rw (lookup-insert own sid g acc) (elim (Bool-cases (eqb own sid)) [
          | inl same ↦ rw same good
          | inr differ ↦ rw differ (a sid)
        ]))
