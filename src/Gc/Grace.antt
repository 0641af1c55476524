-- ===== src/Gc/Grace.antt =====
-- The period of grace: over a history of mark phases, each of which read the record of the one before,
-- a sweep deletes only what every mark of the retention period found unreachable.
use bucketvcs.Prelude.{
  ℕ, ◌+◌, ◌*◌, ◌≤◌, ◌<◌, ◌≡◌, refl, ap, sym, ◌∙◌, ◌⊎◌, inl, inr, Bool, false, List, [], ◌∷◌, Option,
  none, some, Bytes, All, Elem, Elem-nil, Elem-map, map-Elem, Elem-All,
}
use mathlib.Core.List.{map}
use mathlib.Core.Path.{subst}
use bucketvcs.Prelude.Assoc.{Assoc}
use bucketvcs.Storage.{ObjectStore, Deletes}
use bucketvcs.Repo.Errors.{Result, ok, ◌>>=◌, Result-cases}
use bucketvcs.Repo.Keys.{RepoKeys, root_manifest_key}
use bucketvcs.Repo.Manifest.{Json, Content, Texts, read_root}
use bucketvcs.Repo.Body.{WholeBody}
use bucketvcs.Gc.LiveSet.{LiveSet, build_live_set}
use bucketvcs.Gc.Marks.{Candidate, PackCandidate, Candidates, MarkRecord}
use bucketvcs.Gc.Mark.{
  MarkTurn, facts_of, run_mark, read_latest, next_candidates, next_packs, Found, MarkFacts,
  prev_candidates, prev_completed, next_record, discover_all,
}
use bucketvcs.Gc.Mark.Sticky.{next_candidates-Elem, next_packs-Elem}
use bucketvcs.Gc.Unreachable.{
  >>=-ok, ok-injective, Unreachable, FoundUnreachable, discover_all-Unreachable,
}
use bucketvcs.Gc.Sweep
use bucketvcs.Gc.Sweep.Parts.{tx-Elem, pack-Elem, index-Elem, bundle-Elem, marker-Elem, items-cases}
use bucketvcs.Gc.Sweep.DeletedKeys.{DeletedAll, DeletedAll-weaken}
use bucketvcs.Gc.Sweep.Doomed.{Doomed, run_sweep-Doomed, since_lt-ge}

-- What is known of an item of a new mark: it is not live, unless it is an orphan marker, and it was
-- first seen at the start of the mark or stands in the previous one as it is.
abbrev Known : LiveSet → ℕ → Candidates → Sweep.Item → Type 0
Known live now old i =
    (Sweep.is_orphan i.category ≡ false → Unreachable live i.key)
    × ((i.first_seen ≡ now) ⊎ Elem i (Sweep.items_of old))

module _ (live : LiveSet) (now : ℕ) (old : Candidates) where
  -- From a candidate list to the items, by the function that makes an item of a candidate.
  mapped-Known :
      (f : Candidate → Sweep.Item) (prev : List Candidate) (keys : List Bytes)
      → ((c : Candidate) → (f c).key ≡ c.key)
      → ((c : Candidate) → (f c).first_seen ≡ c.first_seen)
      → ((c : Candidate) → Elem c prev → Elem (f c) (Sweep.items_of old))
      → ((c : Candidate)
          → Sweep.is_orphan (f c).category ≡ false
          → Elem c.key keys
          → Unreachable live c.key)
      → (i : Sweep.Item) → Elem i (map f (next_candidates prev now keys))
      → Known live now old i
  mapped-Known f prev keys same_key same_time within unreachable i m =
      let (c, n, e) = Elem-map f i (next_candidates prev now keys) m in
      let (k, s) = next_candidates-Elem prev now keys c n in
      subst (Known live now old) e (
        λ o. rw (same_key c) (unreachable c o k),
        elim s [ inl t ↦ inl (same_time c ∙ t) | inr p ↦ inr (within c p) ],
      )

  packs-Known :
      (prev : List PackCandidate) (ended : Option ℕ) (version : ℕ) (keys : List Bytes)
      → ((c : PackCandidate) → Elem c prev → Elem (Sweep.pack_item c) (Sweep.items_of old))
      → All (Unreachable live) keys
      → (i : Sweep.Item) → Elem i (map Sweep.pack_item (next_packs prev ended now version keys))
      → Known live now old i
  packs-Known prev ended version keys within unreachable i m =
      let (c, n, e) = Elem-map Sweep.pack_item i (next_packs prev ended now version keys) m in
      let (k, s) = next_packs-Elem prev ended now version keys c n in
      subst (Known live now old) e (
        λ o. Elem-All (Unreachable live) c.key keys unreachable k,
        elim s [ inl t ↦ inl t | inr p ↦ inr (within c p) ],
      )

next_record-Known :
    (t : MarkFacts) (prev : Option MarkRecord) (live : LiveSet) (found : Found)
    → FoundUnreachable live found
    → (i : Sweep.Item) → Elem i (Sweep.items_of (next_record t prev found).candidates)
    → Known live t.started_at (prev_candidates prev) i
unfolding next_record Sweep.index_item
next_record-Known t prev live found (packs, indexes, txs, bundles) i m =
    let old = prev_candidates prev in
    let now = t.started_at in
    items-cases (next_record t prev found).candidates (Known live now old) i
      (λ a.
        mapped-Known live now old (Sweep.item Sweep.tx_records) old.tx_records found.txs.candidates
          (λ c. refl) (λ c. refl)
          (λ c p.
            tx-Elem old (Sweep.item Sweep.tx_records c)
              (map-Elem (Sweep.item Sweep.tx_records) c old.tx_records p))
          (λ c o k. Elem-All (Unreachable live) c.key found.txs.candidates txs k) i a)
      (λ a.
        packs-Known live now old old.canonical_packs (prev_completed prev) t.manifest_version
          found.packs
          (λ c p.
            pack-Elem old (Sweep.pack_item c) (map-Elem Sweep.pack_item c old.canonical_packs p))
          packs i a)
      (λ a.
        mapped-Known live now old Sweep.index_item old.indexes found.indexes (λ c. refl) (λ c. refl)
          (λ c p. index-Elem old (Sweep.index_item c) (map-Elem Sweep.index_item c old.indexes p))
          (λ c o k. Elem-All (Unreachable live) c.key found.indexes indexes k) i a)
      (λ a.
        mapped-Known live now old (Sweep.item Sweep.bundles) old.bundles found.bundles (λ c. refl)
          (λ c. refl)
          (λ c p.
            bundle-Elem old (Sweep.item Sweep.bundles c)
              (map-Elem (Sweep.item Sweep.bundles) c old.bundles p))
          (λ c o k. Elem-All (Unreachable live) c.key found.bundles bundles k) i a)
      (λ a.
        mapped-Known live now old (Sweep.item Sweep.orphan_markers) old.orphan_markers
          found.txs.orphan_markers (λ c. refl) (λ c. refl)
          (λ c p.
            marker-Elem old (Sweep.item Sweep.orphan_markers c)
              (map-Elem (Sweep.item Sweep.orphan_markers) c old.orphan_markers p))
          (λ c o k. cc) i a)
      m

module _ {S V : Type 0} (texts : Texts) (store : ObjectStore S Content V)
    (decode : Assoc Json → Result WholeBody) (decode_mark : Content → Option MarkRecord) where
  -- The mark phases of a repository, the last one first, each with the live set that it read: the first
  -- found no record of a previous one, and each later one read the record of the one before it.
  pub data History (k : RepoKeys) : List (LiveSet × MarkRecord) → Type 0 where
    begins :
        (t : MarkTurn S) (retention_seconds : ℕ) (live : LiveSet) (m : MarkRecord)
        → Sweep.live_at texts store decode k t.at_root ≡ ok live
        → read_latest store decode_mark t.listing t.at_previous k ≡ ok none
        → run_mark texts store decode decode_mark k t retention_seconds ≡ ok m
        → History k ((live, m) ∷ [])
    goes_on :
        (t : MarkTurn S) (retention_seconds : ℕ) (live before : LiveSet) (m prev : MarkRecord)
        (marks : List (LiveSet × MarkRecord))
        → Sweep.live_at texts store decode k t.at_root ≡ ok live
        → read_latest store decode_mark t.listing t.at_previous k ≡ ok (some prev)
        → run_mark texts store decode decode_mark k t retention_seconds ≡ ok m
        → History k ((before, prev) ∷ marks)
        → History k ((live, m) ∷ (before, prev) ∷ marks)

  -- A mark phase makes its record of the live set, the previous mark and what it discovers.
  run_mark-next :
      (k : RepoKeys) (t : MarkTurn S) (retention_seconds : ℕ) (live : LiveSet)
      (prev : Option MarkRecord) (m : MarkRecord)
      → Sweep.live_at texts store decode k t.at_root ≡ ok live
      → read_latest store decode_mark t.listing t.at_previous k ≡ ok prev
      → run_mark texts store decode decode_mark k t retention_seconds ≡ ok m
      → (f : MarkFacts) × (found : Found) × (discover_all t.listing k live ≡ ok found)
        × (next_record f prev found ≡ m)
  unfolding run_mark Sweep.live_at
  run_mark-next k t retention_seconds live prev m at_root at_prev h =
      elim (Result-cases (read_root texts store t.at_root (root_manifest_key k))) [
        | inr (e, q) ↦ cc (rw (q, ◌>>=◌) at at_root)
        | inl (p, q) ↦
            let built : build_live_set decode k p.0 (some p.1) ≡ ok live =
              rw (q, ◌>>=◌) at at_root in
            let (found, d, e) =
              >>=-ok (discover_all t.listing k live) _ m (rw (q, built, at_prev, ◌>>=◌) at h) in
            (
              facts_of t (store.token_text p.2) p.0.manifest_version retention_seconds,
              found,
              d,
              ok-injective _ m e,
            )
      ]

-- From the mark that started at `first` to the last, every mark found the key unreachable.
abbrev pub UnreachableSince : ℕ → Bytes → List (LiveSet × MarkRecord) → Type 0
UnreachableSince first key [] = ⊥
UnreachableSince first key ((live, m) ∷ marks) =
    Unreachable live key × ((first ≡ m.started_at) ⊎ UnreachableSince first key marks)

module _ {S V : Type 0} (texts : Texts) (store : ObjectStore S Content V)
    (decode : Assoc Json → Result WholeBody) (decode_mark : Content → Option MarkRecord)
    (k : RepoKeys) where
  -- An item of a mark, by the mark phase that made it.
  mark-Known :
      (t : MarkTurn S) (retention_seconds : ℕ) (live : LiveSet) (prev : Option MarkRecord)
      (m : MarkRecord) (i : Sweep.Item)
      → Sweep.live_at texts store decode k t.at_root ≡ ok live
      → read_latest store decode_mark t.listing t.at_previous k ≡ ok prev
      → run_mark texts store decode decode_mark k t retention_seconds ≡ ok m
      → Elem i (Sweep.items_of m.candidates)
      → Known live m.started_at (prev_candidates prev) i
  unfolding next_record
  mark-Known t retention_seconds live prev m i at_root at_prev h at =
      let (f, found, d, e) =
        run_mark-next texts store decode decode_mark k t retention_seconds live prev m at_root
          at_prev h in
      let start : f.started_at ≡ m.started_at = ap (λ (x : MarkRecord). x.started_at) e in
      subst (λ n. Known live n (prev_candidates prev) i) start
        (next_record-Known f prev live found (discover_all-Unreachable t.listing k live found d) i
          (subst (λ (x : MarkRecord). Elem i (Sweep.items_of x.candidates)) (sym e) at))

  History-UnreachableSince :
      (live : LiveSet) (m : MarkRecord) (marks : List (LiveSet × MarkRecord)) (i : Sweep.Item)
      → History texts store decode decode_mark k ((live, m) ∷ marks)
      → Sweep.is_orphan i.category ≡ false
      → Elem i (Sweep.items_of m.candidates)
      → UnreachableSince i.first_seen i.key ((live, m) ∷ marks)
  unfolding Sweep.items_of
  History-UnreachableSince _ _ _ i (begins t ret live m l r e) o at =
      let (u, s) = mark-Known t ret live none m i l r e at in
      (u o, elim s [ inl q ↦ inl q | inr p ↦ absurd (Elem-nil i p) ])
  History-UnreachableSince _ _ _ i (goes_on t ret live before m prev marks l r e h) o at =
      let (u, s) = mark-Known t ret live (some prev) m i l r e at in
      (
        u o,
        elim s [ inl q ↦ inl q | inr p ↦ inr (History-UnreachableSince before prev marks i h o p) ],
      )

-- The deletion of an object that is no orphan marker was due: some mark, a retention period ago or
-- more, found it unreachable, and so did every mark from that one on.
abbrev pub Due : List (LiveSet × MarkRecord) → ℕ → ℕ → Sweep.Category → Bytes → Type 0
Due marks retention_seconds now c key =
    Sweep.is_orphan c ≡ false
    → (first : ℕ) × (first + retention_seconds * 1_000_000_000 ≤ now)
      × UnreachableSince first key marks

module _ {S V : Type 0} (texts : Texts) (store : ObjectStore S Content V)
    (decode : Assoc Json → Result WholeBody) (removal : Deletes S Content V store)
    (decode_mark : Content → Option MarkRecord) (k : RepoKeys) where
  -- Whatever a sweep records as deleted after a history of mark phases, but for orphan markers, was
  -- found unreachable by a mark that started a retention period before the sweep or earlier, and by
  -- every mark since. Assumes that each mark read the record of the one before, and a period below 292
  -- years.
  pub run_sweep-Due :
      (live : LiveSet) (mark : MarkRecord) (marks : List (LiveSet × MarkRecord))
      → History texts store decode decode_mark k ((live, mark) ∷ marks)
      → mark.retention_seconds * 1_000_000_000 < 9223372036854775808
      → (dry_run : Bool) (turns : ℕ → Sweep.SweepTurn S) (now : ℕ) (s : S) (out : Sweep.Outcome)
      → (Sweep.run_sweep texts store decode removal k dry_run turns now mark s).0 ≡ ok out
      → DeletedAll (Due ((live, mark) ∷ marks) mark.retention_seconds now) out.deleted
  run_sweep-Due live mark marks h small dry_run turns now s out done =
      let (fresh, q, d) =
        run_sweep-Doomed texts store decode removal k dry_run turns now mark s out done in
      DeletedAll-weaken (Doomed mark now fresh)
        (Due ((live, mark) ∷ marks) mark.retention_seconds now) out.deleted
        (λ c key (first, at, u, old, armed) o. (
          first,
          since_lt-ge now first mark.retention_seconds small old,
          History-UnreachableSince texts store decode decode_mark k live mark marks
              (record { category = c; key = key; first_seen = first }) h o at,
        ))
        d
