-- ===== src/Reachability/Frontier.antt =====
-- One pass of `WalkBackOID` of internal/reachability over its frontier.
use bucketvcs.Prelude.{
  ◌≡◌, refl, sym, ap, ◌∙◌, inl, inr, true, false, ◌||◌, List, [], ◌∷◌, ◌++◌, arith, if◌then◌else◌,
  Bytes, eqb, eqb_iff, Bool-cases, append_assoc, append-nil,
}
use bucketvcs.Prelude.Sort.{member}
use bucketvcs.Reachability.{CommitSet, parents_of, met, passed, scan_parents, scan_frontier}

abbrev pub In : Bytes → List Bytes → Type 0
In x xs = member x xs ≡ true

-- The ids visited after a pass over some parents.
unfoldable pub visit : List Bytes → List Bytes → List Bytes
visit [] visited = visited
visit (p ∷ ps) visited = elim (member p visited) [
  | true ↦ visit ps visited
  | false ↦ visit ps (p ∷ visited)
]

-- The parents that a pass meets for the first time.
unfoldable pub fresh : List Bytes → List Bytes → List Bytes
fresh [] visited = []
fresh (p ∷ ps) visited = elim (member p visited) [
  | true ↦ fresh ps visited
  | false ↦ p ∷ fresh ps (p ∷ visited)
]

scan_parents_lem :
    (target : Bytes) (ps visited next : List Bytes)
    → scan_parents target ps visited next
      ≡ (if member target ps then met else passed (visit ps visited) (next ++ fresh ps visited))
unfolding scan_parents visit fresh member
scan_parents_lem target [] visited next = ap (passed visited) (sym (append-nil next))
scan_parents_lem target (p ∷ ps) visited next = elim (Bool-cases (eqb p target)) [
  | inl t ↦ rw t refl
  | inr f ↦ elim (Bool-cases (member p visited)) [
    | inl m ↦ rw (f, visit, fresh, m) (scan_parents_lem target ps visited next)
    | inr m ↦
        rw (f, visit, fresh, m)
          (scan_parents_lem target ps (p ∷ visited) (next ++ p ∷ [])
            ∙ rw (append_assoc next (p ∷ []) (fresh ps (p ∷ visited))) refl)
  ]
]

-- A parent is visited afterwards if it was before or is one of those.
pub member-visit :
    (x : Bytes) (ps visited : List Bytes)
    → member x (visit ps visited) ≡ (member x visited || member x ps)
unfolding visit member
member-visit x [] visited = ground arith
member-visit x (p ∷ ps) visited =
    ground (arith, eqb_iff p x, member-visit x ps visited, member-visit x ps (p ∷ visited))

-- What is new among the visited is in the next frontier.
pub member-visit-fresh :
    (x : Bytes) (ps visited : List Bytes)
    → member x (visit ps visited) ≡ (member x visited || member x (fresh ps visited))
unfolding visit fresh member
member-visit-fresh x [] visited = ground arith
member-visit-fresh x (p ∷ ps) visited =
    ground (arith, member-visit-fresh x ps visited, member-visit-fresh x ps (p ∷ visited))

pub fresh-In : (x : Bytes) (ps visited : List Bytes) → In x (fresh ps visited) → In x ps
unfolding fresh member
fresh-In x [] visited h = h
fresh-In x (p ∷ ps) visited h = ground (arith, fresh-In x ps visited, fresh-In x ps (p ∷ visited))

member-append :
    (x : Bytes) (ps qs : List Bytes) → member x (ps ++ qs) ≡ (member x ps || member x qs)
unfolding member
member-append x [] qs = refl
member-append x (p ∷ ps) qs = ground (arith, member-append x ps qs)

visit-append : (ps qs visited : List Bytes) → visit (ps ++ qs) visited ≡ visit qs (visit ps visited)
unfolding visit
visit-append [] qs visited = refl
visit-append (p ∷ ps) qs visited =
    ground (arith, visit-append ps qs visited, visit-append ps qs (p ∷ visited))

fresh-append :
    (ps qs visited : List Bytes)
    → fresh (ps ++ qs) visited ≡ fresh ps visited ++ fresh qs (visit ps visited)
unfolding fresh visit
fresh-append [] qs visited = refl
fresh-append (p ∷ ps) qs visited =
    ground (arith, fresh-append ps qs visited, fresh-append ps qs (p ∷ visited))

-- The parents of the commits of a frontier.
unfoldable pub all_parents : CommitSet → List Bytes → List Bytes
all_parents s [] = []
all_parents s (oid ∷ oids) = parents_of s oid ++ all_parents s oids

pub all_parents-In :
    (s : CommitSet) (oids : List Bytes) (y z : Bytes)
    → In y oids
    → In z (parents_of s y)
    → In z (all_parents s oids)
unfolding all_parents member
all_parents-In s [] y z hy hz = cc
all_parents-In s (oid ∷ oids) y z hy hz = elim (Bool-cases (eqb oid y)) [
  | inl t ↦
      let here : In z (parents_of s oid) = rw ((eqb_iff oid y).0 t) hz in
      ground (arith, member-append z (parents_of s oid) (all_parents s oids))
  | inr f ↦
      let rest = all_parents-In s oids y z (ground arith) hz in
      ground (arith, member-append z (parents_of s oid) (all_parents s oids))
]

pub In-all_parents :
    (s : CommitSet) (oids : List Bytes) (z : Bytes)
    → In z (all_parents s oids)
    → (y : Bytes) × In y oids × In z (parents_of s y)
unfolding all_parents member
In-all_parents s [] z h = cc
In-all_parents s (oid ∷ oids) z h = elim (Bool-cases (member z (parents_of s oid))) [
  | inl t ↦ (oid, ground (arith, (eqb_iff oid oid).1 refl), t)
  | inr f ↦
      let rest : In z (all_parents s oids) =
        ground (arith, member-append z (parents_of s oid) (all_parents s oids)) in
      let (y, hy, hz) = In-all_parents s oids z rest in (y, ground arith, hz)
]

-- A pass over a frontier is a pass over all the parents of its commits.
pub scan_frontier_lem :
    (s : CommitSet) (target : Bytes) (oids visited next : List Bytes)
    → scan_frontier s target oids visited next ≡ (
        if member target (all_parents s oids)
        then met
        else passed
            (visit (all_parents s oids) visited)
            (next ++ fresh (all_parents s oids) visited))
unfolding scan_frontier all_parents visit fresh member
scan_frontier_lem s target [] visited next = ap (passed visited) (sym (append-nil next))
scan_frontier_lem s target (oid ∷ oids) visited next =
    let ps = parents_of s oid in
    let qs = all_parents s oids in
    elim (Bool-cases (member target ps)) [
      | inl t ↦
          rw
            (
              scan_frontier,
              all_parents,
              scan_parents_lem target ps visited next,
              member-append target ps qs,
              t,
            )
            refl
      | inr f ↦
          rw
            (
              scan_frontier,
              all_parents,
              scan_parents_lem target ps visited next,
              member-append target ps qs,
              f,
              scan_frontier_lem s target oids (visit ps visited) (next ++ fresh ps visited),
              visit-append ps qs visited,
              fresh-append ps qs visited,
              append_assoc next (fresh ps visited) (fresh qs (visit ps visited)),
            )
            refl
    ]
