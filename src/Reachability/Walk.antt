-- ===== src/Reachability/Walk.antt =====
-- The distance that `WalkBackOID` of internal/reachability finds.
use bucketvcs.Prelude.{
  ℕ, zero, suc, ◌+◌, ◌≤◌, ◌<◌, ◌≡◌, refl, ◌∙◌, ◌⊎◌, inl, inr, Bool, true, false, List, [], ◌∷◌,
  Option, none, some, arith, Bytes, eqb, eqb_iff, Bool-cases, is_empty,
}
use mathlib.Core.Path.{subst}
use mathlib.Core.Logic.{◌↔◌}
use bucketvcs.Prelude.Sort.{member}
use bucketvcs.Reachability.{
  CommitSet, parents_of, walk_levels, walk_between, ok, has, parse_oid, walk_back_oid, is_ancestor,
}
use bucketvcs.Reachability.Frontier.{
  In, visit, fresh, member-visit, member-visit-fresh, fresh-In, all_parents, all_parents-In,
  In-all_parents, scan_frontier_lem,
}

-- `Hops s n from x`: n steps from a commit to one of its parents lead from `from` to x.
abbrev pub Hops : CommitSet → ℕ → Bytes → Bytes → Type 0
Hops s zero from x = from ≡ x
Hops s (suc n) from x = (y : Bytes) × Hops s n from y × In x (parents_of s y)

-- The answer is the length of a shortest chain of parents within the bound, or there is none.
abbrev pub IsDistance : CommitSet → Bytes → Bytes → ℕ → Option ℕ → Type 0
IsDistance s from target max (some n) =
    (n ≤ max) × Hops s n from target × ((k : ℕ) → k < n → ¬ (Hops s k from target))
IsDistance s from target max none = (k : ℕ) → k ≤ max → ¬ (Hops s k from target)

not_both : (b : Bool) → b ≡ true → b ≡ false → ⊥
not_both b t f = cc

module _ (s : CommitSet) (from target : Bytes) where
  -- What the loop knows at a depth: all that is so near is visited, and not the target; the frontier
  -- is at this depth, and the parents of the others are visited.
  record Level (depth : ℕ) (visited frontier : List Bytes) : Type 0 where
    near : (k : ℕ) (x : Bytes) → k ≤ depth → Hops s k from x → In x visited
    at_depth : (x : Bytes) → In x frontier → Hops s depth from x
    closed :
        (y : Bytes)
        → In y visited
        → In y frontier ⊎ ((z : Bytes) → In z (parents_of s y) → In z visited)
    missed : member target visited ≡ false

  too_far :
      (depth : ℕ) (visited frontier : List Bytes)
      → Level depth visited frontier
      → (k : ℕ) → k ≤ depth
      → ¬ (Hops s k from target)
  too_far depth visited frontier l k h p =
      not_both (member target visited) (l.near k target h p) l.missed

  -- With no frontier left, all that can be reached is visited.
  all_visited :
      (depth : ℕ) (visited : List Bytes)
      → Level depth visited []
      → (k : ℕ) (x : Bytes) → Hops s k from x
      → In x visited
  unfolding member
  all_visited depth visited l zero x p = l.near 0 x (omega arith) p
  all_visited depth visited l (suc k) x (y, p, h) =
      elim (l.closed y (all_visited depth visited l k y p)) [ inl e ↦ cc | inr f ↦ f x h ]

  module _ (depth : ℕ) (visited frontier : List Bytes) (l : Level depth visited frontier) where
    abbrev ps : List Bytes
    ps = all_parents s frontier

    kept : (x : Bytes) → In x visited → In x (visit ps visited)
    kept x h = member-visit x ps visited ∙ ground arith

    stepped : (y z : Bytes) → In y visited → In z (parents_of s y) → In z (visit ps visited)
    stepped y z hy hz = elim (l.closed y hy) [
      | inl e ↦
          let new : In z ps = all_parents-In s frontier y z e hz in
          member-visit z ps visited ∙ ground arith
      | inr f ↦ kept z (f z hz)
    ]

    near_next : (k : ℕ) (x : Bytes) → k ≤ suc depth → Hops s k from x → In x (visit ps visited)
    near_next zero x h p = kept x (l.near 0 x (omega arith) p)
    near_next (suc k) x h (y, p, hx) = stepped y x (l.near k y (omega arith) p) hx

    closed_next :
        (y : Bytes)
        → In y (visit ps visited)
        → In y (fresh ps visited) ⊎ ((z : Bytes) → In z (parents_of s y) → In z (visit ps visited))
    closed_next y h = elim (Bool-cases (member y visited)) [
      | inl old ↦ inr (λ z hz. stepped y z old hz)
      | inr new ↦ inl (ground (arith, member-visit-fresh y ps visited))
    ]

    next-Level : member target ps ≡ false → Level (suc depth) (visit ps visited) (fresh ps visited)
    next-Level out = record {
      near = near_next;
      at_depth = λ x h.
          let (y, hy, hx) = In-all_parents s frontier x (fresh-In x ps visited h) in
          (y, l.at_depth y hy, hx);
      closed = closed_next;
      missed = member-visit target ps visited ∙ ground (arith, l.missed);
    }

    met_next : In target ps → Hops s (suc depth) from target
    met_next h = let (y, hy, hz) = In-all_parents s frontier target h in (y, l.at_depth y hy, hz)

  walk_levels-IsDistance :
      (left depth : ℕ) (visited frontier : List Bytes)
      → Level depth visited frontier
      → IsDistance s from target (depth + left) (walk_levels s target left depth visited frontier)
  unfolding walk_levels is_empty
  walk_levels-IsDistance zero depth visited frontier l =
      λ k h. too_far depth visited frontier l k (omega arith)
  walk_levels-IsDistance (suc left) depth visited [] l =
      λ k h p. not_both (member target visited) (all_visited depth visited l k target p) l.missed
  walk_levels-IsDistance (suc left) depth visited (f ∷ fs) l =
      let ps = all_parents s (f ∷ fs) in
      elim (Bool-cases (member target ps)) [
        | inl t ↦
            rw (scan_frontier_lem s target (f ∷ fs) visited [], t)
              (
                omega arith,
                met_next depth visited (f ∷ fs) l t,
                λ k h. too_far depth visited (f ∷ fs) l k (omega arith),
              )
        | inr n ↦
            let rest =
              walk_levels-IsDistance left (suc depth) (visit ps visited) (fresh ps visited)
                (next-Level depth visited (f ∷ fs) l n) in
            let e : suc depth + left ≡ depth + suc left = omega arith in
            rw (scan_frontier_lem s target (f ∷ fs) visited [], n)
              (subst
                (λ m.
                  IsDistance s from target m
                    (walk_levels s target left (suc depth) (visit ps visited) (fresh ps visited)))
                e rest)
      ]

  near_first : (k : ℕ) (x : Bytes) → k ≤ 0 → Hops s k from x → In x (from ∷ [])
  unfolding member
  near_first zero x h p = ground (arith, (eqb_iff from x).1 p)
  near_first (suc k) x h p = absurd (omega arith)

  first-Level : eqb from target ≡ false → Level 0 (from ∷ []) (from ∷ [])
  unfolding member
  first-Level n = record {
    near = near_first;
    at_depth = λ x h. (eqb_iff from x).0 (ground arith);
    closed = λ y h. inl h;
    missed = ground arith;
  }

  walk_between-IsDistance :
      (max : ℕ)
      → has s from ≡ true
      → (answer : Option ℕ) × (walk_between s from target max ≡ ok answer)
        × IsDistance s from target max answer
  unfolding walk_between
  walk_between-IsDistance max known = elim (Bool-cases (eqb from target)) [
    | inl t ↦ (
      some 0,
      rw (known, t) refl,
      (omega arith, (eqb_iff from target).0 t, λ k h. absurd (omega arith)),
    )
    | inr f ↦ (
      walk_levels s target max 0 (from ∷ []) (from ∷ []),
      rw (known, f) refl,
      (let e : 0 + max ≡ max = omega arith in
          subst
            (λ m. IsDistance s from target m (walk_levels s target max 0 (from ∷ []) (from ∷ []))) e
            (walk_levels-IsDistance max 0 (from ∷ []) (from ∷ []) (first-Level f))),
    )
  ]

abbrev pub Within : CommitSet → Bytes → Bytes → ℕ → Type 0
Within s from target max = (k : ℕ) × (k ≤ max) × Hops s k from target

tells :
    (s : CommitSet) (from target from_oid target_oid : Bytes) (max : ℕ) (answer : Option ℕ)
    → walk_back_oid s from target max ≡ ok answer
    → IsDistance s from_oid target_oid max answer
    → (is_ancestor s target from max ≡ true) ↔ Within s from_oid target_oid max
unfolding is_ancestor
tells s from target from_oid target_oid max none w far =
    let no : is_ancestor s target from max ≡ false = rw (is_ancestor, w) refl in
    (
      (λ h. absurd (not_both (is_ancestor s target from max) h no)),
      (λ (k, le, p). absurd (far k le p)),
    )
tells s from target from_oid target_oid max (some n) w (le, p, low) =
    ((λ h. (n, le, p)), (λ h. rw (is_ancestor, w) refl))

-- For ids that are read and a start that the set has, WalkBackOID always answers, with the length of a
-- shortest chain of parents from the start to the target, or that no chain is so short as the bound;
-- and IsAncestor tells whether there is a chain within the bound.
pub walk_back_oid-IsDistance :
    (s : CommitSet) (from target from_oid target_oid : Bytes) (max : ℕ)
    → parse_oid from ≡ ok from_oid
    → parse_oid target ≡ ok target_oid
    → has s from_oid ≡ true
    → ((answer : Option ℕ) × (walk_back_oid s from target max ≡ ok answer)
        × IsDistance s from_oid target_oid max answer)
      × ((is_ancestor s target from max ≡ true) ↔ Within s from_oid target_oid max)
unfolding walk_back_oid
walk_back_oid-IsDistance s from target from_oid target_oid max pf pt known =
    let (answer, e, d) = walk_between-IsDistance s from_oid target_oid max known in
    let w : walk_back_oid s from target max ≡ ok answer = rw (walk_back_oid, pf, pt) e in
    ((answer, w, d), tells s from target from_oid target_oid max answer w d)
