-- ===== src/Policy/Match.antt =====
-- internal/policy/match.go: matching a path against a pattern with `**`, memoized and under budgets.
-- `path.Match` on one segment is an argument, `none` where it reports a bad pattern.
pub mod Grammar
pub mod Sound
mod Tests
use bucketvcs.Prelude.{
  ℕ, zero, suc, ◌+◌, ◌-◌, ◌*◌, ◌/◌, ◌%◌, ◌^◌, ◌≤◌, ◌<◌, ◌≡◌, ◌≢◌, refl, sym, ap, ap₂, ◌∙◌, ◌↔◌, ◌⊎◌,
  inl, inr, Bool, true, false, not, ◌&&◌, ◌||◌, List, [], ◌∷◌, ◌++◌, Option, none, some, arith, ltb,
  leb, ◌==◌, if◌then◌else◌, length, take, drop, Bytes, codes, eqb, has_prefix, has_suffix, contains,
  split, is_empty, Bool-cases, Option-cases, eqb_iff, eqb_refl, All, append-nil, append_assoc,
  length-append,
}
use bucketvcs.Prelude.Assoc.{Assoc, lookup, insert, remove, lookup-insert, lookup-remove, map_laws}
use bucketvcs.Prelude.{get_elem?}

pub data MatchError : Type 0 where
  malformed empty_path bad_segment state_budget aggregate_budget out_of_fuel : MatchError

-- A Boolean with an error.
pub data Answer : Type 0 where
  answer : Bool → Answer
  fails : MatchError → Answer

-- `pathMatchBudget`
pub record Budget : Type 0 where
  pub used : ℕ
  pub limit : ℕ

-- What the walk keeps: the memo, the count of its states, and the budget of the caller.
pub record Walk : Type 0 where
  pub memo : List (ℕ × ℕ × Answer)
  pub states : ℕ
  pub aggregate : Option Budget

abbrev pub max_path_match_states : ℕ
max_path_match_states = 65536

abbrev pub dbl_star : Bytes
dbl_star = codes "**"

unfoldable pub recall : ℕ → ℕ → List (ℕ × ℕ × Answer) → Option Answer
recall i j [] = none
recall i j ((i', j', r) ∷ memo) = if i' == i && j' == j then some r else recall i j memo

unfoldable pub remember : ℕ → ℕ → Answer × Walk → Answer × Walk
remember i j (r, w) = (r, record w { memo = (i, j, r) ∷ w.memo })

-- Counting against the budget of the caller.
unfoldable pub charge : Walk → Option Walk
charge w = elim w.aggregate [
  | none ↦ some w
  | some b ↦
      if ltb b.limit (b.used + 1)
      then none
      else some (record w { aggregate = some (record b { used = b.used + 1 }) })
]

unfoldable pub charged : Walk → Walk
charged w = elim w.aggregate [
  | none ↦ w
  | some b ↦ record w { aggregate = some (record b { used = b.used + 1 }) }
]

module _ (path_match : Bytes → Bytes → Option Bool) (pat_segs path_segs : List Bytes) where
  -- A `**` that is not the last segment: no segment, or one segment and `**` again.
  unfoldable pub walk_star : (ℕ → ℕ → Walk → Answer × Walk) → ℕ → ℕ → Walk → Answer × Walk
  walk_star walk i j w =
      let (r, w') = walk (i + 1) j w in
      elim r [
        | fails e ↦ (fails e, w')
        | answer true ↦ (answer true, w')
        | answer false ↦ elim (ltb j (length path_segs)) [
          | true ↦ walk i (j + 1) w'
          | false ↦ (answer false, w')
        ]
      ]

  unfoldable pub walk_one : (ℕ → ℕ → Walk → Answer × Walk) → Bytes → ℕ → ℕ → Walk → Answer × Walk
  walk_one walk seg i j w = elim (get_elem? path_segs j) [
    | none ↦ (answer false, w)
    | some p ↦ elim (path_match seg p) [
      | none ↦ (fails bad_segment, w)
      | some false ↦ (answer false, w)
      | some true ↦ walk (i + 1) (j + 1) w
    ]
  ]

  -- The switch.
  unfoldable pub walk_step : (ℕ → ℕ → Walk → Answer × Walk) → ℕ → ℕ → Walk → Answer × Walk
  walk_step walk i j w = elim (get_elem? pat_segs i) [
    | none ↦ (answer (j == length path_segs), w)
    | some seg ↦
        if eqb seg dbl_star
        then (if i + 1 == length pat_segs
            then (answer (ltb j (length path_segs)), w)
            else walk_star walk i j w)
        else walk_one walk seg i j w
  ]

  unfoldable pub walk_new : (ℕ → ℕ → Walk → Answer × Walk) → ℕ → ℕ → Walk → Answer × Walk
  walk_new walk i j w =
      let w1 = record w { states = w.states + 1 } in
      if ltb max_path_match_states w1.states then (fails state_budget, w1) else elim (charge w1) [
        | none ↦ (fails aggregate_budget, charged w1)
        | some w2 ↦ remember i j (walk_step walk i j w2)
      ]

  -- The closure `walk`.
  unfoldable pub walk : ℕ → ℕ → ℕ → Walk → Answer × Walk
  walk zero i j w = (fails out_of_fuel, w)
  walk (suc fuel) i j w = elim (recall i j w.memo) [
    | some r ↦ (r, w)
    | none ↦ walk_new (walk fuel) i j w
  ]

  -- `matchSegments`: each step uses a segment of the pattern or of the path.
  unfoldable pub match_segments : Option Budget → Answer × Option Budget
  match_segments aggregate =
      let (r, w) =
        walk (length pat_segs + length path_segs + 1) 0 0
          (record { memo = []; states = 0; aggregate = aggregate }) in
      (r, w.aggregate)

module _ (path_match : Bytes → Bytes → Option Bool) where
  -- The loop over the segments.
  unfoldable pub valid_segments : List Bytes → Bool
  valid_segments [] = true
  valid_segments (seg ∷ segs) =
      let rest = valid_segments segs in
      if is_empty seg
      then false
      else if eqb seg dbl_star
      then rest
      else elim (path_match seg []) [ none ↦ false | some m ↦ rest ]

  -- `validatePathPatternSyntax`
  unfoldable pub valid_pattern_syntax : Bytes → Bool
  valid_pattern_syntax pattern =
      if is_empty pattern
      then false
      else if has_prefix pattern (codes "/")
      then false
      else if has_suffix pattern (codes "/")
      then false
      else if contains pattern (codes "//")
      then false
      else valid_segments (split b'/' pattern)

  unfoldable pub count_dbl_stars : List Bytes → ℕ
  count_dbl_stars [] = 0
  count_dbl_stars (seg ∷ segs) =
      if eqb seg dbl_star then suc (count_dbl_stars segs) else count_dbl_stars segs

  -- `ValidatePathPattern`
  unfoldable pub validate_path_pattern : Bytes → Bool
  validate_path_pattern pattern =
      if not (valid_pattern_syntax pattern)
      then false
      else let segs = split b'/' pattern in
        if ltb 64 (length segs) then false else leb (count_dbl_stars segs) 2

  -- `matchPathWithBudget`
  unfoldable pub match_path_with_budget : Bytes → Bytes → Option Budget → Answer × Option Budget
  match_path_with_budget pattern p aggregate =
      if not (valid_pattern_syntax pattern)
      then (fails malformed, aggregate)
      else if is_empty p
      then (fails empty_path, aggregate)
      else match_segments path_match (split b'/' pattern) (split b'/' p) aggregate
