-- ===== src/Reachability.antt =====
-- internal/reachability: the commits that a manifest knows, as the records of the commit graph and the
-- commits of the deltas on top of it. A commit graph that is open is its map of records, and a delta
-- that is decoded is the list of its commits and of its ref tips.
pub mod Frontier
pub mod Walk
pub mod Generations
mod Tests
use bucketvcs.Prelude.{
  ℕ, zero, suc, ◌+◌, ◌*◌, ◌≡◌, Bool, true, false, not, List, [], ◌∷◌, ◌++◌, Option, none, some,
  ◌==◌, if◌then◌else◌, length, Bytes, eqb, is_empty,
}
use bucketvcs.Prelude.Assoc.{Assoc, lookup, insert, remove}
use bucketvcs.Prelude.Sort.{member}
use bucketvcs.Pktline.{hex_value}

-- `Record` of internal/commitgraph and `CommitRecord` of internal/reachability/deltaindex.
pub record Commit : Type 0 where
  pub oid : Bytes
  pub generation : ℕ
  pub parents : List Bytes

-- `RefTipDiff`
pub record RefTip : Type 0 where
  pub ref_name : Bytes
  pub new_oid : Bytes

pub record Delta : Type 0 where
  pub commits : List Commit
  pub ref_tips : List RefTip

-- `Set`
pub record CommitSet : Type 0 where
  pub graph : Assoc Commit
  pub refs : Assoc Bytes
  pub delta_index : Assoc Commit

pub data OidError : Type 0 where
  bad_length bad_hex not_in_set : OidError

pub data Result {ℓ} (A : Type ℓ) : Type ℓ where
  ok : A → Result A
  err : OidError → Result A

-- `hex.DecodeString`
unfoldable pub decode_hex : Bytes → Option Bytes
decode_hex [] = some []
decode_hex (a ∷ []) = none
decode_hex (a ∷ b ∷ s) = elim (hex_value a) [
  | none ↦ none
  | some x ↦ elim (hex_value b) [
    | none ↦ none
    | some y ↦ elim (decode_hex s) [ none ↦ none | some t ↦ some ((x * 16 + y) ∷ t) ]
  ]
]

-- `ParseOID`
unfoldable pub parse_oid : Bytes → Result Bytes
parse_oid s =
    if not (length s == 40)
    then err bad_length
    else elim (decode_hex s) [ none ↦ err bad_hex | some oid ↦ ok oid ]

-- The id of 20 zeros.
abbrev pub zero_oid : Bytes
zero_oid = 0 ∷ 0 ∷ 0 ∷ 0 ∷ 0 ∷ 0 ∷ 0 ∷ 0 ∷ 0 ∷ 0 ∷ 0 ∷ 0 ∷ 0 ∷ 0 ∷ 0 ∷ 0 ∷ 0 ∷ 0 ∷ 0 ∷ 0 ∷ []

-- The commits of one delta, each over what the index had for its id.
unfoldable pub index_commits : Assoc Commit → List Commit → Assoc Commit
index_commits m [] = m
index_commits m (c ∷ cs) = index_commits (insert c.oid c m) cs

unfoldable pub index_deltas : Assoc Commit → List Delta → Assoc Commit
index_deltas m [] = m
index_deltas m (d ∷ ds) = index_deltas (index_commits m d.commits) ds

-- The ref tips of one delta: an id of zeros deletes the ref.
unfoldable pub apply_tips : Assoc Bytes → List RefTip → Assoc Bytes
apply_tips refs [] = refs
apply_tips refs (t ∷ ts) =
    apply_tips
      (if eqb t.new_oid zero_oid then remove t.ref_name refs else insert t.ref_name t.new_oid refs)
      ts

unfoldable pub apply_deltas : Assoc Bytes → List Delta → Assoc Bytes
apply_deltas refs [] = refs
apply_deltas refs (d ∷ ds) = apply_deltas (apply_tips refs d.ref_tips) ds

-- `Load`, from the open commit graph, the refs of the manifest and the decoded deltas on.
unfoldable pub load : Assoc Commit → Assoc Bytes → List Delta → CommitSet
load graph refs deltas = record {
  graph = graph;
  refs = apply_deltas refs deltas;
  delta_index = index_deltas [] deltas;
}

-- `(*Set).Has`
unfoldable pub has : CommitSet → Bytes → Bool
has s oid = elim (lookup oid s.delta_index) [
  | some c ↦ true
  | none ↦ elim (lookup oid s.graph) [ some c ↦ true | none ↦ false ]
]

-- `(*Set).Parents`
unfoldable pub parents_of : CommitSet → Bytes → List Bytes
parents_of s oid = elim (lookup oid s.delta_index) [
  | some c ↦ c.parents
  | none ↦ elim (lookup oid s.graph) [ some c ↦ c.parents | none ↦ [] ]
]

-- `(*Set).Generation`
unfoldable pub generation_of : CommitSet → Bytes → Option ℕ
generation_of s oid = elim (lookup oid s.delta_index) [
  | some c ↦ some c.generation
  | none ↦ elim (lookup oid s.graph) [ some c ↦ some c.generation | none ↦ none ]
]

-- What a pass over parents leaves: the target was met, or the ids visited and the next frontier.
pub data Scan : Type 0 where
  met : Scan
  passed : List Bytes → List Bytes → Scan

-- The loop over the parents of one commit.
unfoldable pub scan_parents : Bytes → List Bytes → List Bytes → List Bytes → Scan
scan_parents target [] visited next = passed visited next
scan_parents target (p ∷ ps) visited next = if eqb p target then met else elim (member p visited) [
  | true ↦ scan_parents target ps visited next
  | false ↦ scan_parents target ps (p ∷ visited) (next ++ p ∷ [])
]

module _ (s : CommitSet) (target : Bytes) where
  -- The loop over the frontier.
  unfoldable pub scan_frontier : List Bytes → List Bytes → List Bytes → Scan
  scan_frontier [] visited next = passed visited next
  scan_frontier (oid ∷ oids) visited next =
      elim (scan_parents target (parents_of s oid) visited next) [
        | met ↦ met
        | passed visited' next' ↦ scan_frontier oids visited' next'
      ]

  -- The loop over the depths that are left.
  unfoldable pub walk_levels : ℕ → ℕ → List Bytes → List Bytes → Option ℕ
  walk_levels zero depth visited frontier = none
  walk_levels (suc left) depth visited frontier =
      if is_empty frontier then none else elim (scan_frontier frontier visited []) [
        | met ↦ some (suc depth)
        | passed visited' next ↦ walk_levels left (suc depth) visited' next
      ]

-- `(*Set).WalkBackOID` on ids that are parsed; `none` is its answer -1.
unfoldable pub walk_between : CommitSet → Bytes → Bytes → ℕ → Result (Option ℕ)
walk_between s from target max =
    if not (has s from)
    then err not_in_set
    else if eqb from target
    then ok (some 0)
    else ok (walk_levels s target max 0 (from ∷ []) (from ∷ []))

-- `(*Set).WalkBackOID`
unfoldable pub walk_back_oid : CommitSet → Bytes → Bytes → ℕ → Result (Option ℕ)
walk_back_oid s from target max = elim (parse_oid from) [
  | err e ↦ err e
  | ok from_oid ↦ elim (parse_oid target) [
    | err e ↦ err e
    | ok target_oid ↦ walk_between s from_oid target_oid max
  ]
]

-- `(*Set).IsAncestor`
unfoldable pub is_ancestor : CommitSet → Bytes → Bytes → ℕ → Bool
is_ancestor s ancestor descendant max = elim (walk_back_oid s descendant ancestor max) [
  | err e ↦ false
  | ok none ↦ false
  | ok (some n) ↦ true
]

-- `LoadGenLookup`: the generations of the graph. The order in which Go visits a map is not defined;
-- here it is from the last entry to the first.
unfoldable pub graph_generations : Assoc Commit → Assoc ℕ
graph_generations [] = []
graph_generations ((oid, c) ∷ graph) = insert oid c.generation (graph_generations graph)

unfoldable pub overlay_commits : Assoc ℕ → List Commit → Assoc ℕ
overlay_commits m [] = m
overlay_commits m (c ∷ cs) = overlay_commits (insert c.oid c.generation m) cs

unfoldable pub overlay_deltas : Assoc ℕ → List Delta → Assoc ℕ
overlay_deltas m [] = m
overlay_deltas m (d ∷ ds) = overlay_deltas (overlay_commits m d.commits) ds

-- `LoadGenLookup`, from the open commit graph and the decoded deltas on.
unfoldable pub load_gen_lookup : Assoc Commit → List Delta → Assoc ℕ
load_gen_lookup graph deltas = overlay_deltas (graph_generations graph) deltas
