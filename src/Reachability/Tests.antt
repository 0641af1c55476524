-- ===== src/Reachability/Tests.antt =====
-- A graph of two commits with a delta of one more, and the theorems of reachability at that input.
use bucketvcs.Prelude.{
  repeat, ℕ, zero, suc, ◌≡◌, refl, ◌≤◌, Bool, true, false, List, [], ◌∷◌, Option, none, some, arith,
  Bytes,
}
use mathlib.Core.Logic.{◌↔◌}
use bucketvcs.Prelude.Assoc.{Assoc, lookup}
use bucketvcs.Reachability.{
  Commit, Delta, CommitSet, load, parse_oid, Result, ok, err, has, walk_back_oid, is_ancestor,
  generation_of, load_gen_lookup,
}
use bucketvcs.Reachability.Walk.{IsDistance, Within, walk_back_oid-IsDistance}
use bucketvcs.Reachability.Generations.{load_gen_lookup-generation_of}

abbrev commit_1 : Commit
commit_1 = record { oid = repeat 20 17; generation = 1; parents = [] }

abbrev commit_2 : Commit
commit_2 = record { oid = repeat 20 34; generation = 2; parents = commit_1.oid ∷ [] }

abbrev commit_3 : Commit
commit_3 = record { oid = repeat 20 51; generation = 3; parents = commit_2.oid ∷ commit_1.oid ∷ [] }

abbrev graph : Assoc Commit
graph = (commit_1.oid, commit_1) ∷ (commit_2.oid, commit_2) ∷ []

abbrev deltas : List Delta
deltas =
    record {
      commits = commit_3 ∷ [];
      ref_tips = record { ref_name = b'm' ∷ []; new_oid = commit_3.oid } ∷ [];
    }
    ∷ []

abbrev commits : CommitSet
commits = load graph ((b'm' ∷ [], commit_2.oid) ∷ []) deltas

refs_after : commits.refs ≡ (b'm' ∷ [], commit_3.oid) ∷ []
unfolding load bucketvcs.Reachability.apply_deltas bucketvcs.Reachability.apply_tips
    bucketvcs.Prelude.eqb bucketvcs.Prelude.Assoc.insert
refs_after = refl

walk_two : walk_back_oid commits (repeat 40 b'3') (repeat 40 b'1') 5 ≡ ok (some 1)
unfolding walk_back_oid parse_oid bucketvcs.Reachability.decode_hex bucketvcs.Pktline.hex_value
    bucketvcs.Reachability.walk_between has lookup load bucketvcs.Reachability.index_deltas
    bucketvcs.Reachability.index_commits bucketvcs.Prelude.Assoc.insert bucketvcs.Prelude.eqb
    bucketvcs.Reachability.walk_levels bucketvcs.Prelude.is_empty
    bucketvcs.Reachability.scan_frontier bucketvcs.Reachability.scan_parents
    bucketvcs.Reachability.parents_of bucketvcs.Prelude.Assoc.remove bucketvcs.Prelude.Sort.member
    bucketvcs.Reachability.apply_deltas bucketvcs.Reachability.apply_tips
walk_two = refl

walk_short : walk_back_oid commits (repeat 40 b'3') (repeat 40 b'4') 5 ≡ ok none
unfolding walk_back_oid parse_oid bucketvcs.Reachability.decode_hex bucketvcs.Pktline.hex_value
    bucketvcs.Reachability.walk_between has lookup load bucketvcs.Reachability.index_deltas
    bucketvcs.Reachability.index_commits bucketvcs.Prelude.Assoc.insert bucketvcs.Prelude.eqb
    bucketvcs.Reachability.walk_levels bucketvcs.Prelude.is_empty
    bucketvcs.Reachability.scan_frontier bucketvcs.Reachability.scan_parents
    bucketvcs.Reachability.parents_of bucketvcs.Prelude.Assoc.remove bucketvcs.Prelude.Sort.member
    bucketvcs.Reachability.apply_deltas bucketvcs.Reachability.apply_tips
walk_short = refl

walk_back_oid-IsDistance_example :
    ((answer : Option ℕ) × (walk_back_oid commits (repeat 40 b'3') (repeat 40 b'1') 5 ≡ ok answer)
      × IsDistance commits commit_3.oid commit_1.oid 5 answer)
    × ((is_ancestor commits (repeat 40 b'1') (repeat 40 b'3') 5 ≡ true)
        ↔ Within commits commit_3.oid commit_1.oid 5)
unfolding parse_oid bucketvcs.Reachability.decode_hex bucketvcs.Pktline.hex_value has lookup load
    bucketvcs.Reachability.index_deltas bucketvcs.Reachability.index_commits
    bucketvcs.Prelude.Assoc.insert bucketvcs.Prelude.eqb
walk_back_oid-IsDistance_example =
    walk_back_oid-IsDistance commits (repeat 40 b'3') (repeat 40 b'1') commit_3.oid commit_1.oid 5
      refl refl refl

load_gen_lookup-generation_of_example :
    lookup commit_3.oid (load_gen_lookup graph deltas)
    ≡ generation_of (load graph [] deltas) commit_3.oid
load_gen_lookup-generation_of_example = load_gen_lookup-generation_of graph [] deltas commit_3.oid
