-- ===== src/Reachability/Generations.antt =====
-- The two ways of internal/reachability to look up the generation of a commit.
use bucketvcs.Prelude.{ℕ, ◌≡◌, refl, ◌∙◌, List, [], ◌∷◌, Option, none, some, arith, Bytes}
use bucketvcs.Prelude.Assoc.{Assoc, lookup, insert, lookup-insert}
use bucketvcs.Reachability.{
  Commit, Delta, load, generation_of, index_commits, index_deltas, graph_generations,
  overlay_commits, overlay_deltas, load_gen_lookup,
}

-- The generation by an index of commits over one of generations.
unfoldable over : Option Commit → Option ℕ → Option ℕ
over (some c) below = some c.generation
over none below = below

graph_generations_lem :
    (oid : Bytes) (graph : Assoc Commit)
    → lookup oid (graph_generations graph) ≡ over (lookup oid graph) none
unfolding graph_generations lookup over
graph_generations_lem oid [] = refl
graph_generations_lem oid ((o, c) ∷ graph) = ground (
  arith,
  lookup-insert o oid c.generation (graph_generations graph),
  graph_generations_lem oid graph,
)

-- The generations agree with an index of commits over those of the graph.
abbrev Agrees : Assoc Commit → Assoc ℕ → Assoc Commit → Type 0
Agrees graph gens index =
    (oid : Bytes) → lookup oid gens ≡ over (lookup oid index) (over (lookup oid graph) none)

insert-Agrees :
    (graph : Assoc Commit) (gens : Assoc ℕ) (index : Assoc Commit) (c : Commit)
    → Agrees graph gens index
    → Agrees graph (insert c.oid c.generation gens) (insert c.oid c index)
unfolding over
insert-Agrees graph gens index c a oid =
    ground
      (arith, lookup-insert c.oid oid c.generation gens, lookup-insert c.oid oid c index, a oid)

overlay_commits-Agrees :
    (graph : Assoc Commit) (gens : Assoc ℕ) (index : Assoc Commit) (cs : List Commit)
    → Agrees graph gens index
    → Agrees graph (overlay_commits gens cs) (index_commits index cs)
unfolding overlay_commits index_commits
overlay_commits-Agrees graph gens index [] a = a
overlay_commits-Agrees graph gens index (c ∷ cs) a =
    overlay_commits-Agrees graph (insert c.oid c.generation gens) (insert c.oid c index) cs
      (insert-Agrees graph gens index c a)

overlay_deltas-Agrees :
    (graph : Assoc Commit) (gens : Assoc ℕ) (index : Assoc Commit) (ds : List Delta)
    → Agrees graph gens index
    → Agrees graph (overlay_deltas gens ds) (index_deltas index ds)
unfolding overlay_deltas index_deltas
overlay_deltas-Agrees graph gens index [] a = a
overlay_deltas-Agrees graph gens index (d ∷ ds) a =
    overlay_deltas-Agrees graph (overlay_commits gens d.commits) (index_commits index d.commits) ds
      (overlay_commits-Agrees graph gens index d.commits a)

-- The lookup that a push uses, which opens the commit graph and the deltas only, gives for every id the
-- generation that the whole set gives, over the same graph and deltas.
pub load_gen_lookup-generation_of :
    (graph : Assoc Commit) (refs : Assoc Bytes) (deltas : List Delta) (oid : Bytes)
    → lookup oid (load_gen_lookup graph deltas) ≡ generation_of (load graph refs deltas) oid
unfolding load_gen_lookup generation_of load over lookup
load_gen_lookup-generation_of graph refs deltas oid =
    overlay_deltas-Agrees graph (graph_generations graph) [] deltas
      (λ o. graph_generations_lem o graph) oid
    ∙ ground arith
