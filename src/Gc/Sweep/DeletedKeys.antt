-- ===== src/Gc/Sweep/DeletedKeys.antt =====
-- The keys that a sweep of internal/gc records as deleted.
use bucketvcs.Prelude.{[], ◌∷◌, Bytes, All, All-append, All-weaken}
use bucketvcs.Gc.Sweep

-- A predicate of every key that is recorded as deleted.
abbrev pub DeletedAll : (Sweep.Category → Bytes → Type 0) → Sweep.Deleted → Type 0
DeletedAll P d =
    All (P Sweep.tx_records) d.tx_records
    × All (P Sweep.canonical_packs) d.canonical_packs
    × All (P Sweep.indexes) d.indexes
    × All (P Sweep.reachability_deltas) d.reachability_deltas
    × All (P Sweep.bundles) d.bundles
    × All (P Sweep.orphan_markers) d.orphan_markers

pub DeletedAll-weaken :
    (P Q : Sweep.Category → Bytes → Type 0) (d : Sweep.Deleted)
    → ((c : Sweep.Category) (key : Bytes) → P c key → Q c key)
    → DeletedAll P d
    → DeletedAll Q d
DeletedAll-weaken P Q d f (t, p, i, r, b, m) = (
  All-weaken (P Sweep.tx_records) (Q Sweep.tx_records) d.tx_records (f Sweep.tx_records) t,
  All-weaken (P Sweep.canonical_packs) (Q Sweep.canonical_packs) d.canonical_packs
      (f Sweep.canonical_packs) p,
  All-weaken (P Sweep.indexes) (Q Sweep.indexes) d.indexes (f Sweep.indexes) i,
  All-weaken (P Sweep.reachability_deltas) (Q Sweep.reachability_deltas) d.reachability_deltas
      (f Sweep.reachability_deltas) r,
  All-weaken (P Sweep.bundles) (Q Sweep.bundles) d.bundles (f Sweep.bundles) b,
  All-weaken (P Sweep.orphan_markers) (Q Sweep.orphan_markers) d.orphan_markers
      (f Sweep.orphan_markers) m,
)

pub DeletedAll-add_deleted :
    (P : Sweep.Category → Bytes → Type 0) (c : Sweep.Category) (key : Bytes) (d : Sweep.Deleted)
    → P c key
    → DeletedAll P d
    → DeletedAll P (Sweep.add_deleted c key d)
unfolding Sweep.add_deleted
DeletedAll-add_deleted P Sweep.tx_records key d p (a, b, c, e, f, g) =
    (All-append (P Sweep.tx_records) d.tx_records (key ∷ []) a (p, tt), b, c, e, f, g)
DeletedAll-add_deleted P Sweep.canonical_packs key d p (a, b, c, e, f, g) =
    (a, All-append (P Sweep.canonical_packs) d.canonical_packs (key ∷ []) b (p, tt), c, e, f, g)
DeletedAll-add_deleted P Sweep.indexes key d p (a, b, c, e, f, g) =
    (a, b, All-append (P Sweep.indexes) d.indexes (key ∷ []) c (p, tt), e, f, g)
DeletedAll-add_deleted P Sweep.reachability_deltas key d p (a, b, c, e, f, g) = (
  a,
  b,
  c,
  All-append (P Sweep.reachability_deltas) d.reachability_deltas (key ∷ []) e (p, tt),
  f,
  g,
)
DeletedAll-add_deleted P Sweep.bundles key d p (a, b, c, e, f, g) =
    (a, b, c, e, All-append (P Sweep.bundles) d.bundles (key ∷ []) f (p, tt), g)
DeletedAll-add_deleted P Sweep.orphan_markers key d p (a, b, c, e, f, g) =
    (a, b, c, e, f, All-append (P Sweep.orphan_markers) d.orphan_markers (key ∷ []) g (p, tt))
