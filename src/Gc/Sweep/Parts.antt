-- ===== src/Gc/Sweep/Parts.antt =====
-- The items of a sweep of internal/gc by the five lists that they come from.
use bucketvcs.Prelude.{inl, inr, List, ◌++◌, Elem, Elem-append, Elem-append_left, Elem-append_right}
use mathlib.Core.List.{map}
use bucketvcs.Gc.Marks.{Candidates}
use bucketvcs.Gc.Sweep

-- The five parts of the items.
module _ (c : Candidates) where
  abbrev pub tx_part : List Sweep.Item
  tx_part = map (Sweep.item Sweep.tx_records) c.tx_records

  abbrev pub pack_part : List Sweep.Item
  pack_part = map Sweep.pack_item c.canonical_packs

  abbrev pub index_part : List Sweep.Item
  index_part = map Sweep.index_item c.indexes

  abbrev pub bundle_part : List Sweep.Item
  bundle_part = map (Sweep.item Sweep.bundles) c.bundles

  abbrev pub marker_part : List Sweep.Item
  marker_part = map (Sweep.item Sweep.orphan_markers) c.orphan_markers

  pub tx-Elem : (i : Sweep.Item) → Elem i tx_part → Elem i (Sweep.items_of c)
  unfolding Sweep.items_of
  tx-Elem i m =
      Elem-append_left i tx_part (pack_part ++ (index_part ++ (bundle_part ++ marker_part))) m

  pub pack-Elem : (i : Sweep.Item) → Elem i pack_part → Elem i (Sweep.items_of c)
  unfolding Sweep.items_of
  pack-Elem i m =
      Elem-append_right i tx_part (pack_part ++ (index_part ++ (bundle_part ++ marker_part)))
        (Elem-append_left i pack_part (index_part ++ (bundle_part ++ marker_part)) m)

  pub index-Elem : (i : Sweep.Item) → Elem i index_part → Elem i (Sweep.items_of c)
  unfolding Sweep.items_of
  index-Elem i m =
      Elem-append_right i tx_part (pack_part ++ (index_part ++ (bundle_part ++ marker_part))) (
        Elem-append_right i pack_part (index_part ++ (bundle_part ++ marker_part))
          (Elem-append_left i index_part (bundle_part ++ marker_part) m))

  pub bundle-Elem : (i : Sweep.Item) → Elem i bundle_part → Elem i (Sweep.items_of c)
  unfolding Sweep.items_of
  bundle-Elem i m =
      Elem-append_right i tx_part (pack_part ++ (index_part ++ (bundle_part ++ marker_part))) (
        Elem-append_right i pack_part (index_part ++ (bundle_part ++ marker_part)) (
          Elem-append_right i index_part (bundle_part ++ marker_part)
            (Elem-append_left i bundle_part marker_part m)))

  pub marker-Elem : (i : Sweep.Item) → Elem i marker_part → Elem i (Sweep.items_of c)
  unfolding Sweep.items_of
  marker-Elem i m =
      Elem-append_right i tx_part (pack_part ++ (index_part ++ (bundle_part ++ marker_part))) (
        Elem-append_right i pack_part (index_part ++ (bundle_part ++ marker_part)) (
          Elem-append_right i index_part (bundle_part ++ marker_part)
            (Elem-append_right i bundle_part marker_part m)))

  -- An item stands in one of the parts.
  pub items-cases :
      (P : Sweep.Item → Type 0) (i : Sweep.Item)
      → (Elem i tx_part → P i)
      → (Elem i pack_part → P i)
      → (Elem i index_part → P i)
      → (Elem i bundle_part → P i)
      → (Elem i marker_part → P i)
      → Elem i (Sweep.items_of c)
      → P i
  unfolding Sweep.items_of
  items-cases P i tx pack index bundle marker m =
      elim (Elem-append i tx_part (pack_part ++ (index_part ++ (bundle_part ++ marker_part))) m) [
        | inl a ↦ tx a
        | inr m1 ↦ elim (Elem-append i pack_part (index_part ++ (bundle_part ++ marker_part)) m1) [
          | inl a ↦ pack a
          | inr m2 ↦ elim (Elem-append i index_part (bundle_part ++ marker_part) m2) [
            | inl a ↦ index a
            | inr m3 ↦ elim (Elem-append i bundle_part marker_part m3) [
              | inl a ↦ bundle a
              | inr a ↦ marker a
            ]
          ]
        ]
      ]
