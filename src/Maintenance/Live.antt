-- ===== src/Maintenance/Live.antt =====
-- What a merge of internal/maintenance/casmerge.go leaves to the garbage collection: the keys that the
-- manifest protected before it and not after it.
use bucketvcs.Prelude.{
  ◌≡◌, refl, sym, ◌∙◌, ◌⊎◌, inl, inr, Bool, true, List, [], ◌∷◌, Option, none, some, arith, Bytes,
  eqb_iff, is_empty, Bool-cases, Elem, at_head, in_tail,
}
use bucketvcs.Prelude.Sort.{member}
use bucketvcs.Repo.Body.{PackEntry, IndexRef, ReachabilityRef, WholeBody}
use bucketvcs.Gc.LiveSet.{add_body}
use bucketvcs.Maintenance.{
  MergeInput, kept_packs, kept_deltas, trim_consumed_by_hash, build_merged_body,
}
use bucketvcs.Maintenance.Named.{
  holds, pack_holds, packs_hold, index_holds, deltas_hold, shards_hold, deltas_of, member-add_body,
}

module _ (key : Bytes) where
  -- A pack that was repacked has the key.
  abbrev pub IsRepacked : List Bytes → List PackEntry → Type 0
  IsRepacked p0 ps =
      (p : PackEntry) × Elem p ps
      × (member p.pack_key p0 ≡ true)
      × ((p.pack_key ≡ key) ⊎ (p.idx_key ≡ key) ⊎ (p.bitmap_key ≡ key))

  -- A delta that was consumed has the key.
  abbrev pub IsConsumed : List Bytes → List IndexRef → Type 0
  IsConsumed consumed rs =
      (r : IndexRef) × Elem r rs × (member r.hash consumed ≡ true) × (r.key ≡ key)

  holds-key : (k : Bytes) → holds key k ≡ true → k ≡ key
  unfolding holds
  holds-key k h = (eqb_iff k key).0 (ground arith)

  pack_holds-key :
      (p : PackEntry)
      → pack_holds key p ≡ true
      → (p.pack_key ≡ key) ⊎ (p.idx_key ≡ key) ⊎ (p.bitmap_key ≡ key)
  unfolding pack_holds
  pack_holds-key p h = elim (Bool-cases (holds key p.pack_key)) [
    | inl t ↦ inl (holds-key p.pack_key t)
    | inr f ↦ elim (Bool-cases (holds key p.idx_key)) [
      | inl t ↦ inr (inl (holds-key p.idx_key t))
      | inr g ↦ inr (inr (holds-key p.bitmap_key (ground arith)))
    ]
  ]

  kept_packs-hold :
      (p0 : List Bytes) (ps : List PackEntry)
      → packs_hold key ps ≡ true
      → (packs_hold key (kept_packs p0 ps) ≡ true) ⊎ IsRepacked p0 ps
  unfolding packs_hold kept_packs
  kept_packs-hold p0 [] h = inl h
  kept_packs-hold p0 (p ∷ ps) h = elim (Bool-cases (pack_holds key p)) [
    | inl t ↦ elim (Bool-cases (member p.pack_key p0)) [
      | inl gone ↦ inr (p, at_head p ps refl, gone, pack_holds-key p t)
      | inr out ↦ inl (ground arith)
    ]
    | inr f ↦ elim (kept_packs-hold p0 ps (ground arith)) [
      | inl kept ↦ inl (ground arith)
      | inr (q, e, m, k) ↦ inr (q, in_tail p ps e, m, k)
    ]
  ]

  kept_deltas-hold :
      (consumed : List Bytes) (rs : List IndexRef)
      → deltas_hold key rs ≡ true
      → (deltas_hold key (kept_deltas consumed rs) ≡ true) ⊎ IsConsumed consumed rs
  unfolding deltas_hold kept_deltas
  kept_deltas-hold consumed [] h = inl h
  kept_deltas-hold consumed (r ∷ rs) h = elim (Bool-cases (holds key r.key)) [
    | inl t ↦ elim (Bool-cases (member r.hash consumed)) [
      | inl gone ↦ inr (r, at_head r rs refl, gone, holds-key r.key t)
      | inr out ↦ inl (ground arith)
    ]
    | inr f ↦ elim (kept_deltas-hold consumed rs (ground arith)) [
      | inl kept ↦ inl (ground arith)
      | inr (d, e, m, k) ↦ inr (d, in_tail r rs e, m, k)
    ]
  ]

  trim-hold :
      (o : Option ReachabilityRef) (consumed : List Bytes) (version : Bytes) (advance : Bool)
      → deltas_hold key (deltas_of o) ≡ true
      → (deltas_hold key (deltas_of (trim_consumed_by_hash o consumed version advance)) ≡ true)
        ⊎ IsConsumed consumed (deltas_of o)
  unfolding trim_consumed_by_hash deltas_hold member
  trim-hold none consumed version advance h = cc
  trim-hold (some r) consumed version advance h = elim (Bool-cases (is_empty consumed)) [
    | inr some_consumed ↦ rw some_consumed (kept_deltas-hold consumed r.deltas h)
    | inl none_consumed ↦ elim (Bool-cases advance) [
      | inl a ↦ rw (none_consumed, a) (inl h)
      | inr a ↦ rw (none_consumed, a) (inl h)
    ]
  ]

-- The manifest protects the key from the collector.
abbrev pub IsLive : Bytes → WholeBody → Type 0
IsLive key b = member key (add_body b []) ≡ true

-- What a repack may take from the collector's protection.
abbrev pub IsReplaced : Bytes → WholeBody → MergeInput → Type 0
IsReplaced key prev i =
    IsRepacked key i.p0_keys prev.packs
    ⊎ IsConsumed key i.consumed_hashes (deltas_of prev.indexes.reachability)
    ⊎ (index_holds key prev.indexes.object_map ≡ true)
    ⊎ (index_holds key prev.indexes.commit_graph ≡ true)
    ⊎ (shards_hold key prev.refs.ref_shards ≡ true)

-- Of the keys that the manifest protected from the collector, a repack keeps all under protection but
-- those of packs that it repacked, of deltas that it consumed, of the two indexes that it replaces and
-- of shards of refs, whatever pushes have added to the manifest since the run began.
pub build_merged_body-IsLive :
    (key : Bytes) (prev : WholeBody) (i : MergeInput)
    → IsLive key prev
    → IsLive key (build_merged_body prev i) ⊎ IsReplaced key prev i
unfolding build_merged_body packs_hold shards_hold
build_merged_body-IsLive key prev i live =
    let b = build_merged_body prev i in
    let named = sym (member-add_body key prev) ∙ live in
    let all = member-add_body key b in
    elim (Bool-cases (shards_hold key prev.refs.ref_shards)) [
      | inl t ↦ inr (inr (inr (inr (inr t))))
      | inr no_shard ↦ elim (Bool-cases (index_holds key prev.indexes.commit_graph)) [
        | inl t ↦ inr (inr (inr (inr (inl t))))
        | inr no_graph ↦ elim (Bool-cases (index_holds key prev.indexes.object_map)) [
          | inl t ↦ inr (inr (inr (inl t)))
          | inr no_map ↦ elim (Bool-cases (packs_hold key prev.packs)) [
            | inl t ↦ elim (kept_packs-hold key i.p0_keys prev.packs t) [
              | inl kept ↦ inl (all ∙ ground arith)
              | inr gone ↦ inr (inl gone)
            ]
            | inr no_pack ↦
                elim (Bool-cases (deltas_hold key (deltas_of prev.indexes.reachability))) [
                  | inl t ↦
                      elim (trim-hold key prev.indexes.reachability i.consumed_hashes
                        i.base_manifest true t) [
                          | inl kept ↦ inl (all ∙ ground arith)
                          | inr gone ↦ inr (inr (inl gone))
                        ]
                  | inr no_delta ↦ inl (all ∙ ground arith)
                ]
          ]
        ]
      ]
    ]
