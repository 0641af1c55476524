-- ===== src/Objindex/Search.antt =====
-- The binary search of internal/objindex finds what a scan of its records finds.
use bucketvcs.Prelude.{
  ℕ, zero, suc, ◌+◌, ◌/◌, ◌≤◌, ◌<◌, ◌≡◌, refl, ap, ◌∙◌, ◌⊎◌, inl, inr, Bool, true, false, not,
  Option, none, some, arith, ltb, ◌==◌, if◌then◌else◌, length, Bytes, eqb, eqb_iff, lex_lt,
  lex_lt-transitive, Bool-cases, Option-cases,
}
use bucketvcs.Prelude.{get_elem?}
use bucketvcs.Prelude.Sort.{find_by}
use bucketvcs.Objindex.{Map, search_loop, search, record_oid, oid_at, read_entry, lookup}
use bucketvcs.Objindex.Scan.{
  Increasing, oid_at-lt, scan, differs, scan_at, scan_none, get_elem?-some,
}

-- The search splits the places below `n` where the test fails up to some place from there on.
module _ (n : ℕ) (f : ℕ → Bool) (up : (i j : ℕ) → i < j → j < n → f i ≡ true → f j ≡ true) where
  -- Below the result the test fails; at the result it holds, unless that is the end.
  abbrev pub Splits : ℕ → Type 0
  Splits r = (r ≤ n) × ((i : ℕ) → i < r → f i ≡ false) × ((r ≡ n) ⊎ (f r ≡ true))

  stays_low : (h : ℕ) → f h ≡ false → h < n → (k : ℕ) → k ≤ h → f k ≡ false
  stays_low h low hn k le = elim (Bool-cases (f k)) [
    | inr q ↦ q
    | inl t ↦ elim (Bool-cases (ltb k h)) [
      | inl lt ↦ cc (up k h (ground arith) hn t, low)
      | inr ge ↦ let e : k ≡ h = ground arith in rw e low
    ]
  ]

  search_loop-Splits :
      (fuel i j : ℕ)
      → i ≤ j
      → j ≤ n
      → j ≤ fuel + i
      → ((k : ℕ) → k < i → f k ≡ false)
      → ((j ≡ n) ⊎ (f j ≡ true))
      → Splits (search_loop fuel f i j)
  unfolding search_loop
  search_loop-Splits zero i j ij jn enough below above =
      let e : j ≡ i = omega arith in
      (omega arith, below, elim above [ inl q ↦ inl (omega arith) | inr t ↦ inr (rw (← e) t) ])
  search_loop-Splits (suc fuel) i j ij jn enough below above = elim (Bool-cases (ltb i j)) [
    | inr stop ↦
        let e : j ≡ i = ground arith in
        rw (stop, search_loop)
          (omega arith, below, elim above [ inl q ↦ inl (omega arith) | inr t ↦ inr (rw (← e) t) ])
    | inl go ↦
        let h = (i + j) / 2 in
        let lt : i < j = ground arith in
        elim (Bool-cases (f h)) [
          | inr low ↦
              rw (go, low, search_loop)
                (search_loop-Splits fuel (h + 1) j (omega arith) jn (omega arith)
                  (λ k le. stays_low h low (omega arith) k (omega arith)) above)
          | inl high ↦
              rw (go, high, search_loop)
                (search_loop-Splits fuel i h (omega arith) (omega arith) (omega arith) below
                  (inr high))
        ]
  ]

  pub search-Splits : Splits (search n f)
  unfolding search
  search-Splits =
      search_loop-Splits n 0 n (omega arith) (omega arith) (omega arith)
        (λ k h. absurd (omega arith)) (inl refl)

module _ (m : Map) (whole : m.count ≡ length m.records) (inc : Increasing m.records)
    (oid : Bytes) where
  abbrev reached : ℕ → Bool
  reached i = not (lex_lt (oid_at m.records i) oid)

  reached-up : (i j : ℕ) → i < j → j < m.count → reached i ≡ true → reached j ≡ true
  reached-up i j ij jn h = elim (Bool-cases (lex_lt (oid_at m.records j) oid)) [
    | inr f ↦ rw f refl
    | inl t ↦ absurd (
        ground (
          arith,
          lex_lt-transitive (oid_at m.records i) (oid_at m.records j) oid
              (oid_at-lt m.records i j inc ij (omega arith)) t,
        ))
  ]

  abbrev pos : ℕ
  pos = search m.count (λ i. not (lex_lt (oid_at m.records i) oid))

  split_at : Splits m.count reached reached-up pos
  split_at = search-Splits m.count reached reached-up

  lows : (i : ℕ) → i < pos → lex_lt (oid_at m.records i) oid ≡ true
  lows i h = elim (Bool-cases (lex_lt (oid_at m.records i) oid)) [
    | inl t ↦ t
    | inr f ↦ cc (split_at.1 i h, f)
  ]

  abbrev after_scan : Option Bytes → Option (Bytes × ℕ)
  after_scan none = none
  after_scan (some rec) = read_entry m.pack_table rec

  scan_of : (o : Option Bytes) → find_by record_oid oid m.records ≡ o → scan m oid ≡ after_scan o
  unfolding scan
  scan_of none e = rw (e, scan) refl
  scan_of (some rec) e = rw (e, scan) refl

  lookup_end : pos ≡ m.count → lookup m oid ≡ none
  unfolding lookup
  lookup_end e = let at_end : (pos == m.count) ≡ true = ground arith in rw (at_end, lookup) refl

  lookup_rec :
      (rec : Bytes)
      → pos < m.count
      → get_elem? m.records pos ≡ some rec
      → lookup m oid
        ≡ (if not (eqb (record_oid rec) oid) then none else read_entry m.pack_table rec)
  unfolding lookup
  lookup_rec rec lt g =
      let inside : (pos == m.count) ≡ false = ground arith in rw (inside, g, lookup) refl

  later_differs :
      (rec : Bytes)
      → oid_at m.records pos ≡ record_oid rec
      → reached pos ≡ true
      → eqb (record_oid rec) oid ≡ false
      → (i : ℕ) → i < m.count
      → eqb (oid_at m.records i) oid ≡ false
  later_differs rec here high f i lt = elim (Bool-cases (ltb i pos)) [
    | inl before ↦ differs oid (oid_at m.records i) (lows i (ground arith))
    | inr not_before ↦ elim (Bool-cases (i == pos)) [
      | inl same ↦
          let e : i ≡ pos = ground arith in
          ap (λ k. eqb (oid_at m.records k) oid) e ∙ ap (λ x. eqb x oid) here ∙ f
      | inr after ↦ elim (Bool-cases (eqb (oid_at m.records i) oid)) [
        | inr q ↦ q
        | inl t ↦
            let e : oid_at m.records i ≡ oid = (eqb_iff (oid_at m.records i) oid).0 t in
            let l : lex_lt (oid_at m.records pos) (oid_at m.records i) ≡ true =
              oid_at-lt m.records pos i inc (ground arith) (omega arith) in
            cc (rw e at l, high)
      ]
    ]
  ]

  lookup_at : pos < m.count → reached pos ≡ true → lookup m oid ≡ scan m oid
  lookup_at lt high = elim (Option-cases (get_elem? m.records pos)) [
    | inl g ↦ let (rec, g') = get_elem?-some m.records pos (omega arith) in cc (g, g')
    | inr (rec, g) ↦
        let here : oid_at m.records pos ≡ record_oid rec = rw (g, oid_at) refl in
        elim (Bool-cases (eqb (record_oid rec) oid)) [
          | inl t ↦
              let found : find_by record_oid oid m.records ≡ some rec =
                scan_at oid m.records pos rec g ((eqb_iff (record_oid rec) oid).0 t) lows in
              lookup_rec rec lt g ∙ rw (t, scan_of (some rec) found) refl
          | inr f ↦
              let none_here : find_by record_oid oid m.records ≡ none =
                scan_none oid m.records (λ i h. later_differs rec here high f i (omega arith)) in
              lookup_rec rec lt g ∙ rw (f, scan_of none none_here) refl
        ]
  ]

  -- The binary search finds what a scan finds.
  pub lookup-eq-scan : lookup m oid ≡ scan m oid
  lookup-eq-scan =
      let (le, low, end) = split_at in
      elim end [
        | inl e ↦
            let none_here : find_by record_oid oid m.records ≡ none =
              scan_none oid m.records
                (λ i h. differs oid (oid_at m.records i) (lows i (omega arith))) in
            lookup_end e ∙ rw (scan_of none none_here) refl
        | inr high ↦ elim (Bool-cases (pos == m.count)) [
          | inl e ↦
              let none_here : find_by record_oid oid m.records ≡ none =
                scan_none oid m.records
                  (λ i h. differs oid (oid_at m.records i) (lows i (ground arith))) in
              lookup_end (ground arith) ∙ rw (scan_of none none_here) refl
          | inr inside ↦ lookup_at (ground arith) high
        ]
      ]
