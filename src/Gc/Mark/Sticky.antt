-- ===== src/Gc/Mark/Sticky.antt =====
-- What a mark holds: keys that its live set does not name, each with the time at which it was first
-- seen unreachable, which the marks after it keep.
use bucketvcs.Prelude.{
  ℕ, ◌≡◌, ap, sym, ◌∙◌, ◌⊎◌, inl, inr, List, [], ◌∷◌, Option, some, arith, Bytes, eqb, eqb_iff,
  Bool-cases, Option-cases, Elem, at_head, in_tail, Elem-nil, Elem-cons,
}
use mathlib.Core.Path.{subst}
use bucketvcs.Gc.Marks.{Candidate, PackCandidate}
use bucketvcs.Gc.Mark.{find_candidate, find_pack, next_candidates, next_packs}

find_candidate-Elem :
    (key : Bytes) (cs : List Candidate) (c : Candidate)
    → find_candidate key cs ≡ some c
    → Elem c cs × (c.key ≡ key)
unfolding find_candidate
find_candidate-Elem key [] c h = cc
find_candidate-Elem key (d ∷ cs) c h = elim (Option-cases (find_candidate key cs)) [
  | inr (e, q) ↦
      let (m, k) = find_candidate-Elem key cs e q in
      let same : e ≡ c = ground arith in
      (in_tail d cs (subst (λ x. Elem x cs) same m), ap (λ (x : Candidate). x.key) (sym same) ∙ k)
  | inl q ↦ elim (Bool-cases (eqb d.key key)) [
    | inl t ↦
        let same : d ≡ c = ground arith in
        (at_head d cs same, ap (λ (x : Candidate). x.key) (sym same) ∙ (eqb_iff d.key key).0 t)
    | inr f ↦ absurd (ground arith)
  ]
]

find_pack-Elem :
    (key : Bytes) (cs : List PackCandidate) (c : PackCandidate)
    → find_pack key cs ≡ some c
    → Elem c cs × (c.key ≡ key)
unfolding find_pack
find_pack-Elem key [] c h = cc
find_pack-Elem key (d ∷ cs) c h = elim (Option-cases (find_pack key cs)) [
  | inr (e, q) ↦
      let (m, k) = find_pack-Elem key cs e q in
      let same : e ≡ c = ground arith in
      (
        in_tail d cs (subst (λ x. Elem x cs) same m),
        ap (λ (x : PackCandidate). x.key) (sym same) ∙ k,
      )
  | inl q ↦ elim (Bool-cases (eqb d.key key)) [
    | inl t ↦
        let same : d ≡ c = ground arith in
        (at_head d cs same, ap (λ (x : PackCandidate). x.key) (sym same) ∙ (eqb_iff d.key key).0 t)
    | inr f ↦ absurd (ground arith)
  ]
]

-- A candidate of the next mark has a key that was found, and was first seen now or stood in the
-- previous mark as it is.
pub next_candidates-Elem :
    (prev : List Candidate) (now : ℕ) (keys : List Bytes) (c : Candidate)
    → Elem c (next_candidates prev now keys)
    → Elem c.key keys × ((c.first_seen ≡ now) ⊎ Elem c prev)
unfolding next_candidates
next_candidates-Elem prev now [] c m = absurd (Elem-nil c m)
next_candidates-Elem prev now (key ∷ keys) c m = elim (Elem-cons m) [
  | inr t ↦ let (k, s) = next_candidates-Elem prev now keys c t in (in_tail key keys k, s)
  | inl e ↦ elim (Option-cases (find_candidate key prev)) [
    | inl q ↦
        let e' : record { key = key; first_seen = now } ≡ c = rw q at e in
        (
          at_head key keys (ap (λ (x : Candidate). x.key) e'),
          inl (ap (λ (x : Candidate). x.first_seen) (sym e')),
        )
    | inr (old, q) ↦
        let e' : old ≡ c = rw q at e in
        let (i, k) = find_candidate-Elem key prev old q in
        (
          at_head key keys (sym k ∙ ap (λ (x : Candidate). x.key) e'),
          inr (subst (λ x. Elem x prev) e' i),
        )
  ]
]

pub next_packs-Elem :
    (prev : List PackCandidate) (ended : Option ℕ) (now version : ℕ) (keys : List Bytes)
    (c : PackCandidate)
    → Elem c (next_packs prev ended now version keys)
    → Elem c.key keys × ((c.first_seen ≡ now) ⊎ Elem c prev)
unfolding next_packs
next_packs-Elem prev ended now version [] c m = absurd (Elem-nil c m)
next_packs-Elem prev ended now version (key ∷ keys) c m = elim (Elem-cons m) [
  | inr t ↦ let (k, s) = next_packs-Elem prev ended now version keys c t in (in_tail key keys k, s)
  | inl e ↦ elim (Option-cases (find_pack key prev)) [
    | inl q ↦
        let e' : record {
          key = key;
          first_seen = now;
          last_seen_reachable = ended;
          mark_manifest_version = version;
        }
            ≡ c =
          rw q at e in
        (
          at_head key keys (ap (λ (x : PackCandidate). x.key) e'),
          inl (ap (λ (x : PackCandidate). x.first_seen) (sym e')),
        )
    | inr (old, q) ↦
        let e' : old ≡ c = rw q at e in
        let (i, k) = find_pack-Elem key prev old q in
        (
          at_head key keys (sym k ∙ ap (λ (x : PackCandidate). x.key) e'),
          inr (subst (λ x. Elem x prev) e' i),
        )
  ]
]
