-- ===== src/Iterator/TermLite/Served.antt =====
-- A term's iterator serves the hits that it retrieves, each once and in their order.
use external_icing.Base.{
  ℕ, suc, ◌≤◌, ◌≡◌, refl, sym, ap, subst, List, [], ◌++◌, Option, none, some, arith, map, get_elem?,
  drop, Option-cases, inl, inr, drop-get_elem?-none, drop-get_elem?-some,
}
use external_icing.Hit.{invalid_document_id}
use external_icing.DocHitInfo.{DocHitInfo}
use external_icing.Iterator.{Match, doc, no_match, Below, Enumerates, Moves}
use external_icing.Iterator.TermLite.{
  TermLite, make_term, at_hit, serve, term_advance, term_operations, Retrieved, complete,
  interrupted,
}

-- The hits that are still to be served.
abbrev pub pending : Retrieved → TermLite → List DocHitInfo
pending retrieved t = elim t.cached_hits_idx [
  | none ↦ elim retrieved [ interrupted _ ↦ [] | complete hits ↦ t.cached_hits ++ hits ]
  | some i ↦ drop (suc i) t.cached_hits
]

pub record TermYields (retrieved : Retrieved) (t : TermLite) (ms : List Match) : Type 0 where
  pub rest : ms ≡ map at_hit (pending retrieved t)
  pub base_past :
      (hits : List DocHitInfo)
      → retrieved ≡ interrupted hits
      → t.cached_hits_idx ≡ none
      → doc t.base ≡ invalid_document_id
  pub falls : Below (doc t.base) ms
  pub bound : doc t.base ≤ invalid_document_id

module _ (retrieved : Retrieved) where
  serve_lem :
      (hits : List DocHitInfo) (i n : ℕ)
      → Below n (map at_hit (drop i hits))
      → n ≤ invalid_document_id
      → Moves
          (term_operations retrieved)
          (TermYields retrieved)
          (map at_hit (drop i hits))
          (serve hits i)
  unfolding serve no_match
  serve_lem hits i n b h = elim (Option-cases (get_elem? hits i)) [
    | inl e ↦
        let past = drop-get_elem?-none hits i e in
        rw (past.0, e, serve)
          (
            refl,
            refl,
            record {
              rest = ap (map at_hit) (sym past.1);
              base_past = λ _ _ c. cc;
              falls = tt;
              bound = omega arith;
            },
          )
    | inr (x, e) ↦
        let next = drop-get_elem?-some hits i x e in
        let falls = subst (λ zs. Below n (map at_hit zs)) next b in
        rw (next, e, serve)
          (
            refl,
            refl,
            record { rest = refl; base_past = λ _ _ c. cc; falls = falls.1; bound = omega arith },
          )
  ]

  step :
      (cached : List DocHitInfo) (idx : Option ℕ) (base : Match) (got : Retrieved)
      → retrieved ≡ got
      → let t : TermLite = record { cached_hits = cached; cached_hits_idx = idx; base = base } in
        Below (doc base) (map at_hit (pending got t))
        → doc base ≤ invalid_document_id
        → ((hits : List DocHitInfo)
            → got ≡ interrupted hits
            → idx ≡ none
            → doc base ≡ invalid_document_id)
        → Moves
            (term_operations retrieved)
            (TermYields retrieved)
            (map at_hit (pending got t))
            (term_advance got t)
  unfolding term_advance
  step cached none base (interrupted hits) e b h p = (
    refl,
    p hits refl refl,
    record { rest = rw e; base_past = λ _ _ _. p hits refl refl; falls = tt; bound = h },
  )
  step cached none base (complete hits) e b h p = serve_lem (cached ++ hits) 0 (doc base) b h
  step cached (some i) base got e b h p = serve_lem cached (suc i) (doc base) b h

  -- A term's iterator keeps the contract, when the hits that it retrieves are in falling order.
  pub term_operations-Enumerates :
      Enumerates TermLite (term_operations retrieved) (TermYields retrieved)
  term_operations-Enumerates = record {
    falling = λ t ms v. v.falls;
    bounded = λ t ms v. v.bound;
    step = λ t ms v.
        subst
          (λ zs.
            Moves (term_operations retrieved) (TermYields retrieved) zs (term_advance retrieved t))
          (sym v.rest)
          (step t.cached_hits t.cached_hits_idx t.base retrieved refl
            (subst (Below (doc t.base)) v.rest v.falls) v.bound v.base_past);
  }

-- A new iterator has the hits before it that it will retrieve, or none if that fails.
pub make_term-TermYields :
    (hits : List DocHitInfo)
    → Below invalid_document_id (map at_hit hits)
    → TermYields (complete hits) make_term (map at_hit hits)
unfolding make_term no_match
make_term-TermYields hits b = record {
  rest = refl;
  base_past = λ _ _ _. refl;
  falls = b;
  bound = omega arith;
}

pub make_term-TermYields-none :
    (hits : List DocHitInfo) → TermYields (interrupted hits) make_term []
unfolding make_term no_match
make_term-TermYields-none hits = record {
  rest = refl;
  base_past = λ _ _ _. refl;
  falls = tt;
  bound = omega arith;
}
