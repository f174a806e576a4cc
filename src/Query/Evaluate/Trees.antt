-- ===== src/Query/Evaluate/Trees.antt =====
-- The n-ary iterators of a tree, and trees as a whole.
use external_icing.Base.{
  ℕ, suc, ◌<◌, ◌≤◌, ◌≡◌, refl, sym, ap, ap₂, ◌∙◌, subst, [], ◌∷◌, Option, none, arith,
}
use external_icing.Hit.{invalid_document_id, max_document_id}
use external_icing.Iterator.{Match, no_match}
use external_icing.Iterator.Matches.{find, Below-mono}
use external_icing.Iterator.Row.Columns.{finds}
use external_icing.Iterator.Row.Start.{
  in_row-RowStart, joins, joins-Below, find-joins, unions, unions-Below, find-unions,
}
use external_icing.Iterator.AndNary.{make_and_nary}
use external_icing.Iterator.AndNary.Meet.{common}
use external_icing.Iterator.AndNary.Common.{
  AndNaryYields, and_nary_operations-Enumerates, make_and_nary-AndNaryYields,
}
use external_icing.Iterator.OrNary.{make_or_nary}
use external_icing.Iterator.OrNary.Any.{
  PositiveYields, or_nary_operations-Enumerates, make_or_nary-OrNaryYields,
}
use external_icing.Iterator.OrNary.Collect.{any}
use external_icing.Query.{
  Node, Nodes, term, all_document_id, and_binary, and_nary, or_binary, or_nary, not_node,
  section_restrict, filter, no_more, more,
}
use external_icing.Query.Evaluate.{
  Iterator, Stores, build, build_all, meaning, meanings, count_nodes, Fits, AllFit,
}
use external_icing.Query.Evaluate.Sound.{
  Evaluates, Sound, AllSound, term-Sound, all-Sound, and-Sound, or-Sound, not-Sound, filter-Sound,
  restrict-Sound, none-AllSound, more-AllSound,
}

module _ (stores : Stores) (leaf : ℕ → Iterator) (term_match : ℕ → ℕ → Option Match) (last : ℕ)
    (valid : last ≤ max_document_id)
    (leaves : (k : ℕ) → Evaluates last (leaf k) (term_match k)) where
  abbrev TreeSound : Node → Type 1
  TreeSound = Sound stores leaf term_match last valid leaves

  abbrev TreesSound : Nodes → Type 1
  TreesSound = AllSound stores leaf term_match last valid leaves

  and_nary-Sound :
      (n : Node) (ns : Nodes)
      → 0 < count_nodes stores term_match ns
      → TreeSound n
      → TreesSound ns
      → TreeSound (and_nary (more n ns))
  unfolding build meaning make_and_nary no_match
  and_nary-Sound n ns several e f =
      let i = build stores leaf n in
      let v = build_all stores leaf ns in
      let start =
        in_row-RowStart i.operations v.row e.Yields f.RowYields i.state v.states e.matches f.lists
          e.yields e.fresh f.start in
      let ms = joins e.matches f.lists in
      let finds_ms : (d : ℕ) → find d ms ≡ common (finds d (e.matches ∷ f.lists)) =
        λ d. find-joins d (suc last) e.matches f.lists e.below in
      let below = joins-Below (suc last) e.matches f.lists e.below in
      record {
        Yields = AndNaryYields i.operations v.row e.Yields f.RowYields e.law f.law;
        law =
            and_nary_operations-Enumerates i.operations v.row e.Yields f.RowYields e.law f.law
              (omega (arith, several, f.size));
        matches = ms;
        yields =
            make_and_nary-AndNaryYields i.operations v.row e.Yields f.RowYields e.law f.law
              (i.state, v.states) start.columns ms start.yields e.fresh
              (Below-mono (suc last) invalid_document_id ms (omega (arith, valid)) below)
              (λ d h. finds_ms d ∙ ap common (sym (start.same d h)));
        fresh = refl;
        below = below;
        has = λ d. finds_ms d ∙ ap common (ap₂ (◌∷◌) (e.has d) (f.has d));
      }

  or_nary-Sound :
      (ns : Nodes)
      → 1 < count_nodes stores term_match ns
      → any (meanings stores term_match ns 0) ≡ none
      → TreesSound ns
      → TreeSound (or_nary ns)
  unfolding build meaning make_or_nary no_match
  or_nary-Sound ns several zero_free f =
      let v = build_all stores leaf ns in
      let ms = unions [] f.lists in
      let finds_ms : (d : ℕ) → find d ms ≡ any (finds d f.lists) =
        λ d. find-unions d (suc last) [] f.lists tt f.below in
      let below = unions-Below (suc last) [] f.lists tt f.below in
      let enough : 1 < (v.row).size = omega (arith, several, f.size) in
      record {
        Yields = PositiveYields v.row f.RowYields f.law enough;
        law = or_nary_operations-Enumerates v.row f.RowYields f.law enough;
        matches = ms;
        yields = record {
          some_yields =
              make_or_nary-OrNaryYields v.row f.RowYields f.law enough v.states (f.start).columns ms
                (f.start).yields
                (Below-mono (suc last) invalid_document_id ms (omega (arith, valid)) below)
                (λ d h. finds_ms d ∙ ap any (sym ((f.start).same d h)));
          no_zero = finds_ms 0 ∙ ap any (f.has 0) ∙ zero_free;
          positive = omega arith;
        };
        fresh = refl;
        below = below;
        has = λ d. finds_ms d ∙ ap any (f.has d);
      }

  mutual
    unfolding Fits

    pub tree-Sound : (n : Node) → Fits stores term_match last n → TreeSound n
    tree-Sound (term k) h = term-Sound stores leaf term_match last valid leaves k
    tree-Sound (all_document_id limit) h =
        subst (λ (l : ℕ). TreeSound (all_document_id l)) (sym h)
          (all-Sound stores leaf term_match last valid leaves)
    tree-Sound (and_binary a b) h =
        and-Sound stores leaf term_match last valid leaves a b (tree-Sound a h.0) (tree-Sound b h.1)
    tree-Sound (and_nary no_more) h = absurd (omega (arith, h.0))
    tree-Sound (and_nary (more n ns)) h =
        and_nary-Sound n ns (omega (arith, h.0)) (tree-Sound n (h.1).0) (trees-Sound ns (h.1).1)
    tree-Sound (or_binary a b) h =
        or-Sound stores leaf term_match last valid leaves a b (tree-Sound a h.0) (tree-Sound b h.1)
    tree-Sound (or_nary ns) h = or_nary-Sound ns h.0 h.2 (trees-Sound ns h.1)
    tree-Sound (not_node n limit) h =
        subst (λ (l : ℕ). TreeSound (not_node n l)) (sym h.0)
          (not-Sound stores leaf term_match last valid leaves n (tree-Sound n h.1))
    tree-Sound (section_restrict n section) h =
        restrict-Sound stores leaf term_match last valid leaves n section (tree-Sound n h)
    tree-Sound (filter n options) h =
        filter-Sound stores leaf term_match last valid leaves n options (tree-Sound n h)

    trees-Sound : (ns : Nodes) → AllFit stores term_match last ns → TreesSound ns
    trees-Sound no_more h = none-AllSound stores leaf term_match last valid leaves
    trees-Sound (more n ns) h =
        more-AllSound stores leaf term_match last valid leaves n ns (tree-Sound n h.0)
          (trees-Sound ns h.1)
