-- ===== src/Query/Evaluate/Sound.antt =====
-- The iterators of a tree walk the documents that the tree stands for.
use external_icing.Base.{ℕ, suc, ◌≤◌, ◌≡◌, refl, ap, ap₂, ◌∙◌, subst, List, [], ◌∷◌, Option, arith}
use external_icing.Hit.{invalid_document_id, max_document_id}
use external_icing.Iterator.{Match, doc, no_match, Below, Operations, Enumerates}
use external_icing.Iterator.Matches.{find, Below-mono, join, join-Below, find-join, meet_options}
use external_icing.Iterator.AllDocumentId.{
  AllYields, all_operations-Enumerates, make_all, make_all-AllYields, descending, descending-Below,
  find-descending,
}
use external_icing.Iterator.And.{make_and}
use external_icing.Iterator.And.Join.{AndYields, and_operations-Enumerates, make_and-AndYields}
use external_icing.Iterator.Or.{make_or}
use external_icing.Iterator.Or.Union.{OrYields, or_operations-Enumerates, make_or-OrYields}
use external_icing.Iterator.Or.Lists.{union, union-Below, find-union, either_match}
use external_icing.Iterator.Not.{make_not}
use external_icing.Iterator.Not.Complement.{
  NotYields, not_operations-Enumerates, make_not-NotYields,
}
use external_icing.Iterator.Not.Missing.{missing, missing-Below, find-missing, unless_found}
use external_icing.Iterator.Row.{in_row}
use external_icing.Iterator.Row.Columns.{
  Columns, finds, RowLaw, no_row-RowLaw, NoYields, InRowYields,
}
use external_icing.Iterator.Row.InRow.{in_row-RowLaw}
use external_icing.Iterator.Row.Start.{AllBelow, RowStart, no_row-RowStart, in_row-RowStart}
use external_icing.Iterator.Select.{
  make_delegating, KeepsDoc, selected, selected-Below, find-selected, SelectYields, then_pick,
}
use external_icing.Iterator.Select.Filter.{
  pick_shown-KeepsDoc, filter_operations-Enumerates, FilterYields,
}
use external_icing.Iterator.Select.SectionRestrict.{
  pick_restricted-KeepsDoc, restrict_operations-Enumerates, RestrictYields,
}
use external_icing.Store.{Text}
use external_icing.Query.{
  Options, Node, Nodes, term, all_document_id, and_binary, or_binary, not_node, section_restrict,
  filter, no_more, more,
}
use external_icing.Query.Evaluate.{
  Iterator, Vector, Stores, targets, build, build_all, restricted_by, shown_by, meaning, meanings,
  count_nodes,
}

-- A new iterator that keeps the contract, and the matches that it has before it, all of documents up to
-- the last one.
pub record Evaluates (last : ℕ) (i : Iterator) (means : ℕ → Option Match) : Type 1 where
  pub Yields : i.State → List Match → Type 0
  pub law : Enumerates i.State i.operations Yields
  pub matches : List Match
  pub yields : Yields i.state matches
  pub fresh : doc ((i.operations).current i.state) ≡ invalid_document_id
  pub below : Below (suc last) matches
  pub has : (d : ℕ) → find d matches ≡ means d

pub record EvaluatesAll (last count : ℕ) (v : Vector) (means : ℕ → List (Option Match))
    : Type 1 where
  pub RowYields : v.States → Columns → Type 0
  pub law : RowLaw v.row RowYields
  pub lists : Columns
  pub start : RowStart RowYields v.states lists
  pub below : AllBelow (suc last) lists
  pub size : (v.row).size ≡ count
  pub has : (d : ℕ) → finds d lists ≡ means d

module _ (stores : Stores) (leaf : ℕ → Iterator) (term_match : ℕ → ℕ → Option Match) (last : ℕ)
    (valid : last ≤ max_document_id)
    (leaves : (k : ℕ) → Evaluates last (leaf k) (term_match k)) where
  abbrev pub Sound : Node → Type 1
  Sound n = Evaluates last (build stores leaf n) (meaning stores term_match n)

  abbrev pub AllSound : Nodes → Type 1
  AllSound ns =
      EvaluatesAll last (count_nodes stores term_match ns) (build_all stores leaf ns)
        (meanings stores term_match ns)

  pub term-Sound : (k : ℕ) → Sound (term k)
  unfolding build meaning
  term-Sound k = leaves k

  pub all-Sound : Sound (all_document_id last)
  unfolding build meaning make_all no_match
  all-Sound = record {
    Yields = AllYields;
    law = all_operations-Enumerates;
    matches = descending (suc last);
    yields = subst (AllYields (make_all last)) (ground arith) (make_all-AllYields last);
    fresh = refl;
    below = descending-Below (suc last) (suc last) (omega arith);
    has = λ d. find-descending d (suc last);
  }

  pub and-Sound : (a b : Node) → Sound a → Sound b → Sound (and_binary a b)
  unfolding build meaning make_and no_match
  and-Sound a b e f =
      let i = build stores leaf a in
      let j = build stores leaf b in
      record {
        Yields = AndYields i.operations j.operations e.Yields f.Yields;
        law = and_operations-Enumerates i.operations j.operations e.Yields f.Yields e.law f.law;
        matches = join e.matches f.matches;
        yields =
            make_and-AndYields i.operations j.operations e.Yields f.Yields e.law f.law i.state
              j.state e.matches f.matches e.yields f.yields;
        fresh = refl;
        below = join-Below (suc last) e.matches f.matches e.below;
        has = λ d.
            find-join d (suc last) e.matches f.matches e.below
            ∙ ap₂ meet_options (e.has d) (f.has d);
      }

  pub or-Sound : (a b : Node) → Sound a → Sound b → Sound (or_binary a b)
  unfolding build meaning make_or no_match
  or-Sound a b e f =
      let i = build stores leaf a in
      let j = build stores leaf b in
      record {
        Yields = OrYields i.operations j.operations e.Yields f.Yields;
        law = or_operations-Enumerates i.operations j.operations e.Yields f.Yields e.law f.law;
        matches = union e.matches f.matches;
        yields =
            make_or-OrYields i.operations j.operations e.Yields f.Yields e.law f.law i.state j.state
              e.matches f.matches e.yields f.yields;
        fresh = refl;
        below = union-Below (suc last) e.matches f.matches e.below f.below;
        has = λ d.
            find-union d (suc last) e.matches f.matches e.below f.below
            ∙ ap₂ either_match (e.has d) (f.has d);
      }

  pub not-Sound : (n : Node) → Sound n → Sound (not_node n last)
  unfolding build meaning make_not no_match
  not-Sound n e =
      let i = build stores leaf n in
      record {
        Yields = NotYields i.operations e.Yields e.law;
        law = not_operations-Enumerates i.operations e.Yields e.law;
        matches = missing (suc last) e.matches;
        yields =
            make_not-NotYields i.operations e.Yields e.law i.state last e.matches valid e.fresh
              e.yields e.below;
        fresh = refl;
        below = missing-Below (suc last) (suc last) e.matches (omega arith);
        has = λ d.
            find-missing d (suc last) e.matches
            ∙ ap (λ (o : Option Match). unless_found o d (suc last)) (e.has d);
      }

  -- What a filter or a restriction has before it.
  starts :
      {S : Type 0} (it : Operations S) (pick : Match → Option Match) (keeps : KeepsDoc pick)
      (Yields : S → List Match → Type 0) (law : Enumerates S it Yields) (s : S) (ms : List Match)
      → Yields s ms
      → Below (suc last) ms
      → SelectYields it pick keeps Yields law (make_delegating s) (selected pick ms)
  unfolding make_delegating no_match
  starts it pick keeps Yields law s ms y b = record {
    before = ms;
    delegate_yields = y;
    rest = refl;
    falls =
        Below-mono (suc last) invalid_document_id (selected pick ms) (omega (arith, valid))
          (selected-Below pick keeps (suc last) ms b);
    bound = omega arith;
  }

  pub filter-Sound : (n : Node) (options : Options) → Sound n → Sound (filter n options)
  unfolding build meaning make_delegating no_match
  filter-Sound n options e =
      let i = build stores leaf n in
      let exists = stores.does_document_exist in
      let data_of = stores.get_document_filter_data in
      let wanted = targets stores options in
      let pick = shown_by stores options in
      let keeps = pick_shown-KeepsDoc i.operations exists data_of wanted in
      record {
        Yields = FilterYields i.operations exists data_of wanted e.Yields e.law;
        law = filter_operations-Enumerates i.operations exists data_of wanted e.Yields e.law;
        matches = selected pick e.matches;
        yields = starts i.operations pick keeps e.Yields e.law i.state e.matches e.yields e.below;
        fresh = refl;
        below = selected-Below pick keeps (suc last) e.matches e.below;
        has = λ d.
            find-selected pick keeps d (suc last) e.matches e.below ∙ ap (then_pick pick) (e.has d);
      }

  pub restrict-Sound : (n : Node) (section : Text) → Sound n → Sound (section_restrict n section)
  unfolding build meaning make_delegating no_match
  restrict-Sound n section e =
      let i = build stores leaf n in
      let equal = stores.path_equal in
      let path = stores.get_section_path in
      let data_of = stores.get_document_filter_data in
      let pick = restricted_by stores section in
      let keeps = pick_restricted-KeepsDoc equal path section i.operations data_of in
      record {
        Yields = RestrictYields equal path section i.operations data_of e.Yields e.law;
        law = restrict_operations-Enumerates equal path section i.operations data_of e.Yields e.law;
        matches = selected pick e.matches;
        yields = starts i.operations pick keeps e.Yields e.law i.state e.matches e.yields e.below;
        fresh = refl;
        below = selected-Below pick keeps (suc last) e.matches e.below;
        has = λ d.
            find-selected pick keeps d (suc last) e.matches e.below ∙ ap (then_pick pick) (e.has d);
      }

  pub none-AllSound : AllSound no_more
  unfolding build meaning
  none-AllSound = record {
    RowYields = NoYields;
    law = no_row-RowLaw;
    lists = [];
    start = no_row-RowStart;
    below = tt;
    size = refl;
    has = λ d. refl;
  }

  pub more-AllSound : (n : Node) (ns : Nodes) → Sound n → AllSound ns → AllSound (more n ns)
  unfolding build meaning in_row
  more-AllSound n ns e f =
      let i = build stores leaf n in
      let v = build_all stores leaf ns in
      record {
        RowYields = InRowYields i.operations v.row e.Yields f.RowYields;
        law = in_row-RowLaw i.operations v.row e.Yields f.RowYields e.law f.law;
        lists = e.matches ∷ f.lists;
        start =
            in_row-RowStart i.operations v.row e.Yields f.RowYields i.state v.states e.matches
              f.lists e.yields e.fresh f.start;
        below = (e.below, f.below);
        size = ap suc f.size;
        has = λ d. ap₂ (◌∷◌) (e.has d) (f.has d);
      }
