-- ===== src/Overview/Chosen.antt =====
-- What choosing an item of the lists above the nodes shows, in web/src/app/App.tsx.
use card_scope.Base.{
  ℕ, ◌<◌, ◌≡◌, refl, sym, ap, ◌∙◌, ◌≢◌, ◌↔◌, Bool, true, List, [], ◌∷◌, String, Ordering, has,
  count, length, total, total_one, arith, eq_iff, ◌==◌,
}
use card_scope.Base.Sorting.{sort, sort-total}
use card_scope.Types.{Gpu, Node}
use card_scope.Status.{capacity_key}
use card_scope.Select.{encode}
use card_scope.Select.Laws.{slice_from-encode}
use card_scope.Overview.{
  Query, empty_query, of_node, shows, stays, selected, filtered, node_order, all_cards,
}
use card_scope.Overview.Matching.{cards_shown-filtered}
use card_scope.Overview.Filters.{Filter, by_tag, by_model, by_capacity, set_value, choose, list}
use card_scope.Overview.Offers.{offers, offers_model, offers_capacity, offers_tag, shown_total}

-- The query after one choice.
abbrev pub chosen : Filter → String → Query
chosen f v = choose f (encode v) empty_query

abbrev pub cards_of : List Node → ℕ
cards_of = total (λ (n : Node). length n.snapshot.gpus)

chosen_lem : (f : Filter) (v : String) → chosen f v ≡ set_value f v empty_query
unfolding choose
chosen_lem f v = ap (λ t. set_value f t empty_query) (slice_from-encode v)

module _ (lower : String → String) (lower_empty : lower "" ≡ "") where
  shows-model :
      (v : String) (n : Node) (g : Gpu)
      → v ≢ ""
      → shows lower (set_value by_model v empty_query) n g ≡ (g.name == v)
  unfolding shows
  shows-model v n g ne = ground (arith, (eq_iff (lower "") "").1 lower_empty, eq_iff v "")

  shows-capacity :
      (v : String) (n : Node) (g : Gpu)
      → v ≢ ""
      → shows lower (set_value by_capacity v empty_query) n g ≡ (capacity_key g == v)
  unfolding shows
  shows-capacity v n g ne = ground (arith, (eq_iff (lower "") "").1 lower_empty, eq_iff v "")

  selected-tag :
      (v : String) (nodes : List Node)
      → v ≢ ""
      → length (selected lower (set_value by_tag v empty_query) nodes)
        ≡ count (λ (n : Node). has n.tags v) nodes
  unfolding selected stays
  selected-tag v [] ne = refl
  selected-tag v (n ∷ ns) ne = ground (arith, selected-tag v ns ne, eq_iff v "")

  shown_cards :
      (locale_compare : String → String → Ordering) (q : Query) (test : Gpu → Bool)
      (nodes : List Node)
      → ((n : Node) → of_node q n ≡ true)
      → ((n : Node) (g : Gpu) → shows lower q n g ≡ test g)
      → cards_of (filtered lower locale_compare q nodes)
        ≡ count (λ (c : Gpu × Node). test c.0) (all_cards nodes)
  shown_cards locale_compare q test nodes every_node every_card =
      cards_shown-filtered lower locale_compare q nodes
      ∙ shown_total lower q test nodes every_node every_card

  shown_nodes :
      (locale_compare : String → String → Ordering) (v : String) (nodes : List Node)
      → v ≢ ""
      → length (filtered lower locale_compare (set_value by_tag v empty_query) nodes)
        ≡ count (λ (n : Node). has n.tags v) nodes
  unfolding filtered
  shown_nodes locale_compare v nodes ne =
      let q = set_value by_tag v empty_query in
      let found = selected lower q nodes in
      sym (total_one (sort (node_order locale_compare q.sort) found))
      ∙ sort-total (node_order locale_compare q.sort) (λ n. 1) found
      ∙ total_one found
      ∙ selected-tag v nodes ne

  module _ (by_units locale_compare : String → String → Ordering) (nodes : List Node) where
    -- What a list offers, and the nodes that are shown after one choice in it.
    abbrev pub listed : Filter → String → Bool
    listed f v = offers (list by_units locale_compare f empty_query nodes) v

    abbrev pub found_by : Filter → String → List Node
    found_by f v = filtered lower locale_compare (chosen f v) nodes

    -- The lists of models, capacities and tags offer exactly what there is to show: a value but the
    -- empty one is offered if and only if choosing it, with nothing else chosen, shows a card, or for
    -- a tag a node. No choice leads to an empty list, and none is missing. `toLowerCase` keeps the
    -- empty text.
    pub offers-shows :
        (v : String)
        → v ≢ ""
        → ((listed by_model v ≡ true) ↔ (0 < cards_of (found_by by_model v)))
          × ((listed by_capacity v ≡ true) ↔ (0 < cards_of (found_by by_capacity v)))
          × ((listed by_tag v ≡ true) ↔ (0 < length (found_by by_tag v)))
    offers-shows v ne =
        let model = set_value by_model v empty_query in
        let capacity = set_value by_capacity v empty_query in
        rw (chosen_lem by_model v, chosen_lem by_capacity v, chosen_lem by_tag v)
          (grind (
            arith,
            eq_iff "" v,
            offers_model by_units locale_compare empty_query nodes v,
            offers_capacity by_units locale_compare empty_query nodes v,
            offers_tag by_units locale_compare empty_query nodes v refl,
            shown_cards locale_compare model (λ g. g.name == v) nodes (λ n. refl)
                (λ n g. shows-model v n g ne),
            shown_cards locale_compare capacity (λ g. capacity_key g == v) nodes (λ n. refl)
                (λ n g. shows-capacity v n g ne),
            shown_nodes locale_compare v nodes ne,
          ))
