-- ===== src/Overview/Gone.antt =====
-- A choice in the lists of web/src/app/App.tsx that the cluster does not have any more.
use card_scope.Base.{
  ◌≤◌, ◌≡◌, refl, ◌≢◌, Bool, true, false, List, [], ◌∷◌, String, Ordering, All, All-keep, count,
  count_le, length, total, total_indicator, is_empty, indicator, arith, eq_iff, ◌==◌, ◌⊎◌, inl, inr,
}
use card_scope.Base.Sorting.{sort-All}
use card_scope.Types.{Gpu, Node}
use card_scope.Status.{capacity_key}
use card_scope.Overview.{Query, shows, stays, selected, filtered, node_order, all_cards}
use card_scope.Overview.Matching.{shown, cards_shown-filtered}
use card_scope.Overview.Availability.{count-all_cards}
use card_scope.Overview.Filters.{by_model, by_capacity, list}
use card_scope.Overview.Offers.{offers, offers_model, offers_capacity}
use card_scope.Overview.Chosen.{cards_of}

-- The node has a card.
abbrev HasCards : Node → Type 0
HasCards n = is_empty n.snapshot.gpus ≡ false

some_cards : (gs : List Gpu) → is_empty gs ≡ false → 1 ≤ length gs
some_cards [] h = absurd (cc h)
some_cards (g ∷ gs) h = omega arith

none_total : (ns : List Node) → All HasCards ns → cards_of ns ≡ 0 → ns ≡ []
none_total [] h e = refl
none_total (n ∷ ns) h e = absurd (omega (arith, e, some_cards n.snapshot.gpus h.0))

module _ (lower : String → String) where
  stays-HasCards :
      (q : Query) (n : Node)
      → (q.model ≢ "") ⊎ (q.capacity ≢ "")
      → stays lower q n ≡ true
      → HasCards n
  unfolding stays
  stays-HasCards q n chosen h = ground (arith, eq_iff q.model "", eq_iff q.capacity "")

  selected-HasCards :
      (q : Query) (nodes : List Node)
      → (q.model ≢ "") ⊎ (q.capacity ≢ "")
      → All HasCards (selected lower q nodes)
  unfolding selected
  selected-HasCards q nodes some_choice =
      All-keep HasCards (stays lower q) _ (λ n. stays-HasCards q n some_choice)

  shown_le :
      (q : Query) (test : Gpu → Bool) (nodes : List Node)
      → ((n : Node) (g : Gpu) → shows lower q n g ≡ true → test g ≡ true)
      → total (shown lower q) nodes ≤ count (λ (c : Gpu × Node). test c.0) (all_cards nodes)
  shown_le q test nodes passes = rw (count-all_cards (λ g n. test g) nodes) (total_le nodes)
    where
      total_le :
          (ns : List Node)
          → total (shown lower q) ns
            ≤ total (λ (n : Node). total (λ g. indicator (test g)) n.snapshot.gpus) ns
      total_le [] = omega arith
      total_le (n ∷ ns) = ground (
        arith,
        total_le ns,
        count_le (λ g. shows lower q n g) test n.snapshot.gpus (passes n),
        total_indicator test n.snapshot.gpus,
      )

  -- A query of cards that are not there lists nothing.
  nothing_left :
      (locale_compare : String → String → Ordering) (q : Query) (test : Gpu → Bool)
      (nodes : List Node)
      → (q.model ≢ "") ⊎ (q.capacity ≢ "")
      → ((n : Node) (g : Gpu) → shows lower q n g ≡ true → test g ≡ true)
      → count (λ (c : Gpu × Node). test c.0) (all_cards nodes) ≡ 0
      → filtered lower locale_compare q nodes ≡ []
  nothing_left locale_compare q test nodes some_choice passes gone =
      none_total (filtered lower locale_compare q nodes)
        (unfold filtered in
          sort-All (node_order locale_compare q.sort) HasCards (selected lower q nodes)
            (selected-HasCards q nodes some_choice))
        (omega (
          arith,
          gone,
          shown_le q test nodes passes,
          cards_shown-filtered lower locale_compare q nodes,
        ))

  is_shown :
      (q : Query) (n : Node) (g : Gpu)
      → shows lower q n g ≡ true
      → (q.model ≢ "" → (g.name == q.model) ≡ true)
        × (q.capacity ≢ "" → (capacity_key g == q.capacity) ≡ true)
  unfolding shows
  is_shown q n g h =
      (λ ne. ground (arith, eq_iff q.model ""), λ ne. ground (arith, eq_iff q.capacity ""))

  -- Where the list of models does not offer the chosen model, or that of capacities the chosen
  -- capacity, and the choice is not the empty text, no node is listed, whatever else is chosen: a
  -- choice whose last card is gone goes on hiding every node.
  pub gone_lem :
      (by_units locale_compare : String → String → Ordering) (q : Query) (nodes : List Node)
      → ((q.model ≢ "") × (offers (list by_units locale_compare by_model q nodes) q.model ≡ false))
        ⊎ ((q.capacity ≢ "")
            × (offers (list by_units locale_compare by_capacity q nodes) q.capacity ≡ false))
      → filtered lower locale_compare q nodes ≡ []
  gone_lem by_units locale_compare q nodes (inl (ne, gone)) =
      nothing_left locale_compare q (λ g. g.name == q.model) nodes (inl ne)
        (λ n g h. (is_shown q n g h).0 ne)
        (ground (arith, offers_model by_units locale_compare q nodes q.model, gone))
  gone_lem by_units locale_compare q nodes (inr (ne, gone)) =
      nothing_left locale_compare q (λ g. capacity_key g == q.capacity) nodes (inr ne)
        (λ n g h. (is_shown q n g h).1 ne)
        (ground (arith, offers_capacity by_units locale_compare q nodes q.capacity, gone))
