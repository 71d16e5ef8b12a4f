-- ===== src/Overview/Offers.antt =====
-- What the lists above the nodes of web/src/app/App.tsx offer, and what choosing it shows.
use card_scope.Base.{
  ◌≡◌, refl, sym, ap, ◌∙◌, Bool, true, false, List, [], ◌∷◌, map, String, Ordering, has, count,
  total, total_cong, count_cong, total_indicator, indicator, flat_map, ltb, dedupe, arith, eq_iff,
  ◌==◌, ◌||◌,
}
use card_scope.Base.Sets.{has-append, has-dedupe}
use card_scope.Base.Sorting.{sort, sort-total}
use card_scope.Types.{Gpu, Node}
use card_scope.Status.{capacity_key}
use card_scope.Select.{Entry, Props, encode, slice_from, options, items, items_of}
use card_scope.Select.Laws.{slice_from-encode}
use card_scope.Overview.{Query, of_node, shows, all_cards, capacities, capacity_order, tags}
use card_scope.Overview.Matching.{shown}
use card_scope.Overview.Availability.{count-all_cards}
use card_scope.Overview.Choices
use card_scope.Overview.Choices.{models, values, tag_options, has-values}
use card_scope.Overview.Filters.{
  by_tag, by_model, by_capacity, of_entry, of_model, of_capacity, children, list,
}

-- An item of the underlying list has this value.
abbrev pub offers : Props → String → Bool
offers p v = has (map (λ (i : String × String × Bool). i.0) (items p)) (encode v)

encode-same : (a b : String) → (encode a == encode b) ≡ (a == b)
encode-same a b = ground (
  arith,
  eq_iff a b,
  eq_iff (encode a) (encode b),
  ap encode,
  λ (e : encode a ≡ encode b).
      sym (slice_from-encode a) ∙ ap (slice_from 7) e ∙ slice_from-encode b,
)

has-items :
    (os : List Entry) (v : String)
    → has (map (λ (i : String × String × Bool). i.0) (items_of os)) (encode v)
      ≡ has (map (λ (o : Entry). o.value) os) v
has-items [] v = refl
has-items (o ∷ os) v = ground (arith, has-items os v, encode-same o.value v)

values_of-models :
    (ms : List String) → map (λ (o : Entry). o.value) (options (map of_model ms)) ≡ ms
unfolding options
values_of-models [] = refl
values_of-models (m ∷ ms) = ap (λ k. m ∷ k) (values_of-models ms)

values_of-capacities :
    (cs : List String) → map (λ (o : Entry). o.value) (options (map of_capacity cs)) ≡ cs
unfolding options
values_of-capacities [] = refl
values_of-capacities (c ∷ cs) = ap (λ k. c ∷ k) (values_of-capacities cs)

values_of-entries :
    (es : List Choices.Entry) → map (λ (o : Entry). o.value) (options (map of_entry es)) ≡ values es
unfolding options
values_of-entries [] = refl
values_of-entries (e ∷ es) = ap (λ k. e.0 ∷ k) (values_of-entries es)

has-total : (xs : List String) (x : String) → has xs x ≡ ltb 0 (total (λ y. indicator (y == x)) xs)
has-total [] x = refl
has-total (y ∷ ys) x = ground (arith, has-total ys x)

has-sort :
    (cmp : String → String → Ordering) (xs : List String) (x : String)
    → has (sort cmp xs) x ≡ has xs x
has-sort cmp xs x =
    has-total (sort cmp xs) x
    ∙ ap (ltb 0) (sort-total cmp (λ y. indicator (y == x)) xs)
    ∙ sym (has-total xs x)

has-map {ℓ} :
    {A : Type ℓ} (f : A → String) (xs : List A) (x : String)
    → has (map f xs) x ≡ ltb 0 (count (λ a. f a == x) xs)
has-map f [] x = refl
has-map f (a ∷ rest) x = ground (arith, has-map f rest x)

-- A list of the values of the cards offers a value exactly if some card has it.
has-cards :
    (cmp : String → String → Ordering) (f : Gpu → String) (nodes : List Node) (v : String)
    → has (sort cmp (dedupe (map (λ (c : Gpu × Node). f c.0) (all_cards nodes)))) v
      ≡ ltb 0 (count (λ (c : Gpu × Node). f c.0 == v) (all_cards nodes))
has-cards cmp f nodes v =
    let cards = map (λ (c : Gpu × Node). f c.0) (all_cards nodes) in
    has-sort cmp (dedupe cards) v
    ∙ has-dedupe cards v
    ∙ has-map (λ (c : Gpu × Node). f c.0) (all_cards nodes) v

has-tags :
    (nodes : List Node) (v : String)
    → has (flat_map (λ (n : Node). n.tags) nodes) v
      ≡ ltb 0 (count (λ (n : Node). has n.tags v) nodes)
has-tags [] v = refl
has-tags (n ∷ ns) v =
    ground (arith, has-append n.tags (flat_map (λ (m : Node). m.tags) ns) v, has-tags ns v)

-- The cards of a node and all cards that pass a test.
pub shown_total :
    (lower : String → String) (q : Query) (test : Gpu → Bool) (nodes : List Node)
    → ((n : Node) → of_node q n ≡ true)
    → ((n : Node) (g : Gpu) → shows lower q n g ≡ test g)
    → total (shown lower q) nodes ≡ count (λ (c : Gpu × Node). test c.0) (all_cards nodes)
shown_total lower q test nodes every_node every_card =
    total_cong _ _ nodes (λ n.
      rw (every_node n)
        (count_cong _ _ n.snapshot.gpus (every_card n) ∙ sym (total_indicator _ n.snapshot.gpus)))
    ∙ sym (count-all_cards (λ g n. test g) nodes)

or_false : (b : Bool) → (b || false) ≡ b
or_false b = ground arith

module _ (by_units locale_compare : String → String → Ordering) where
  pub offers_model :
      (q : Query) (nodes : List Node) (v : String)
      → offers (list by_units locale_compare by_model q nodes) v
        ≡ ("" == v || ltb 0 (count (λ (c : Gpu × Node). c.0.name == v) (all_cards nodes)))
  unfolding list items children options models
  offers_model q nodes v =
      has-items (options (of_entry ("", "全部型号") ∷ map of_model (models by_units nodes))) v
      ∙ ap (λ k. has ("" ∷ k) v) (values_of-models (models by_units nodes))
      ∙ ap (λ b. "" == v || b) (has-cards by_units (λ g. g.name) nodes v)

  pub offers_capacity :
      (q : Query) (nodes : List Node) (v : String)
      → offers (list by_units locale_compare by_capacity q nodes) v
        ≡ ("" == v || ltb 0 (count (λ (c : Gpu × Node). capacity_key c.0 == v) (all_cards nodes)))
  unfolding list items children options capacities
  offers_capacity q nodes v =
      has-items (options (of_entry ("", "全部显存容量") ∷ map of_capacity (capacities nodes))) v
      ∙ ap (λ k. has ("" ∷ k) v) (values_of-capacities (capacities nodes))
      ∙ ap (λ b. "" == v || b) (has-cards capacity_order capacity_key nodes v)

  -- While no tag is chosen.
  pub offers_tag :
      (q : Query) (nodes : List Node) (v : String)
      → q.tag ≡ ""
      → offers (list by_units locale_compare by_tag q nodes) v
        ≡ ("" == v || ltb 0 (count (λ (n : Node). has n.tags v) nodes))
  unfolding list items children tags tag_options
  offers_tag q nodes v none_chosen =
      let ts = tags locale_compare nodes in
      has-items (options (map of_entry (tag_options q.tag ts))) v
      ∙ ap (λ k. has k v) (values_of-entries (tag_options q.tag ts))
      ∙ ap (λ t. has (values (tag_options t ts)) v) none_chosen
      ∙ ap (λ b. "" == v || b)
          (has-values ts [] v
            ∙ ap (λ b. b || false)
                (has-sort locale_compare (dedupe (flat_map (λ (n : Node). n.tags) nodes)) v
                  ∙ has-dedupe (flat_map (λ (n : Node). n.tags) nodes) v
                  ∙ has-tags nodes v)
            ∙ or_false (ltb 0 (count (λ (n : Node). has n.tags v) nodes)))
