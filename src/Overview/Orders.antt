-- ===== src/Overview/Orders.antt =====
-- The order of the node list of web/src/app/App.tsx, and the list that no choice narrows.
use mathlib.Core.List.{Perm}
use card_scope.Base.{
  ◌≡◌, refl, ap, Bool, true, false, List, [], ◌∷◌, String, Ordering, keep, arith, eq_iff,
}
use card_scope.Base.Sorting.{is_gt, IsSorted, sort-IsSorted, sort-perm}
use card_scope.Types.{Gpu, Node}
use card_scope.Overview.{
  Query, empty_query, shows, stays, narrow, node_order, selected, filtered, with_cards,
}

-- Neighbours in the list stand in the chosen order: the one with more idle cards first, or with
-- more faulty ones, or by name, if the comparison of names is never positive both ways round.
pub filtered-IsSorted :
    (lower : String → String) (locale_compare : String → String → Ordering) (q : Query)
    (nodes : List Node)
    → ((a b : String) → is_gt (locale_compare a b) ≡ true → is_gt (locale_compare b a) ≡ false)
    → IsSorted (node_order locale_compare q.sort) (filtered lower locale_compare q nodes)
unfolding filtered
filtered-IsSorted lower locale_compare q nodes h =
    sort-IsSorted (node_order locale_compare q.sort) (λ a b p. ground (arith, h a.name b.name)) _

keep_all {ℓ} :
    {A : Type ℓ} (test : A → Bool) (xs : List A) → ((x : A) → test x ≡ true) → keep test xs ≡ xs
keep_all test [] h = refl
keep_all test (x ∷ xs) h = rw (h x, keep_all test xs h)

module _ (lower : String → String) (lower_empty : lower "" ≡ "") where
  shows-empty_query : (n : Node) (g : Gpu) → shows lower empty_query n g ≡ true
  unfolding shows
  shows-empty_query n g = ground (arith, (eq_iff (lower "") "").1 lower_empty)

  stays-empty_query : (n : Node) → stays lower empty_query n ≡ true
  unfolding stays
  stays-empty_query n = ground arith

  narrow-empty_query : (n : Node) → narrow lower empty_query n ≡ n
  unfolding narrow
  narrow-empty_query n = ap (with_cards n) (keep_all _ n.snapshot.gpus (shows-empty_query n))

  selected-empty_query : (nodes : List Node) → selected lower empty_query nodes ≡ nodes
  unfolding selected
  selected-empty_query [] = refl
  selected-empty_query (n ∷ ns) = rw (
    stays-empty_query (narrow lower empty_query n),
    narrow-empty_query n,
    selected-empty_query ns,
  )

  -- With nothing chosen every node is listed with all its cards, in another order at most, if
  -- `toLowerCase` keeps the empty text.
  pub filtered-empty_query :
      (locale_compare : String → String → Ordering) (nodes : List Node)
      → Perm (filtered lower locale_compare empty_query nodes) nodes
  unfolding filtered
  filtered-empty_query locale_compare nodes =
      rw (selected-empty_query nodes) (sort-perm (node_order locale_compare "name") nodes)
