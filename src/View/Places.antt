-- ===== src/View/Places.antt =====
-- The grid of web/src/features/dashboard/Dashboard.tsx shows every node and every card.
use mathlib.Core.List.{Perm}
use mathlib.Core.Path.{subst}
use card_scope.Base.{
  ◌≡◌, refl, sym, ap, true, false, List, [], ◌∷◌, String, Ordering, All, map, arith,
}
use card_scope.Base.Sorting.{sort, sort-perm, is_gt, IsSorted, sort-IsSorted}
use card_scope.Types.{Gpu, Node}
use card_scope.View.Grid.{Place, place, card_order, grid}

card_order_total : (g h : Gpu) → is_gt (card_order g h) ≡ true → is_gt (card_order h g) ≡ false
card_order_total g h e = ground arith

-- The cards of a place are those of its node, by their index.
abbrev pub IsPlace : Place → Type 0
IsPlace p = Perm p.cards p.node.snapshot.gpus × IsSorted card_order p.cards

place-IsPlace : (n : Node) → IsPlace (place n)
unfolding place
place-IsPlace n = (
  sort-perm card_order n.snapshot.gpus,
  sort-IsSorted card_order card_order_total n.snapshot.gpus,
)

places :
    (ns : List Node)
    → (map (λ (p : Place). p.node) (map place ns) ≡ ns) × All IsPlace (map place ns)
unfolding place
places [] = (refl, tt)
places (n ∷ ns) = (ap (λ ms. n ∷ ms) (places ns).0, (place-IsPlace n, (places ns).1))

-- The grid shows each node once, with each of its cards once, in the order of their indices.
pub grid_lem :
    (numeric_compare : String → String → Ordering) (nodes : List Node)
    → Perm (map (λ (p : Place). p.node) (grid numeric_compare nodes)) nodes
      × All IsPlace (grid numeric_compare nodes)
unfolding grid
grid_lem numeric_compare nodes =
    let order : Node → Node → Ordering = λ a b. numeric_compare a.name b.name in
    let (same, whole) = places (sort order nodes) in
    (subst (λ ns. Perm ns nodes) (sym same) (sort-perm order nodes), whole)
