-- ===== src/Overview/Clicks.antt =====
-- What the list of nodes in web/src/app/App.tsx knows of the whole nodes, and what a click opens.
use mathlib.Core.Path.{subst}
use mathlib.Core.List.{Memᴰ}
use card_scope.Base.{
  ◌≡◌, refl, sym, ap, ◌∙◌, Bool, true, List, [], ◌∷◌, map, some, String, Ordering, All, All-kept,
  All-mem, All-of_mem, keep, find, has, Bool-cases, inl, inr, arith, eq_iff, ◌==◌,
}
use card_scope.Base.Sets.{IsDistinct}
use card_scope.Base.Sorting.{sort-All}
use card_scope.Types.{Gpu, Node}
use card_scope.Overview.{Query, of_node, shows, stays, narrow, node_order, selected, filtered}
use card_scope.Overview.Choices.{opened_card}
use card_scope.Overview.Listing.{full_node, on_gpu}
use card_scope.Shell
use card_scope.Shell.{Frame}

pub has-mem {ℓ} :
    {A : Type ℓ} (f : A → String) (xs : List A) (x : A) → Memᴰ x xs → has (map f xs) (f x) ≡ true
has-mem f [] x i = elim i [ ]
has-mem f (y ∷ ys) x (Memᴰ.head e) = ground (arith, ap f e, eq_iff (f y) (f x))
has-mem f (y ∷ ys) x (Memᴰ.tail i) = ground (arith, has-mem f ys x i)

-- Where the keys are distinct, an element is found by its key.
pub find-mem {ℓ} :
    {A : Type ℓ} (f : A → String) (xs : List A) (x : A)
    → IsDistinct (map f xs)
    → Memᴰ x xs
    → find (λ y. f y == f x) xs ≡ some x
find-mem f [] x distinct i = elim i [ ]
find-mem f (y ∷ ys) x distinct (Memᴰ.head e) =
    let hit : (f y == f x) ≡ true = (eq_iff (f y) (f x)).1 (ap f (sym e)) in
    rw hit (ap some (sym e))
find-mem f (y ∷ ys) x distinct (Memᴰ.tail i) = elim (Bool-cases (f y == f x)) [
  | inl hit ↦
      let same = (eq_iff (f y) (f x)).0 hit in
      absurd (cc (sym (has-mem f ys x i) ∙ sym (ap (has (map f ys)) same) ∙ distinct.0))
  | inr missed ↦ rw missed (find-mem f ys x distinct.1 i)
]

All-map {ℓ κ μ} :
    {A : Type ℓ} {B : Type κ} (P : B → Type μ) (f : A → B) (xs : List A)
    → All (λ x. P (f x)) xs
    → All P (map f xs)
All-map P f [] h = tt
All-map P f (x ∷ xs) h = (h.0, All-map P f xs h.1)

mem-keep {ℓ} :
    {A : Type ℓ} (test : A → Bool) (xs : List A) (x : A) → Memᴰ x (keep test xs) → Memᴰ x xs
mem-keep test xs x i =
    All-mem (λ y. Memᴰ y xs) (keep test xs) x
      (All-kept (λ y. Memᴰ y xs) test xs (All-of_mem _ xs (λ _ j. j))) i

module _ (lower : String → String) where
  -- A listed node is a whole node with the cards that match.
  abbrev pub IsNarrowed : Query → List Node → Node → Type 0
  IsNarrowed q nodes n = (m : Node) × Memᴰ m nodes × (n ≡ narrow lower q m)

  filtered-IsNarrowed :
      (locale_compare : String → String → Ordering) (q : Query) (nodes : List Node)
      → All (IsNarrowed q nodes) (filtered lower locale_compare q nodes)
  unfolding filtered selected
  filtered-IsNarrowed locale_compare q nodes =
      let P = IsNarrowed q nodes in
      sort-All (node_order locale_compare q.sort) P _ (
        All-kept P (stays lower q) _ (
          All-map P (narrow lower q) (keep (of_node q) nodes) (
            All-kept (λ m. P (narrow lower q m)) (of_node q) nodes
              (All-of_mem _ nodes (λ m i. (m, i, refl))))))

  -- The whole node of each listed one is found, if the ids of the nodes are distinct; and a click on
  -- a card of it opens the dialog with that very card and that node, if the node's cards have
  -- distinct ids.
  pub clicked_lem :
      (locale_compare : String → String → Ordering) (q : Query) (nodes : List Node) (n : Node)
      (g : Gpu) (f : Frame)
      → IsDistinct (map (λ (m : Node). m.id) nodes)
      → All (λ (m : Node). IsDistinct (map (λ (c : Gpu). c.uuid) m.snapshot.gpus)) nodes
      → Memᴰ n (filtered lower locale_compare q nodes)
      → Memᴰ g n.snapshot.gpus
      → (m : Node) × (full_node nodes n ≡ some m)
        × (n ≡ narrow lower q m)
        × (opened_card (Shell.step f (on_gpu n g)).selected nodes ≡ some (g, m))
  unfolding full_node Shell.step on_gpu opened_card
  clicked_lem locale_compare q nodes n g f ids uuids listed shown =
      let (m, there, same) =
        All-mem (IsNarrowed q nodes) _ n (filtered-IsNarrowed locale_compare q nodes) listed in
      let same_id : n.id ≡ m.id = unfold narrow in ap (λ (k : Node). k.id) same in
      let found : find (λ (v : Node). v.id == n.id) nodes ≡ some m =
        ap (λ k. find (λ (v : Node). v.id == k) nodes) same_id
        ∙ find-mem (λ (v : Node). v.id) nodes m ids there in
      let own : Memᴰ g m.snapshot.gpus =
        unfold narrow in
        mem-keep (shows lower q m) m.snapshot.gpus g
          (subst (λ (k : Node). Memᴰ g k.snapshot.gpus) same shown) in
      let card =
        find-mem (λ (c : Gpu). c.uuid) m.snapshot.gpus g (All-mem _ nodes m uuids there) own in
      (m, found, same, rw (found, card) refl)
