-- ===== src/View/Followed.antt =====
-- Where the issues of web/src/features/dashboard/Dashboard.tsx lead in web/src/app/App.tsx.
use mathlib.Core.List.{Memᴰ}
use card_scope.Base.{
  ◌≡◌, ◌≢◌, refl, sym, ap, ◌∙◌, Bool, true, false, List, [], ◌∷◌, map, Option, none, some, String,
  Ordering, All, All-mem, has, keep, Bool-cases, inl, inr, arith, eq_iff, ◌==◌,
}
use card_scope.Base.Sets.{IsDistinct}
use card_scope.Base.Sorting.{sort, insert}
use card_scope.Types.{Gpu, Node}
use card_scope.Overview.{
  Query, empty_query, of_node, with_cards, shows, stays, narrow, selected, filtered,
}
use card_scope.Overview.Choices.{opened_card}
use card_scope.Overview.Clicks.{find-mem, has-mem}
use card_scope.Shell
use card_scope.Shell.{Frame}
use card_scope.Summary.{Issue, summarize}
use card_scope.Summary.Sources.{IsFrom, issues-IsFrom}
use card_scope.View.Page.{issue_clicked, of_target, page_events}
use card_scope.View.Grid.{target_of}

keep-absent {ℓ} :
    {A : Type ℓ} (f : A → String) (xs : List A) (key : String)
    → has (map f xs) key ≡ false
    → keep (λ y. f y == key) xs ≡ []
keep-absent f [] key h = refl
keep-absent f (y ∷ ys) key h = ground (arith, keep-absent f ys key)

-- Where the keys are distinct, one element is kept by its key.
keep-key {ℓ} :
    {A : Type ℓ} (f : A → String) (xs : List A) (x : A)
    → IsDistinct (map f xs)
    → Memᴰ x xs
    → keep (λ y. f y == f x) xs ≡ x ∷ []
keep-key f [] x distinct i = elim i [ ]
keep-key f (y ∷ ys) x distinct (Memᴰ.head e) =
    let hit : (f y == f x) ≡ true = (eq_iff (f y) (f x)).1 (ap f (sym e)) in
    let rest = keep-absent f ys (f x) (ap (has (map f ys)) (ap f e) ∙ distinct.0) in
    rw (hit, rest) (ap (λ k. k ∷ []) (sym e))
keep-key f (y ∷ ys) x distinct (Memᴰ.tail i) = elim (Bool-cases (f y == f x)) [
  | inl hit ↦
      let same = (eq_iff (f y) (f x)).0 hit in
      absurd (cc (sym (has-mem f ys x i) ∙ sym (ap (has (map f ys)) same) ∙ distinct.0))
  | inr missed ↦ rw missed (keep-key f ys x distinct.1 i)
]

keep_all {ℓ} :
    {A : Type ℓ} (test : A → Bool) (xs : List A) → ((x : A) → test x ≡ true) → keep test xs ≡ xs
keep_all test [] h = refl
keep_all test (x ∷ xs) h = rw (h x) (ap (λ ys. x ∷ ys) (keep_all test xs h))

keep_cong {ℓ} :
    {A : Type ℓ} (p q : A → Bool) (xs : List A) → ((x : A) → p x ≡ q x) → keep p xs ≡ keep q xs
keep_cong p q [] h = refl
keep_cong p q (x ∷ xs) h = rw (h x) (rw (keep_cong p q xs h) refl)

-- The list of one node.
abbrev node_query : String → Query
node_query id = record empty_query { node_id = id }

module _ (lower : String → String) (lower_empty : lower "" ≡ "") where
  shows_any : (id : String) (n : Node) (g : Gpu) → shows lower (node_query id) n g ≡ true
  unfolding shows
  shows_any id n g = ground (arith, (eq_iff (lower "") "").1 lower_empty)

  narrow_same : (id : String) (n : Node) → narrow lower (node_query id) n ≡ n
  unfolding narrow
  narrow_same id n =
      ap (with_cards n)
        (keep_all (λ g. shows lower (node_query id) n g) n.snapshot.gpus (shows_any id n))

  stays_any : (id : String) (n : Node) → stays lower (node_query id) n ≡ true
  unfolding stays
  stays_any id n = ground arith

  -- The node's own list holds it alone, with all its cards.
  node_alone :
      (locale_compare : String → String → Ordering) (nodes : List Node) (n : Node)
      → IsDistinct (map (λ (m : Node). m.id) nodes)
      → n.id ≢ ""
      → Memᴰ n nodes
      → filtered lower locale_compare (node_query n.id) nodes ≡ n ∷ []
  unfolding filtered selected sort insert
  node_alone locale_compare nodes n distinct ne there =
      let located : keep (of_node (node_query n.id)) nodes ≡ n ∷ [] =
        keep_cong (of_node (node_query n.id)) (λ m. m.id == n.id) nodes
          (λ m. ground (arith, eq_iff n.id ""))
        ∙ keep-key (λ (m : Node). m.id) nodes n distinct there in
      rw located (
        rw (stays_any n.id (narrow lower (node_query n.id) n))
          (ap (λ k. k ∷ []) (narrow_same n.id n)))

  -- What is on the screen behind an issue: the dialog with its card, or the list of its node.
  abbrev pub IsReached :
      (String → String → Ordering) → List Node → Node → Option Gpu → Frame → Type 0
  IsReached locale_compare nodes n (some g) f = opened_card f.selected nodes ≡ some (g, n)
  IsReached locale_compare nodes n none f =
      (f.page ≡ "overview") × (filtered lower locale_compare f.query nodes ≡ n ∷ [])

  reached :
      (locale_compare : String → String → Ordering) (nodes : List Node) (i : Issue) (o : Option Gpu)
      (f : Frame)
      → IsDistinct (map (λ (m : Node). m.id) nodes)
      → All (λ (m : Node). IsDistinct (map (λ (c : Gpu). c.uuid) m.snapshot.gpus)) nodes
      → i.node.id ≢ ""
      → IsFrom nodes i
      → i.gpu ≡ o
      → IsReached locale_compare nodes i.node o (Shell.run f (of_target (target_of i.node o) ∷ []))
  unfolding Shell.run Shell.step opened_card
  reached locale_compare nodes i none f ids uuids ne (there, own) e =
      (refl, node_alone locale_compare nodes i.node ids ne there)
  reached locale_compare nodes i (some g) f ids uuids ne (there, own) e =
      let found = find-mem (λ (m : Node). m.id) nodes i.node ids there in
      let card =
        find-mem (λ (c : Gpu). c.uuid) i.node.snapshot.gpus g (All-mem _ nodes i.node uuids there)
          (own g e) in
      rw (found, card) refl

  -- A click on an issue leads to what it is about: the dialog with its very card, if it has one, and
  -- else the list of the nodes with its node alone, all its cards included. The ids of the nodes are
  -- distinct, as are those of a node's cards, the node's id is not empty, and `toLowerCase` keeps the
  -- empty text.
  pub issue_lem :
      (locale_compare : String → String → Ordering) (nodes : List Node) (i : Issue) (f : Frame)
      → IsDistinct (map (λ (m : Node). m.id) nodes)
      → All (λ (m : Node). IsDistinct (map (λ (c : Gpu). c.uuid) m.snapshot.gpus)) nodes
      → i.node.id ≢ ""
      → Memᴰ i (summarize locale_compare nodes).issues
      → IsReached locale_compare nodes i.node i.gpu (Shell.run f (page_events (issue_clicked i)))
  unfolding page_events
  issue_lem locale_compare nodes i f ids uuids ne listed =
      reached locale_compare nodes i i.gpu f ids uuids ne
        (All-mem (IsFrom nodes) _ i (issues-IsFrom locale_compare nodes) listed) refl
