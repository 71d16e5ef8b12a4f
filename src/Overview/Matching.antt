-- ===== src/Overview/Matching.antt =====
-- Which cards and nodes the query of web/src/app/App.tsx lists.
use mathlib.Core.Path.{subst}
use card_scope.Base.{
  ℕ, ◌≡◌, refl, ◌∙◌, ◌≢◌, true, false, List, [], ◌∷◌, String, Ordering, All, All-keep, count,
  is_zero, ◌||◌, length, length-keep, total, is_empty, has, arith, if◌then◌else◌, eq_iff, ◌==◌,
  and-true,
}
use card_scope.Base.Sorting.{sort-total, sort-All}
use card_scope.Types.{Gpu, Node}
use card_scope.Status.{capacity_key, idle, bad}
use card_scope.Overview.{
  Query, passes_status, has_free, of_node, shows, stays, narrow, node_order, selected, filtered,
}

-- What a listed card has to do with the query: it is none of the cards that the model, the
-- capacity or the state leaves out.
pub record Fits (q : Query) (n : Node) (g : Gpu) : Type 0 where
  pub model : q.model ≢ "" → g.name ≡ q.model
  pub capacity : q.capacity ≢ "" → capacity_key g ≡ q.capacity
  pub is_idle : q.status ≡ "idle" → idle g n ≡ true
  pub is_bad : q.status ≡ "fault" → bad g ≡ true
  pub is_offline : q.status ≡ "offline" → n.online ≡ false

-- What a listed node has to do with the query.
pub record IsListed (q : Query) (n : Node) : Type 0 where
  pub located : q.node_id ≢ "" → n.id ≡ q.node_id
  pub tagged : q.tag ≢ "" → has n.tags q.tag ≡ true
  pub cards : All (Fits q n) n.snapshot.gpus

choice-fits :
    (chosen actual : String)
    → (chosen == "" || actual == chosen) ≡ true
    → chosen ≢ ""
    → actual ≡ chosen
choice-fits chosen actual h ne = ground (arith, eq_iff chosen "", eq_iff actual chosen)

status-fits :
    (status : String) (g : Gpu) (n : Node)
    → passes_status status g n ≡ true
    → (status ≡ "idle" → idle g n ≡ true)
      × (status ≡ "fault" → bad g ≡ true)
      × (status ≡ "offline" → n.online ≡ false)
status-fits status g n h = (
  λ e.
      let h' : passes_status "idle" g n ≡ true = subst (λ s. passes_status s g n ≡ true) e h in
      ground arith,
  λ e.
      let h' : passes_status "fault" g n ≡ true = subst (λ s. passes_status s g n ≡ true) e h in
      ground arith,
  λ e.
      let h' : passes_status "offline" g n ≡ true = subst (λ s. passes_status s g n ≡ true) e h in
      ground arith,
)

is_empty-length {ℓ} : {A : Type ℓ} (xs : List A) → is_empty xs ≡ true → length xs ≡ 0
is_empty-length [] h = refl
is_empty-length (x ∷ xs) h = cc

module _ (lower : String → String) where
  shows-Fits :
      (q : Query) (n : Node) (g : Gpu) → shows lower q n g ≡ true → Fits q (narrow lower q n) g
  unfolding shows narrow idle
  shows-Fits q n g h =
      let (h₁, _) = and-true _ (is_zero q.free || has_free q.free g.memory_total g.memory_used) h in
      let (h₂, status) = and-true _ _ h₁ in
      let (h₃, capacity) = and-true _ _ h₂ in
      let (_, model) = and-true _ _ h₃ in
      let (free, faulty, offline) = status-fits q.status g n status in
      record {
        model = choice-fits q.model g.name model;
        capacity = choice-fits q.capacity (capacity_key g) capacity;
        is_idle = free;
        is_bad = faulty;
        is_offline = offline;
      }

  narrow-IsListed : (q : Query) (n : Node) → of_node q n ≡ true → IsListed q (narrow lower q n)
  unfolding narrow
  narrow-IsListed q n h =
      let (located, tagged) = and-true _ (q.tag == "" || has n.tags q.tag) h in
      record {
        located = choice-fits q.node_id n.id located;
        tagged = λ ne. ground (arith, eq_iff q.tag "");
        cards =
            All-keep (Fits q (narrow lower q n)) (λ g. shows lower q n g) n.snapshot.gpus
              (λ g. shows-Fits q n g);
      }

  selected-IsListed : (q : Query) (nodes : List Node) → All (IsListed q) (selected lower q nodes)
  unfolding selected
  selected-IsListed q [] = tt
  selected-IsListed q (n ∷ ns) = ground (arith, narrow-IsListed q n, selected-IsListed q ns)

  -- Each node of the list has the chosen id and the chosen tag, and each card that it shows has the
  -- chosen model, capacity and state, where these are chosen.
  pub filtered-IsListed :
      (locale_compare : String → String → Ordering) (q : Query) (nodes : List Node)
      → All (IsListed q) (filtered lower locale_compare q nodes)
  unfolding filtered
  filtered-IsListed locale_compare q nodes =
      sort-All (node_order locale_compare q.sort) (IsListed q) _ (selected-IsListed q nodes)

  -- The cards that a node adds to the list.
  abbrev pub shown : Query → Node → ℕ
  shown q n = if of_node q n then count (λ g. shows lower q n g) n.snapshot.gpus else 0

  dropped-empty : (q : Query) (n : Node) → stays lower q n ≡ false → length n.snapshot.gpus ≡ 0
  unfolding stays
  dropped-empty q n h = is_empty-length n.snapshot.gpus (ground arith)

  length-narrow :
      (q : Query) (n : Node)
      → length (narrow lower q n).snapshot.gpus ≡ count (λ g. shows lower q n g) n.snapshot.gpus
  unfolding narrow
  length-narrow q n = length-keep (λ g. shows lower q n g) n.snapshot.gpus

  cards_shown-selected :
      (q : Query) (nodes : List Node)
      → total (λ (n : Node). length n.snapshot.gpus) (selected lower q nodes)
        ≡ total (shown q) nodes
  unfolding selected
  cards_shown-selected q [] = refl
  cards_shown-selected q (n ∷ ns) =
      ground
        (arith, cards_shown-selected q ns, length-narrow q n, dropped-empty q (narrow lower q n))

  -- No matching card is lost, also where a node is left out: the cards in the list are as many as
  -- the cards that pass the tests in the nodes that pass theirs.
  pub cards_shown-filtered :
      (locale_compare : String → String → Ordering) (q : Query) (nodes : List Node)
      → total (λ (n : Node). length n.snapshot.gpus) (filtered lower locale_compare q nodes)
        ≡ total (shown q) nodes
  unfolding filtered
  cards_shown-filtered locale_compare q nodes =
      sort-total (node_order locale_compare q.sort) _ (selected lower q nodes)
      ∙ cards_shown-selected q nodes
