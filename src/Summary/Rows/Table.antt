-- ===== src/Summary/Rows/Table.antt =====
-- The table of models of web/src/features/dashboard/summary.ts against the cards of the cluster.
use mathlib.Core.List.{Memᴰ}
use card_scope.Base.{
  All-mem, total_cong, sym, ap, ◌∙◌, ◌==◌, Bool, ℕ, ◌≤◌, ◌≡◌, true, false, ◌&&◌, List, String,
  Ordering, indicator, total_zero, arith, All, is_zero, if◌then◌else◌,
}
use card_scope.Base.Sorting.{sort-total, sort-All, is_gt, IsSorted, sort-IsSorted}
use card_scope.Types.{Gpu, Node}
use card_scope.Status
use card_scope.Status.{capacity_key}
use card_scope.Summary.{
  model_key, Model, is_idle, gpu_state, gpu_step, node_step, node_loop, start, model_order,
  summarize,
}
use card_scope.Summary.Loops.{over_cards, node_loop-adds, node_loop-keeps}
use card_scope.Summary.Classes.{gpu_state-idle_iff}
use card_scope.Summary.Rows.{
  key_of, model_key-eq, rows_of, total_at, idle_at, total_at-add_model, idle_at-add_model, IsOnce,
  add_model-IsOnce, IsNamed, add_model-IsNamed, row_holds, IsBacked, add_model-IsBacked, rows_once,
}

-- The cards of a model and capacity, counted without the loops, and the idle ones of them.
abbrev pub is_of : String → String → Gpu → Bool
is_of name capacity g = name == g.name && capacity == capacity_key g

abbrev pub cards_of : String → String → List Node → ℕ
cards_of name capacity = over_cards (λ g n. indicator (is_of name capacity g))

abbrev pub idle_cards_of : String → String → List Node → ℕ
idle_cards_of name capacity =
    over_cards (λ g n. indicator (is_of name capacity g && Status.idle g n))

-- The same, by the key.
abbrev keyed : String → List Node → ℕ
keyed k = over_cards (λ g n. indicator (k == key_of g))

abbrev idle_keyed : String → List Node → ℕ
idle_keyed k = over_cards (λ g n. indicator (k == key_of g && Status.idle g n))

keyed_lem :
    (name capacity : String) (nodes : List Node)
    → (keyed (model_key name capacity) nodes ≡ cards_of name capacity nodes)
      × (idle_keyed (model_key name capacity) nodes ≡ idle_cards_of name capacity nodes)
keyed_lem name capacity nodes =
    let same = λ (g : Gpu). model_key-eq name g.name capacity (capacity_key g) in
    (
      total_cong _ _ nodes (λ n. total_cong _ _ n.snapshot.gpus (λ g. ap indicator (same g))),
      total_cong _ _ nodes (λ n.
          total_cong _ _ n.snapshot.gpus
            (λ g. ap (λ b. indicator (b && Status.idle g n)) (same g))),
    )

is_idle-gpu_state : (g : Gpu) (n : Node) → is_idle (gpu_state g n) ≡ Status.idle g n
is_idle-gpu_state g n = ground (arith, gpu_state-idle_iff g n)

module _ (locale_compare : String → String → Ordering) (nodes : List Node) where
  total_at-models :
      (k : String) → total_at k (summarize locale_compare nodes).models ≡ keyed k nodes
  unfolding summarize gpu_step node_step
  total_at-models k =
      let sum =
        node_loop-adds (λ t. total_at k t.models) (λ g n. indicator ((k == key_of g))) (λ n. 0)
          (λ n t g. total_at-add_model k g.name (capacity_key g) (is_idle (gpu_state g n)) t.models)
          (λ t n. omega arith) start nodes in
      omega (
        arith,
        sum,
        total_zero nodes,
        sort-total (model_order locale_compare) (λ (m : Model). if (k == m.key) then m.total else 0)
            (node_loop start nodes).models,
      )

  idle_at-models :
      (k : String) → idle_at k (summarize locale_compare nodes).models ≡ idle_keyed k nodes
  unfolding summarize gpu_step node_step
  idle_at-models k =
      let sum =
        node_loop-adds (λ t. idle_at k t.models)
          (λ g n. indicator ((k == key_of g) && Status.idle g n)) (λ n. 0)
          (λ n t g.
            rw (← is_idle-gpu_state g n)
              (idle_at-add_model k g.name (capacity_key g) (is_idle (gpu_state g n)) t.models))
          (λ t n. omega arith) start nodes in
      omega (
        arith,
        sum,
        total_zero nodes,
        sort-total (model_order locale_compare) (λ (m : Model). if (k == m.key) then m.idle else 0)
            (node_loop start nodes).models,
      )

  rows_of-models : (k : String) → rows_of k (summarize locale_compare nodes).models ≤ 1
  unfolding summarize gpu_step node_step
  rows_of-models k =
      let once =
        node_loop-keeps (λ t. IsOnce t.models)
          (λ n t g. add_model-IsOnce g.name (capacity_key g) (is_idle (gpu_state g n)) t.models)
          (λ t n h. h) start nodes (λ k. omega arith) in
      omega (
        arith,
        once k,
        sort-total (model_order locale_compare) (λ (m : Model). indicator ((k == m.key)))
            (node_loop start nodes).models,
      )

  models-IsNamed : All IsNamed (summarize locale_compare nodes).models
  unfolding summarize gpu_step node_step
  models-IsNamed = sort-All (model_order locale_compare) IsNamed _ (
      node_loop-keeps (λ t. All IsNamed t.models)
        (λ n t g. add_model-IsNamed g.name (capacity_key g) (is_idle (gpu_state g n)) t.models)
        (λ t n h. h) start nodes tt)

  rows_of-le-total_at :
      let r = summarize locale_compare nodes in
      (k : String) → rows_of k r.models ≤ total_at k r.models
  unfolding summarize gpu_step node_step
  rows_of-le-total_at k =
      let backed =
        node_loop-keeps (λ t. IsBacked t.models)
          (λ n t g. add_model-IsBacked g.name (capacity_key g) (is_idle (gpu_state g n)) t.models)
          (λ t n h. h) start nodes (λ k. omega arith) in
      let order = model_order locale_compare in
      let ms = (node_loop start nodes).models in
      omega (
        arith,
        backed k,
        sort-total order (λ (m : Model). indicator ((k == m.key))) ms,
        sort-total order (λ (m : Model). if (k == m.key) then m.total else 0) ms,
      )

  -- Each row of the table of models has the key of its name and capacity, its total is the number
  -- of all cards with that name and capacity, and its idle number that of the idle ones among them.
  pub models-row :
      (m : Model)
      → Memᴰ m (summarize locale_compare nodes).models
      → IsNamed m
        × (m.total ≡ cards_of m.name m.capacity nodes)
        × (m.idle ≡ idle_cards_of m.name m.capacity nodes)
  models-row m i =
      let held = row_holds m _ i (rows_of-models m.key) in
      let named = All-mem IsNamed _ m models-IsNamed i in
      let counted = keyed_lem m.name m.capacity nodes in
      (
        named,
        sym held.0 ∙ total_at-models m.key ∙ ap (λ k. keyed k nodes) named ∙ counted.0,
        sym held.1 ∙ idle_at-models m.key ∙ ap (λ k. idle_keyed k nodes) named ∙ counted.1,
      )

  -- A name and a capacity have one row if a card has them, and none otherwise.
  pub models_complete :
      (name capacity : String)
      → rows_of (model_key name capacity) (summarize locale_compare nodes).models
        ≡ (if is_zero (cards_of name capacity nodes) then 0 else 1)
  models_complete name capacity =
      let k = model_key name capacity in
      rw (← (keyed_lem name capacity nodes).0, ← total_at-models k)
        (rows_once k _ (rows_of-models k) (rows_of-le-total_at k))

-- The rows come out with the most idle cards first, and by name where these are equal, if the
-- comparison of names is never positive both ways round.
pub models-IsSorted :
    (locale_compare : String → String → Ordering) (nodes : List Node)
    → ((a b : String) → is_gt (locale_compare a b) ≡ true → is_gt (locale_compare b a) ≡ false)
    → IsSorted (model_order locale_compare) (summarize locale_compare nodes).models
unfolding summarize
models-IsSorted locale_compare nodes h =
    sort-IsSorted (model_order locale_compare) (λ x y p. ground (arith, h x.name y.name)) _
