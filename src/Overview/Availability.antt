-- ===== src/Overview/Availability.antt =====
-- The totals of web/src/app/App.tsx against those of web/src/features/dashboard/summary.ts, and
-- what the links of the dashboard lead to.
use mathlib.Core.Path.{subst}
use mathlib.Core.List.{Memᴰ}
use card_scope.Base.{
  ℕ, ◌≤◌, ◌≡◌, refl, sym, ap, ◌∙◌, ◌≢◌, Bool, false, ◌&&◌, List, [], ◌∷◌, map, String, Ordering,
  count, length, count-append, count_cong, total_zero, none, some, zero, suc, total, total_cong,
  total_indicator, indicator, show, arith, eq_iff, ◌==◌,
}
use card_scope.Base.Decimal.{read_from, read-show}
use card_scope.Types.{Metric, Gpu, Node}
use card_scope.Status
use card_scope.Status.{capacity_key, bad, capacity_of}
use card_scope.Summary.{GpuState, model_key, Model, gpu_state, summarize}
use card_scope.Summary.Loops.{over_cards}
use card_scope.Summary.Classes.{gpu_state-idle_iff}
use card_scope.Summary.Partition.{same_state, cards_in, counts-cards_in}
use card_scope.Summary.Rows.{rows_of, mem-rows_of}
use card_scope.Summary.Rows.Table.{is_of, cards_of, models-row, models_complete}
use card_scope.Overview.{Query, on_query, all_cards, available, shows, filtered}
use card_scope.Overview.Matching.{cards_shown-filtered}

module _ (p : Gpu → Node → Bool) where
  count-pairs :
      (n : Node) (gs : List Gpu)
      → count (λ (c : Gpu × Node). p c.0 c.1) (map (λ g. (g, n)) gs) ≡ count (λ g. p g n) gs
  count-pairs n [] = refl
  count-pairs n (g ∷ gs) = omega (arith, count-pairs n gs)

  -- Counting the pairs of cards and nodes is counting node by node.
  pub count-all_cards :
      (nodes : List Node)
      → count (λ c. p c.0 c.1) (all_cards nodes) ≡ over_cards (λ g n. indicator (p g n)) nodes
  unfolding all_cards
  count-all_cards [] = refl
  count-all_cards (n ∷ ns) = omega (
    arith,
    count-append (λ (c : Gpu × Node). p c.0 c.1) (map (λ g. (g, n)) n.snapshot.gpus) (all_cards ns),
    count-pairs n n.snapshot.gpus,
    total_indicator (λ g. p g n) n.snapshot.gpus,
    count-all_cards ns,
  )

pub over_cards_cong :
    (c d : Gpu → Node → ℕ) (nodes : List Node)
    → ((g : Gpu) (n : Node) → c g n ≡ d g n)
    → over_cards c nodes ≡ over_cards d nodes
over_cards_cong c d nodes h =
    total_cong _ _ nodes (λ n. total_cong _ _ n.snapshot.gpus (λ g. h g n))

is_idle-state : (g : Gpu) (n : Node) → same_state GpuState.idle (gpu_state g n) ≡ Status.idle g n
is_idle-state g n = ground (arith, gpu_state-idle_iff g n)

pub cards_in-idle :
    (nodes : List Node)
    → cards_in GpuState.idle nodes ≡ over_cards (λ g n. indicator (Status.idle g n)) nodes
cards_in-idle nodes = over_cards_cong _ _ nodes (λ g n. ap indicator (is_idle-state g n))

-- The number of idle cards above the node list is the one that the dashboard shows.
pub available-idle :
    (locale_compare : String → String → Ordering) (nodes : List Node)
    → available nodes ≡ (summarize locale_compare nodes).counts.idle
unfolding available
available-idle locale_compare nodes =
    count-all_cards Status.idle nodes
    ∙ sym (cards_in-idle nodes)
    ∙ sym (counts-cards_in locale_compare nodes GpuState.idle)

-- The links of the dashboard: "查看详情", and a row of the table of models.
abbrev pub idle_link : Query
idle_link =
    on_query (record { model = ""; capacity = ""; status = "idle"; search = ""; node_id = "" })

abbrev pub model_link : Model → Query
model_link m =
    on_query
      (record { model = m.name; capacity = m.capacity; status = "idle"; search = ""; node_id = "" })

shown_zero : (show 0 == "") ≡ false
unfolding show
shown_zero = refl

show-ne-empty : (n : ℕ) → show n ≢ ""
unfolding read_from
show-ne-empty n e =
    let zero_is : n ≡ 0 = sym (read-show n) ∙ ap (read_from 0) e in
    ground (arith, shown_zero, eq_iff (show 0) "", ap show zero_is)

-- A capacity key is a decimal number or "unknown", and so never empty.
capacity_of-ne-empty : (m : Metric) → capacity_of m ≢ ""
capacity_of-ne-empty none e = ground (arith, eq_iff "unknown" "")
capacity_of-ne-empty (some zero) e = ground (arith, eq_iff "unknown" "")
capacity_of-ne-empty (some (suc n)) e = show-ne-empty _ e

cards_of_empty : (name : String) (nodes : List Node) → cards_of name "" nodes ≡ 0
unfolding capacity_key
cards_of_empty name nodes =
    over_cards_cong _ (λ g n. 0) nodes
      (λ g n. ground (
        arith,
        eq_iff "" (capacity_of g.memory_total),
        λ (e : capacity_of g.memory_total ≡ ""). capacity_of-ne-empty g.memory_total e,
      ))
    ∙ total_cong _ _ nodes (λ n. total_zero n.snapshot.gpus)
    ∙ total_zero nodes

-- So no row of the table has an empty capacity.
row_capacity :
    (locale_compare : String → String → Ordering) (nodes : List Node) (m : Model)
    → Memᴰ m (summarize locale_compare nodes).models
    → m.capacity ≢ ""
row_capacity locale_compare nodes m i e =
    let (named, _, _) = models-row locale_compare nodes m i in
    let key_eq : m.key ≡ model_key m.name "" = named ∙ ap (model_key m.name) e in
    let one : 1 ≤ rows_of (model_key m.name "") (summarize locale_compare nodes).models =
      subst (λ k. 1 ≤ rows_of k (summarize locale_compare nodes).models) key_eq
        (mem-rows_of m _ i) in
    ground (arith, cards_of_empty m.name nodes, models_complete locale_compare nodes m.name "", one)

module _ (lower : String → String) (lower_empty : lower "" ≡ "") where
  shows-idle_link : (n : Node) (g : Gpu) → shows lower idle_link n g ≡ Status.idle g n
  unfolding shows
  shows-idle_link n g = ground (arith, (eq_iff (lower "") "").1 lower_empty)

  shows-model_link :
      (m : Model) (n : Node) (g : Gpu)
      → m.name ≢ ""
      → m.capacity ≢ ""
      → shows lower (model_link m) n g ≡ (is_of m.name m.capacity g && Status.idle g n)
  unfolding shows
  shows-model_link m n g p q = ground (
    arith,
    (eq_iff (lower "") "").1 lower_empty,
    eq_iff m.name "",
    eq_iff m.capacity "",
    eq_iff m.name g.name,
    eq_iff g.name m.name,
    eq_iff m.capacity (capacity_key g),
    eq_iff (capacity_key g) m.capacity,
  )

  -- The link "查看详情" lists as many cards as the dashboard counts as idle, if `toLowerCase` keeps the
  -- empty text.
  pub idle_link-shows :
      (locale_compare : String → String → Ordering) (nodes : List Node)
      → total (λ (n : Node). length n.snapshot.gpus) (filtered lower locale_compare idle_link nodes)
        ≡ (summarize locale_compare nodes).counts.idle
  idle_link-shows locale_compare nodes =
      cards_shown-filtered lower locale_compare idle_link nodes
      ∙ total_cong _ _ nodes (λ n.
        count_cong _ _ n.snapshot.gpus (shows-idle_link n)
        ∙ sym (total_indicator _ n.snapshot.gpus))
      ∙ sym (cards_in-idle nodes)
      ∙ sym (counts-cards_in locale_compare nodes GpuState.idle)

  -- The link of a row of the summary's table lists as many cards as the row counts as idle, if the
  -- model has a name and `toLowerCase` keeps the empty text.
  pub model_link-shows :
      (locale_compare : String → String → Ordering) (nodes : List Node) (m : Model)
      → Memᴰ m (summarize locale_compare nodes).models
      → m.name ≢ ""
      → total
          (λ (n : Node). length n.snapshot.gpus)
          (filtered lower locale_compare (model_link m) nodes)
        ≡ m.idle
  model_link-shows locale_compare nodes m i p =
      let q = row_capacity locale_compare nodes m i in
      let (_, _, idle) = models-row locale_compare nodes m i in
      cards_shown-filtered lower locale_compare (model_link m) nodes
      ∙ total_cong _ _ nodes (λ n.
        count_cong _ _ n.snapshot.gpus (λ g. shows-model_link m n g p q)
        ∙ sym (total_indicator _ n.snapshot.gpus))
      ∙ sym idle
