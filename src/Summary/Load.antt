-- ===== src/Summary/Load.antt =====
-- The average load and the missing cards of web/src/features/dashboard/summary.ts.
use card_scope.Base.{
  ℕ, ◌*◌, ◌≤◌, ◌<◌, ◌≡◌, refl, List, [], ◌∷◌, none, some, String, Ordering, All, is_some, indicator,
  total, total_zero, total_cong, arith, inl, inr, ◌⊎◌, ◌∙◌, zero, suc,
}
use card_scope.Types.{Metric, Gpu, Node}
use card_scope.Summary.{
  absent, sample, value_or_zero, gpu_step, node_step, node_loop, start, summarize,
}
use card_scope.Summary.Loops.{over_cards, node_loop-adds}

-- The cards that count for the average, and the sum of what they report.
abbrev pub samples : List Node → ℕ
samples = over_cards (λ g n. indicator (is_some (sample g n)))

abbrev pub load : List Node → ℕ
load = over_cards (λ g n. value_or_zero (sample g n))

-- No card reports more than 100 %.
abbrev pub IsPercent : List Node → Type 0
IsPercent =
    All (λ (n : Node). All (λ (g : Gpu). (u : ℕ) → g.util ≡ some u → u ≤ 100) n.snapshot.gpus)

sample_le :
    (m : Metric) → ((u : ℕ) → m ≡ some u → u ≤ 100) → value_or_zero m ≤ 100 * indicator (is_some m)
sample_le none h = omega arith
sample_le (some u) h = omega (arith, h u refl)

sample_bound :
    (g : Gpu) (n : Node)
    → ((u : ℕ) → g.util ≡ some u → u ≤ 100)
    → value_or_zero (sample g n) ≤ 100 * indicator (is_some (sample g n))
sample_bound g n h = ground (arith, sample_le g.util h)

cards_bound :
    (n : Node) (gs : List Gpu)
    → All (λ (g : Gpu). (u : ℕ) → g.util ≡ some u → u ≤ 100) gs
    → total (λ g. value_or_zero (sample g n)) gs
      ≤ 100 * total (λ g. indicator (is_some (sample g n))) gs
cards_bound n [] h = omega arith
cards_bound n (g ∷ gs) h = omega (arith, sample_bound g n h.0, cards_bound n gs h.1)

load_bound : (nodes : List Node) → IsPercent nodes → load nodes ≤ 100 * samples nodes
load_bound [] h = omega arith
load_bound (n ∷ ns) h = omega (arith, cards_bound n n.snapshot.gpus h.0, load_bound ns h.1)

over_cards_zero : (nodes : List Node) → over_cards (λ g n. 0) nodes ≡ 0
over_cards_zero nodes = total_cong _ _ nodes (λ n. total_zero n.snapshot.gpus) ∙ total_zero nodes

pub Nat-cases : (n : ℕ) → (n ≡ 0) ⊎ (0 < n)
Nat-cases zero = inl refl
Nat-cases (suc n) = inr (omega arith)

module _ (locale_compare : String → String → Ordering) (nodes : List Node) where
  -- The average is the load of the sampled cards over their number, and null exactly if no card is
  -- sampled; `missing` sums up the absent cards of all nodes, online or not.
  pub util_lem :
      let r = summarize locale_compare nodes in
      (r.util_count ≡ samples nodes)
      × (samples nodes ≡ 0 → r.util ≡ none)
      × (0 < samples nodes → r.util ≡ some (load nodes, samples nodes))
      × (r.missing ≡ total absent nodes)
  unfolding summarize gpu_step node_step
  util_lem =
      let number =
        node_loop-adds (λ t. t.util_count) (λ g n. indicator (is_some (sample g n))) (λ n. 0)
          (λ n t g. refl) (λ t n. omega arith) start nodes in
      let sum =
        node_loop-adds (λ t. t.util_sum) (λ g n. value_or_zero (sample g n)) (λ n. 0)
          (λ n t g. refl) (λ t n. omega arith) start nodes in
      let lack =
        node_loop-adds (λ t. t.missing) (λ g n. 0) absent (λ n t g. omega arith) (λ t n. refl) start
          nodes in
      let counted : (node_loop start nodes).util_count ≡ samples nodes =
        omega (arith, number, total_zero nodes) in
      let summed : (node_loop start nodes).util_sum ≡ load nodes =
        omega (arith, sum, total_zero nodes) in
      (
        counted,
        λ h. ground (arith, counted),
        λ h. ground (arith, counted, summed),
        omega (arith, lack, over_cards_zero nodes),
      )

  -- The average never passes 100 % if no card reports more.
  pub util_bound :
      {sum number : ℕ}
      → IsPercent nodes
      → (summarize locale_compare nodes).util ≡ some (sum, number)
      → (0 < number) × (sum ≤ 100 * number)
  util_bound h e =
      let (_, empty, full, _) = util_lem in
      elim (Nat-cases (samples nodes)) [
        | inl z ↦ cc (empty z)
        | inr p ↦ ground (arith, full p, load_bound nodes h)
      ]
