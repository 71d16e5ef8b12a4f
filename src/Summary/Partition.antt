-- ===== src/Summary/Partition.antt =====
-- The counters of web/src/features/dashboard/summary.ts: every card is counted once, under its
-- state.
use card_scope.Base.{
  ℕ, ◌+◌, ◌≡◌, refl, Bool, true, false, List, String, Ordering, indicator, length, total,
  total_cong, total_zero, total_one, arith,
}
use card_scope.Types.{Node}
use card_scope.Summary.{
  GpuState, idle, busy, attention, unknown, offline, Counts, count_of, increment, gpu_state,
  gpu_step, node_step, start, summarize,
}
use card_scope.Summary.Loops.{over_cards, node_loop-adds}

abbrev pub same_state : GpuState → GpuState → Bool
same_state idle idle = true
same_state busy busy = true
same_state attention attention = true
same_state unknown unknown = true
same_state offline offline = true
same_state _ _ = false

-- The number of cards in a state, counted without the loops.
abbrev pub cards_in : GpuState → List Node → ℕ
cards_in s = over_cards (λ g n. indicator (same_state s (gpu_state g n)))

count_of-increment :
    (s t : GpuState) (c : Counts)
    → count_of s (increment t c) ≡ count_of s c + indicator (same_state s t)
count_of-increment idle t c = ground arith
count_of-increment busy t c = ground arith
count_of-increment attention t c = ground arith
count_of-increment unknown t c = ground arith
count_of-increment offline t c = ground arith

count_of-start : (s : GpuState) → count_of s start.counts ≡ 0
count_of-start idle = refl
count_of-start busy = refl
count_of-start attention = refl
count_of-start unknown = refl
count_of-start offline = refl

abbrev sum_counts : Counts → ℕ
sum_counts c = c.idle + c.busy + c.attention + c.unknown + c.offline

sum_counts-increment : (t : GpuState) (c : Counts) → sum_counts (increment t c) ≡ sum_counts c + 1
sum_counts-increment idle c = omega arith
sum_counts-increment busy c = omega arith
sum_counts-increment attention c = omega arith
sum_counts-increment unknown c = omega arith
sum_counts-increment offline c = omega arith

over_cards_one :
    (nodes : List Node)
    → over_cards (λ g n. 1) nodes ≡ total (λ (n : Node). length n.snapshot.gpus) nodes
over_cards_one nodes = total_cong _ _ nodes (λ n. total_one n.snapshot.gpus)

module _ (locale_compare : String → String → Ordering) (nodes : List Node) where
  -- Each counter is the number of cards in its state, over all cards of all nodes.
  pub counts-cards_in :
      (s : GpuState) → count_of s (summarize locale_compare nodes).counts ≡ cards_in s nodes
  unfolding summarize gpu_step node_step
  counts-cards_in s = omega (
    arith,
    node_loop-adds (λ t. count_of s t.counts) (λ g n. indicator (same_state s (gpu_state g n)))
        (λ n. 0) (λ n t g. count_of-increment s (gpu_state g n) t.counts) (λ t n. omega arith) start
        nodes,
    count_of-start s,
    total_zero nodes,
  )

  -- `detected` is the number of all cards, and the five counters add up to it.
  pub counts-detected :
      let r = summarize locale_compare nodes in
      (r.detected ≡ total (λ (n : Node). length n.snapshot.gpus) nodes)
      × (r.detected
          ≡ r.counts.idle + r.counts.busy + r.counts.attention + r.counts.unknown
            + r.counts.offline)
  unfolding summarize gpu_step node_step
  counts-detected =
      let all =
        node_loop-adds (λ t. t.detected) (λ g n. 1) (λ n. 0) (λ n t g. refl) (λ t n. omega arith)
          start nodes in
      let sum =
        node_loop-adds (λ t. sum_counts t.counts) (λ g n. 1) (λ n. 0)
          (λ n t g. sum_counts-increment (gpu_state g n) t.counts) (λ t n. omega arith) start
          nodes in
      (omega (arith, all, total_zero nodes, over_cards_one nodes), omega (arith, all, sum))
