-- ===== src/Card/Laws.antt =====
-- The counts of web/src/features/nodes/NodeCard.tsx, and its badge against the dashboard's state.
use card_scope.Base.{
  ℕ, ◌+◌, ◌≤◌, ◌≡◌, refl, sym, ◌∙◌, ◌↔◌, ◌≢◌, Bool, true, false, List, [], ◌∷◌, none, some, String,
  is_some, count, every, length, total, arith, eq_iff, All, Ordering, total_cong, total_indicator,
}
use card_scope.Types.{Metric, Gpu, Net, Node}
use card_scope.Status.{idle}
use card_scope.Summary.{GpuState, gpu_state, summarize}
use card_scope.Summary.Classes.{gpu_state-idle_iff, idle-calm}
use card_scope.Summary.Partition.{counts-cards_in}
use card_scope.Overview.Availability.{cards_in-idle}
use card_scope.Card.{
  idle_cards, is_busy, busy_cards, unknown_cards, value_or_zero, rate, tone, badge,
}

disjoint_counts {ℓ} :
    {A : Type ℓ} (p q : A → Bool) (xs : List A)
    → ((x : A) → p x ≡ true → q x ≡ false)
    → count p xs + count q xs ≤ length xs
disjoint_counts p q [] h = omega arith
disjoint_counts p q (x ∷ xs) h = ground (arith, h x, disjoint_counts p q xs h)

-- The three counts of a node's card make up its GPUs: no GPU is counted as idle and as busy, so
-- what is left over as unknown is never negative.
pub node_counts :
    (n : Node) → idle_cards n + busy_cards n + unknown_cards n ≡ length n.snapshot.gpus
unfolding idle_cards busy_cards unknown_cards
node_counts n =
    omega (arith, disjoint_counts (λ g. idle g n) (is_busy n) n.snapshot.gpus (λ g h. ground arith))

-- Summed over the nodes, the idle counts of the cards are the number that the dashboard shows.
pub idle_cards-summary :
    (locale_compare : String → String → Ordering) (nodes : List Node)
    → total idle_cards nodes ≡ (summarize locale_compare nodes).counts.idle
unfolding idle_cards
idle_cards-summary locale_compare nodes =
    total_cong _ _ nodes (λ n. sym (total_indicator (λ g. idle g n) n.snapshot.gpus))
    ∙ sym (cards_in-idle nodes)
    ∙ sym (counts-cards_in locale_compare nodes GpuState.idle)

-- A GPU has the green badge exactly when the dashboard shows it as idle, and then its text says so.
pub tone-green_iff :
    (g : Gpu) (n : Node)
    → ((tone g n ≡ "green") ↔ (gpu_state g n ≡ GpuState.idle))
      × (gpu_state g n ≡ GpuState.idle → badge g n ≡ "空闲")
unfolding tone badge
tone-green_iff g n = (
  (
    λ h.
        (gpu_state-idle_iff g n).1
          (ground (arith, eq_iff "neutral" "green", eq_iff "red" "green", eq_iff "amber" "green")),
    λ h. ground (arith, idle-calm g n ((gpu_state-idle_iff g n).0 h), (gpu_state-idle_iff g n).0 h),
  ),
  λ h. ground (arith, idle-calm g n ((gpu_state-idle_iff g n).0 h), (gpu_state-idle_iff g n).0 h),
)

every_known :
    (key : Net → Metric) (nets : List Net)
    → (every (λ i. is_some (key i)) nets ≡ true) ↔ All (λ i. key i ≢ none) nets
every_known key [] = (λ h. tt, λ h. refl)
every_known key (i ∷ is) = (
  λ h. (ground arith, (every_known key is).0 (ground arith)),
  λ h. ground (arith, h.0, (every_known key is).1 h.1),
)

-- The rate of some interfaces is known exactly when there is one and each of them has a rate; it
-- is then their sum.
pub rate_lem :
    (key : Net → Metric) (nets : List Net)
    → ((rate key nets ≢ none) ↔ ((nets ≢ []) × All (λ i. key i ≢ none) nets))
      × ((v : ℕ) → rate key nets ≡ some v → v ≡ total (λ i. value_or_zero (key i)) nets)
unfolding rate
rate_lem key [] = ((λ h. absurd (h refl), λ h e. h.0 refl), λ v h. cc)
rate_lem key (i ∷ is) = (
  (
    λ h. (λ e. cc, (every_known key (i ∷ is)).0 (ground arith)),
    λ h e. ground (arith, (every_known key (i ∷ is)).1 h.1),
  ),
  λ v h. ground arith,
)
