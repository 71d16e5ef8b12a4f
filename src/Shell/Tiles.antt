-- ===== src/Shell/Tiles.antt =====
-- The tiles of web/src/app/App.tsx against the counts of web/src/features/dashboard/summary.ts.
use card_scope.Base.{
  ℕ, ◌+◌, ◌≡◌, refl, sym, ◌∙◌, ap, Bool, not, ◌&&◌, List, [], ◌∷◌, map, String, Ordering, total,
  total_cong, total_add, indicator, arith, length, length-append,
}
use card_scope.Types.{Gpu, Node}
use card_scope.Status.{bad}
use card_scope.Summary.{GpuState, is_hot, gpu_state, summarize}
use card_scope.Summary.Loops.{over_cards}
use card_scope.Summary.Partition.{same_state, counts-cards_in, counts-detected}
use card_scope.Overview.{faults, missing, all_cards, available, online}
use card_scope.Overview.Availability.{count-all_cards, over_cards_cong, available-idle}
use card_scope.Shell.{Tile, tiles}

-- A card that is online and without a fault, but at 85 degrees or more.
abbrev pub is_only_hot : Gpu → Node → Bool
is_only_hot g n = n.online && not (bad g) && is_hot g.temperature

attention_parts :
    (g : Gpu) (n : Node)
    → indicator (same_state GpuState.attention (gpu_state g n))
      ≡ indicator (n.online && bad g) + indicator (is_only_hot g n)
unfolding gpu_state
attention_parts g n = ground arith

over_cards-add :
    (c d : Gpu → Node → ℕ) (nodes : List Node)
    → over_cards (λ g n. c g n + d g n) nodes ≡ over_cards c nodes + over_cards d nodes
over_cards-add c d nodes =
    total_cong _ _ nodes (λ n. total_add (λ g. c g n) (λ g. d g n) n.snapshot.gpus)
    ∙ total_add _ _ nodes

pub attention-faults :
    (locale_compare : String → String → Ordering) (nodes : List Node)
    → (summarize locale_compare nodes).counts.attention
      ≡ faults nodes + over_cards (λ g n. indicator (is_only_hot g n)) nodes
unfolding faults
attention-faults locale_compare nodes =
    counts-cards_in locale_compare nodes GpuState.attention
    ∙ over_cards_cong _ _ nodes attention_parts
    ∙ over_cards-add _ _ nodes
    ∙ ap (λ k. k + over_cards (λ g n. indicator (is_only_hot g n)) nodes)
        (sym (count-all_cards (λ g n. n.online && bad g) nodes))

length-pairs :
    (n : Node) (gs : List Gpu) → length {A = Gpu × Node} (map (λ g. (g, n)) gs) ≡ length gs
length-pairs n [] = refl
length-pairs n (g ∷ gs) = omega (arith, length-pairs n gs)

length-all_cards :
    (nodes : List Node)
    → length (all_cards nodes) ≡ total (λ (n : Node). length n.snapshot.gpus) nodes
unfolding all_cards
length-all_cards [] = refl
length-all_cards (n ∷ ns) = omega (
  arith,
  length-append {A = Gpu × Node} (map (λ g. (g, n)) n.snapshot.gpus) (all_cards ns),
  length-pairs n n.snapshot.gpus,
  length-all_cards ns,
)

-- The tiles show the dashboard's numbers of the nodes that are online, of all cards and of the idle
-- ones. The faulty cards of the last tile are those that need attention on the dashboard, without
-- the ones that are only too hot.
pub tiles_lem :
    (locale_compare : String → String → Ordering) (nodes : List Node)
    → let r = summarize locale_compare nodes in
      (map (λ (t : Tile). t.value) (tiles nodes)
        ≡ r.online ∷ r.detected ∷ r.counts.idle ∷ (faults nodes + missing nodes) ∷ [])
      × (r.counts.attention ≡ faults nodes + over_cards (λ g n. indicator (is_only_hot g n)) nodes)
unfolding tiles online summarize
tiles_lem locale_compare nodes = (
  ap (λ k. online nodes ∷ k ∷ available nodes ∷ (faults nodes + missing nodes) ∷ [])
        (length-all_cards nodes ∙ sym (counts-detected locale_compare nodes).0)
      ∙ ap
          (λ k.
            online nodes
            ∷ (summarize locale_compare nodes).detected
            ∷ k
            ∷ (faults nodes + missing nodes)
            ∷ [])
          (available-idle locale_compare nodes),
  attention-faults locale_compare nodes,
)
