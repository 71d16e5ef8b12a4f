-- ===== src/Summary/Loops.antt =====
-- What the loops of web/src/features/dashboard/summary.ts add up, for any measure of their
-- variables.
use card_scope.Base.{ℕ, ◌+◌, ◌≡◌, List, [], ◌∷◌, total, arith}
use card_scope.Types.{Gpu, Node}
use card_scope.Summary.{Tally, gpu_step, gpu_loop, node_step, node_loop}

-- The sum of a number over all cards of all nodes.
abbrev pub over_cards : (Gpu → Node → ℕ) → List Node → ℕ
over_cards c = total (λ (n : Node). total (λ g. c g n) n.snapshot.gpus)

module _ (measure : Tally → ℕ) (c : Gpu → Node → ℕ) (d : Node → ℕ)
    (on_gpu : (n : Node) (t : Tally) (g : Gpu) → measure (gpu_step n t g) ≡ measure t + c g n)
    (on_node : (t : Tally) (n : Node) → measure (node_step t n) ≡ measure t + d n) where
  gpu_loop-adds :
      (n : Node) (t : Tally) (gs : List Gpu)
      → measure (gpu_loop n t gs) ≡ measure t + total (λ g. c g n) gs
  unfolding gpu_loop
  gpu_loop-adds n t [] = omega arith
  gpu_loop-adds n t (g ∷ gs) = omega (arith, on_gpu n t g, gpu_loop-adds n (gpu_step n t g) gs)

  pub node_loop-adds :
      (t : Tally) (ns : List Node)
      → measure (node_loop t ns) ≡ measure t + total d ns + over_cards c ns
  unfolding node_loop
  node_loop-adds t [] = omega arith
  node_loop-adds t (n ∷ ns) = omega (
    arith,
    on_node t n,
    gpu_loop-adds n (node_step t n) n.snapshot.gpus,
    node_loop-adds (gpu_loop n (node_step t n) n.snapshot.gpus) ns,
  )

-- A property that each step of the loops keeps holds when they end.
module _ (P : Tally → Type 0) (on_gpu : (n : Node) (t : Tally) (g : Gpu) → P t → P (gpu_step n t g))
    (on_node : (t : Tally) (n : Node) → P t → P (node_step t n)) where
  gpu_loop-keeps : (n : Node) (t : Tally) (gs : List Gpu) → P t → P (gpu_loop n t gs)
  unfolding gpu_loop
  gpu_loop-keeps n t [] h = h
  gpu_loop-keeps n t (g ∷ gs) h = gpu_loop-keeps n (gpu_step n t g) gs (on_gpu n t g h)

  pub node_loop-keeps : (t : Tally) (ns : List Node) → P t → P (node_loop t ns)
  unfolding node_loop
  node_loop-keeps t [] h = h
  node_loop-keeps t (n ∷ ns) h =
      node_loop-keeps (gpu_loop n (node_step t n) n.snapshot.gpus) ns
        (gpu_loop-keeps n (node_step t n) n.snapshot.gpus (on_node t n h))
