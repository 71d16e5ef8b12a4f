-- ===== src/Summary/Sources.antt =====
-- Where the issues of web/src/features/dashboard/summary.ts come from.
use mathlib.Core.List.{Memᴰ}
use mathlib.Core.Path.{subst}
use card_scope.Base.{
  ◌≡◌, List, [], ◌∷◌, ◌++◌, some, String, Ordering, All, All-append, All-of_mem, if_both, some_inj,
  not, ◌&&◌, ◌||◌, ◌==◌, is_zero,
}
use card_scope.Types.{Gpu, Node}
use card_scope.Summary.{
  GpuState, Issue, gpu_state, node_issue, missing_issue, gpu_issue, absent, is_attention,
  is_unknown, Tally, gpu_step, gpu_loop, node_step, node_loop, start, summarize,
}

module _ (I : Issue → Type 0) where
  gpu_loop-issues :
      (n : Node) (t : Tally) (gs : List Gpu)
      → All I t.issues
      → All (λ g. All I (gpu_issue (gpu_state g n) g n)) gs
      → All I (gpu_loop n t gs).issues
  unfolding gpu_loop
  gpu_loop-issues n t [] before new = before
  gpu_loop-issues n t (g ∷ gs) before new =
      gpu_loop-issues n (gpu_step n t g) gs
        (unfold gpu_step in All-append I t.issues _ before new.0) new.1

  abbrev OfNode : Node → Type 0
  OfNode n =
      All I (node_issue n)
      × All I (missing_issue n)
      × All (λ g. All I (gpu_issue (gpu_state g n) g n)) n.snapshot.gpus

  node_loop-issues :
      (t : Tally) (ns : List Node) → All I t.issues → All OfNode ns → All I (node_loop t ns).issues
  unfolding node_loop
  node_loop-issues t [] before new = before
  node_loop-issues t (n ∷ ns) before new =
      node_loop-issues (gpu_loop n (node_step t n) n.snapshot.gpus) ns
        (gpu_loop-issues n (node_step t n) n.snapshot.gpus
          (unfold node_step in
            All-append I (t.issues ++ node_issue n) _ (All-append I t.issues _ before new.0.0)
              new.0.1)
          new.0.2)
        new.1

-- The issue names a node of the list, and a card of that node if it names one.
abbrev pub IsFrom : List Node → Issue → Type 0
IsFrom nodes i = Memᴰ i.node nodes × ((g : Gpu) → i.gpu ≡ some g → Memᴰ g i.node.snapshot.gpus)

node_issue-IsFrom :
    (nodes : List Node) (n : Node) → Memᴰ n nodes → All (IsFrom nodes) (node_issue n)
node_issue-IsFrom nodes n there =
    if_both (All (IsFrom nodes)) (not n.online) _ _ (λ _. ((there, λ g e. absurd (cc e)), tt))
      (λ _.
        if_both (All (IsFrom nodes))
          (not (n.snapshot.gpu_status == "") && not (n.snapshot.gpu_status == "ok")) _ _
          (λ _. ((there, λ g e. absurd (cc e)), tt)) (λ _. tt))

missing_issue-IsFrom :
    (nodes : List Node) (n : Node) → Memᴰ n nodes → All (IsFrom nodes) (missing_issue n)
missing_issue-IsFrom nodes n there =
    if_both (All (IsFrom nodes)) (not (is_zero (absent n)) && n.online) _ _
      (λ _. ((there, λ g e. absurd (cc e)), tt)) (λ _. tt)

gpu_issue-IsFrom :
    (nodes : List Node) (n : Node)
    → Memᴰ n nodes
    → (s : GpuState) (g : Gpu) → Memᴰ g n.snapshot.gpus
    → All (IsFrom nodes) (gpu_issue s g n)
gpu_issue-IsFrom nodes n there s g here =
    if_both (All (IsFrom nodes)) (is_attention s || is_unknown s) _ _
      (λ _. ((there, λ h e. subst (λ k. Memᴰ k n.snapshot.gpus) (some_inj e) here), tt)) (λ _. tt)

-- Every issue of a summary leads somewhere: its node is one of those given, and its card, if it has
-- one, is a card of that node.
pub issues-IsFrom :
    (locale_compare : String → String → Ordering) (nodes : List Node)
    → All (IsFrom nodes) (summarize locale_compare nodes).issues
unfolding summarize
issues-IsFrom locale_compare nodes = node_loop-issues (IsFrom nodes) start nodes tt (
    All-of_mem (OfNode (IsFrom nodes)) nodes (λ n there. (
      node_issue-IsFrom nodes n there,
      missing_issue-IsFrom nodes n there,
      All-of_mem _ n.snapshot.gpus
          (λ g here. gpu_issue-IsFrom nodes n there (gpu_state g n) g here),
    )))
