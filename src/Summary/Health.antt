-- ===== src/Summary/Health.antt =====
-- The issues and the average load of web/src/features/dashboard/summary.ts.
use mathlib.Core.List.{append_assoc, append-nil}
use card_scope.Base.{
  ◌≤◌, ◌≡◌, refl, sym, ◌∙◌, ap, ◌⊎◌, ◌≢◌, ◌↔◌, true, List, [], ◌∷◌, ◌++◌, String, Ordering, All,
  flat_map, length, arith, eq_iff,
}
use card_scope.Types.{Gpu, Node}
use card_scope.Summary.{
  GpuState, Issue, Tally, node_issue, missing_issue, gpu_issue, gpu_state, gpu_step, gpu_loop,
  node_step, node_loop, start, summarize,
}

-- The issues of one node, and of a cluster, listed without the loops.
abbrev pub node_issues : Node → List Issue
node_issues n =
    node_issue n
    ++ (missing_issue n ++ flat_map (λ g. gpu_issue (gpu_state g n) g n) n.snapshot.gpus)

gpu_loop-issues :
    (n : Node) (t : Tally) (gs : List Gpu)
    → (gpu_loop n t gs).issues ≡ t.issues ++ flat_map (λ g. gpu_issue (gpu_state g n) g n) gs
unfolding gpu_loop gpu_step
gpu_loop-issues n t [] = sym (append-nil _)
gpu_loop-issues n t (g ∷ gs) =
    gpu_loop-issues n (gpu_step n t g) gs
    ∙ append_assoc t.issues (gpu_issue (gpu_state g n) g n)
        (flat_map (λ c. gpu_issue (gpu_state c n) c n) gs)

node_loop-issues :
    (t : Tally) (ns : List Node) → (node_loop t ns).issues ≡ t.issues ++ flat_map node_issues ns
unfolding node_loop node_step
node_loop-issues t [] = sym (append-nil _)
node_loop-issues t (n ∷ ns) =
    let t' = gpu_loop n (node_step t n) n.snapshot.gpus in
    node_loop-issues t' ns
    ∙ ap (λ is. is ++ flat_map node_issues ns) (gpu_loop-issues n (node_step t n) n.snapshot.gpus)
    ∙ simp append_assoc

-- The issues are those of the nodes in order: for each node that it is offline or that its
-- collection is limited, then that cards are missing, then its cards that need attention or lack
-- data.
pub issues-flat_map :
    (locale_compare : String → String → Ordering) (nodes : List Node)
    → (summarize locale_compare nodes).issues ≡ flat_map node_issues nodes
unfolding summarize
issues-flat_map locale_compare nodes = node_loop-issues start nodes

-- A node that gives no issue.
pub record IsSound (n : Node) : Type 0 where
  pub online : n.online ≡ true
  pub collected : (n.snapshot.gpu_status ≡ "") ⊎ (n.snapshot.gpu_status ≡ "ok")
  pub complete : n.expected ≤ length n.snapshot.gpus
  pub cards :
      All
        (λ g. (gpu_state g n ≢ GpuState.attention) × (gpu_state g n ≢ GpuState.unknown))
        n.snapshot.gpus

append-eq-nil {ℓ} : {A : Type ℓ} (xs ys : List A) → xs ++ ys ≡ [] → (xs ≡ []) × (ys ≡ [])
append-eq-nil [] ys h = (refl, h)
append-eq-nil (x ∷ xs) ys h = cc

flat_map-eq-nil {ℓ κ} :
    {A : Type ℓ} {B : Type κ} (f : A → List B) (xs : List A)
    → (flat_map f xs ≡ []) ↔ All (λ x. f x ≡ []) xs
flat_map-eq-nil f [] = (λ h. tt, λ h. refl)
flat_map-eq-nil f (x ∷ xs) = (
  λ h. let (p, q) = append-eq-nil (f x) (flat_map f xs) h in (p, (flat_map-eq-nil f xs).0 q),
  λ h. rw h.0 ((flat_map-eq-nil f xs).1 h.1),
)

All-iff {ℓ κ μ} :
    {A : Type ℓ} (P : A → Type κ) (Q : A → Type μ) (xs : List A)
    → ((x : A) → P x ↔ Q x)
    → All P xs ↔ All Q xs
All-iff P Q [] h = (λ _. tt, λ _. tt)
All-iff P Q (x ∷ xs) h =
    let (to, from) = All-iff P Q xs h in (λ a. ((h x).0 a.0, to a.1), λ a. ((h x).1 a.0, from a.1))

gpu_issue-eq-nil :
    (s : GpuState) (g : Gpu) (n : Node)
    → (gpu_issue s g n ≡ []) ↔ ((s ≢ GpuState.attention) × (s ≢ GpuState.unknown))
gpu_issue-eq-nil GpuState.idle g n = (λ h. (λ e. cc, λ e. cc), λ h. refl)
gpu_issue-eq-nil GpuState.busy g n = (λ h. (λ e. cc, λ e. cc), λ h. refl)
gpu_issue-eq-nil GpuState.attention g n = (λ h. cc, λ h. absurd (h.0 refl))
gpu_issue-eq-nil GpuState.unknown g n = (λ h. cc, λ h. absurd (h.1 refl))
gpu_issue-eq-nil GpuState.offline g n = (λ h. (λ e. cc, λ e. cc), λ h. refl)

node_issue-eq-nil :
    (n : Node)
    → (node_issue n ≡ [])
      ↔ ((n.online ≡ true) × ((n.snapshot.gpu_status ≡ "") ⊎ (n.snapshot.gpu_status ≡ "ok")))
node_issue-eq-nil n = (
  λ h. ground (arith, eq_iff n.snapshot.gpu_status "", eq_iff n.snapshot.gpu_status "ok"),
  λ h. ground (arith, eq_iff n.snapshot.gpu_status "", eq_iff n.snapshot.gpu_status "ok"),
)

missing_issue-eq-nil :
    (n : Node) → n.online ≡ true → (missing_issue n ≡ []) ↔ (n.expected ≤ length n.snapshot.gpus)
missing_issue-eq-nil n h = (λ e. ground arith, λ e. ground arith)

node_issues-eq-nil : (n : Node) → (node_issues n ≡ []) ↔ IsSound n
node_issues-eq-nil n =
    let cards = flat_map-eq-nil (λ g. gpu_issue (gpu_state g n) g n) n.snapshot.gpus in
    let calm =
      All-iff (λ g. gpu_issue (gpu_state g n) g n ≡ [])
        (λ g. (gpu_state g n ≢ GpuState.attention) × (gpu_state g n ≢ GpuState.unknown))
        n.snapshot.gpus (λ g. gpu_issue-eq-nil (gpu_state g n) g n) in
    (
      λ h.
          let (p, h') = append-eq-nil (node_issue n) _ h in
          let (q, r) = append-eq-nil (missing_issue n) _ h' in
          let (online, collected) = (node_issue-eq-nil n).0 p in
          record {
            online = online;
            collected = collected;
            complete = (missing_issue-eq-nil n online).0 q;
            cards = calm.0 (cards.0 r);
          },
      λ h. rw (
        (node_issue-eq-nil n).1 (h.online, h.collected),
        (missing_issue-eq-nil n h.online).1 h.complete,
        cards.1 (calm.1 h.cards),
      ),
    )

-- No issue is listed exactly when every node is online, its collection works, it has the expected
-- number of cards at least, and none of its cards needs attention or lacks data.
pub issues-eq-nil_iff :
    (locale_compare : String → String → Ordering) (nodes : List Node)
    → ((summarize locale_compare nodes).issues ≡ []) ↔ All IsSound nodes
issues-eq-nil_iff locale_compare nodes =
    let (to, from) = flat_map-eq-nil node_issues nodes in
    let (sound, back) = All-iff (λ n. node_issues n ≡ []) IsSound nodes node_issues-eq-nil in
    (
      λ h. sound (to (sym (issues-flat_map locale_compare nodes) ∙ h)),
      λ h. issues-flat_map locale_compare nodes ∙ from (back h),
    )
