-- ===== src/Summary/Order.antt =====
-- The figures of web/src/features/dashboard/summary.ts do not depend on the order of the nodes: they
-- are figures of a cluster, which is a list of nodes up to order.
use mathlib.Core.List.{Perm, Permᴰ}
use mathlib.Core.Logic.{∥∥₁_elim}
use mathlib.Core.Quot
use mathlib.Core.Quot.{Quot}
use card_scope.Base.{
  ℕ, ◌≡◌, refl, sym, ◌∙◌, ap, List, [], ◌∷◌, Option, none, some, String, Ordering, indicator,
  length, total, total_indicator, is_some, arith, inl, inr,
}
use card_scope.Types.{Metric, Gpu, Node}
use card_scope.Summary.{
  GpuState, gpu_state, count_of, absent, sample, value_or_zero, Summary, summarize,
}
use card_scope.Summary.Load.{samples, load, Nat-cases, util_lem}
use card_scope.Summary.Partition.{same_state, counts-cards_in, counts-detected}

-- The numbers of a summary, with the two of its average.
pub data Figure : Type 0 where
  in_state : GpuState → Figure
  detected missing online util_sum util_count : Figure

abbrev sum_of : Option (ℕ × ℕ) → ℕ
sum_of none = 0
sum_of (some (sum, number)) = sum

abbrev pub figure : Figure → Summary → ℕ
figure (in_state s) r = count_of s r.counts
figure detected r = r.detected
figure missing r = r.missing
figure online r = r.online
figure util_sum r = sum_of r.util
figure util_count r = r.util_count

-- What a node adds to a figure.
abbrev pub share : Figure → Node → ℕ
share (in_state s) n = total (λ (g : Gpu). indicator (same_state s (gpu_state g n))) n.snapshot.gpus
share detected n = length n.snapshot.gpus
share missing n = absent n
share online n = indicator n.online
share util_sum n = total (λ (g : Gpu). value_or_zero (sample g n)) n.snapshot.gpus
share util_count n = total (λ (g : Gpu). indicator (is_some (sample g n))) n.snapshot.gpus

module _ {ℓ} {A : Type ℓ} (f : A → ℕ) where
  total-Permᴰ : {xs ys : List A} → Permᴰ xs ys → total f xs ≡ total f ys
  total-Permᴰ Permᴰ.nil = refl
  total-Permᴰ (Permᴰ.cons e p) = omega (arith, ap f e, total-Permᴰ p)
  total-Permᴰ (Permᴰ.swap e d) = omega (arith, ap f e, ap f d)
  total-Permᴰ (Permᴰ.trans p q) = total-Permᴰ p ∙ total-Permᴰ q

  pub total-Perm : {xs ys : List A} → Perm xs ys → total f xs ≡ total f ys
  total-Perm {xs} {ys} p = ∥∥₁_elim p (hlevel) total-Permᴰ

-- A cluster: its nodes, in no order.
abbrev pub Cluster : Type 0
Cluster = Quot (Perm {A = Node})

abbrev pub of_nodes : List Node → Cluster
of_nodes = Quot.mk

unfoldable pub figure_of : Figure → Cluster → ℕ
figure_of m = Quot.lift (hlevel) (total (share m)) λ xs ys p. total-Perm (share m) p

sample_zero : (m : Metric) → indicator (is_some m) ≡ 0 → value_or_zero m ≡ 0
sample_zero none h = refl
sample_zero (some u) h = omega arith

cards_zero :
    (n : Node) (gs : List Gpu)
    → total (λ g. indicator (is_some (sample g n))) gs ≡ 0
    → total (λ g. value_or_zero (sample g n)) gs ≡ 0
cards_zero n [] h = refl
cards_zero n (g ∷ gs) h =
    omega (arith, sample_zero (sample g n) (omega (arith, h)), cards_zero n gs (omega (arith, h)))

load_zero : (nodes : List Node) → samples nodes ≡ 0 → load nodes ≡ 0
load_zero [] h = refl
load_zero (n ∷ ns) h =
    omega (arith, cards_zero n n.snapshot.gpus (omega (arith, h)), load_zero ns (omega (arith, h)))

module _ (locale_compare : String → String → Ordering) where
  -- Each figure of a summary is that of the cluster: the sum of what its nodes add.
  pub summarize-figure_of :
      (m : Figure) (nodes : List Node)
      → figure m (summarize locale_compare nodes) ≡ figure_of m (of_nodes nodes)
  unfolding figure_of
  summarize-figure_of (in_state s) nodes = counts-cards_in locale_compare nodes s
  summarize-figure_of detected nodes = (counts-detected locale_compare nodes).0
  summarize-figure_of missing nodes = (util_lem locale_compare nodes).3
  summarize-figure_of online nodes =
      unfold summarize in sym (total_indicator (λ (n : Node). n.online) nodes)
  summarize-figure_of util_sum nodes =
      let (_, empty, full, _) = util_lem locale_compare nodes in
      elim (Nat-cases (samples nodes)) [
        | inl none_counts ↦ ap sum_of (empty none_counts) ∙ sym (load_zero nodes none_counts)
        | inr some_count ↦ ap sum_of (full some_count)
      ]
  summarize-figure_of util_count nodes = (util_lem locale_compare nodes).0

  -- The order in which the hub lists the nodes changes no figure of the summary.
  pub summarize-Perm :
      (m : Figure) {nodes others : List Node}
      → Perm nodes others
      → figure m (summarize locale_compare nodes) ≡ figure m (summarize locale_compare others)
  summarize-Perm m {nodes} {others} p =
      summarize-figure_of m nodes
      ∙ ap (figure_of m) (Quot.sound p)
      ∙ sym (summarize-figure_of m others)
