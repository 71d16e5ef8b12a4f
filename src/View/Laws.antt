-- ===== src/View/Laws.antt =====
-- The dashboard of web/src/features/dashboard/Dashboard.tsx tells the truth about its summary.
use card_scope.Base.{
  ℕ, ◌+◌, ◌≡◌, refl, ◌↔◌, ◌≢◌, Bool, false, List, [], ◌∷◌, String, Ordering, All, total, arith,
  is_empty-nil, is_zero, keep, not, sym, ◌∙◌,
}
use card_scope.Types.{Node}
use card_scope.Summary.{Counts, count_of, summarize}
use card_scope.Summary.Health.{IsSound, issues-eq-nil_iff}
use card_scope.Summary.Partition.{counts-detected}
use card_scope.View.{Headline, states, segments, headline}

keep_nonzero {ℓ} :
    {A : Type ℓ} (f : A → ℕ) (xs : List A)
    → total f (keep (λ x. not (is_zero (f x))) xs) ≡ total f xs
keep_nonzero f [] = refl
keep_nonzero f (x ∷ xs) = ground (arith, keep_nonzero f xs)

segments-total :
    (c : Counts)
    → total (λ s. count_of s c) (segments c) ≡ c.idle + c.busy + c.attention + c.unknown + c.offline
unfolding segments
segments-total c = keep_nonzero (λ s. count_of s c) states ∙ omega arith

-- The parts of the bar make up all detected cards.
pub segments-detected :
    (locale_compare : String → String → Ordering) (nodes : List Node)
    → let r = summarize locale_compare nodes in
      total (λ s. count_of s r.counts) (segments r.counts) ≡ r.detected
segments-detected locale_compare nodes =
    segments-total (summarize locale_compare nodes).counts
    ∙ sym (counts-detected locale_compare nodes).1

-- The dashboard says that the cluster runs normally exactly when it has fresh data, there are
-- nodes, and all of them are sound.
pub headline_normal_iff :
    (locale_compare : String → String → Ordering) (updated : ℕ) (is_stale : Bool)
    (nodes : List Node)
    → (headline updated is_stale nodes (summarize locale_compare nodes) ≡ Headline.normal)
      ↔ ((updated ≢ 0) × (is_stale ≡ false) × (nodes ≢ []) × All IsSound nodes)
unfolding headline
headline_normal_iff locale_compare updated is_stale nodes =
    let (to, from) = issues-eq-nil_iff locale_compare nodes in
    (
      λ h. (ground arith, ground arith, ground arith, to (is_empty-nil _ (ground arith))),
      λ h. ground (arith, from h.3, h.2, is_empty-nil nodes),
    )
