-- ===== src/Resources/Laws.antt =====
-- The bars and the interfaces of web/src/features/nodes/NodeResources.tsx.
use mathlib.Core.List.{Perm, perm_middle}
use mathlib.Core.List.Perm
use card_scope.Base.{
  ℕ, ◌*◌, ◌≤◌, ◌<◌, ◌≡◌, refl, ◌↔◌, Bool, true, false, not, List, [], ◌∷◌, ◌++◌, Option, none, some,
  String, Ordering, keep, arith, eq_iff, if◌then◌else◌,
}
use card_scope.Base.Sorting.{sort-perm}
use card_scope.Types.{Node}
use card_scope.Resources.{Fraction, ratio, bar_class, nets, is_main, main, others}

-- A ratio exists exactly if the total is positive; it lies between 0 and 100 %, and is the exact
-- share where no more than everything is used.
pub ratio_lem :
    (used total : ℕ)
    → ((ratio used total ≡ none) ↔ (total ≡ 0))
      × ((f : Fraction)
          → ratio used total ≡ some f
          → (0 < f.whole)
            × (f.part ≤ 100 * f.whole)
            × (used ≤ total → (f.part ≡ 100 * used) × (f.whole ≡ total)))
unfolding ratio
ratio_lem used total = ((λ h. ground arith, λ h. ground arith), λ f h. ground arith)

bar_texts : (f : Fraction) → ¬ (bar_class (some f) ≡ "unavailable")
unfolding bar_class
bar_texts f h =
    ground
      (arith, eq_iff "high" "unavailable", eq_iff "warm" "unavailable", eq_iff "" "unavailable")

-- The class of a bar tells its range: "high" from 90 %, "warm" from 75 % and below 90 %,
-- "unavailable" exactly without a value.
pub bar_class_lem :
    (v : Option Fraction)
    → ((bar_class v ≡ "unavailable") ↔ (v ≡ none))
      × ((bar_class v ≡ "high") ↔ ((f : Fraction) × (v ≡ some f) × (90 * f.whole ≤ f.part)))
      × ((bar_class v ≡ "warm")
          ↔ ((f : Fraction) × (v ≡ some f) × (75 * f.whole ≤ f.part) × (f.part < 90 * f.whole)))
unfolding bar_class
bar_class_lem none = (
  (λ h. refl, λ h. refl),
  (λ h. absurd (ground (arith, eq_iff "unavailable" "high")), λ h. cc),
  (λ h. absurd (ground (arith, eq_iff "unavailable" "warm")), λ h. cc),
)
bar_class_lem (some f) = (
  (λ h. absurd (bar_texts f h), λ h. cc),
  (λ h. (f, refl, ground (arith, eq_iff "warm" "high", eq_iff "" "high")), λ h. ground arith),
  (
    λ h. (
      f,
      refl,
      ground (arith, eq_iff "high" "warm", eq_iff "" "warm"),
      ground (arith, eq_iff "high" "warm", eq_iff "" "warm"),
    ),
    λ h. ground arith,
  ),
)

keep-perm {ℓ} :
    {A : Type ℓ} (test : A → Bool) (xs : List A)
    → Perm (keep test xs ++ keep (λ x. not (test x)) xs) xs
keep-perm test [] = Perm.refl []
keep-perm test (x ∷ xs) =
    let rest = keep-perm test xs in
    let yes_of = keep test xs in
    let no_of = keep (λ y. not (test y)) xs in
    elim (test x)
      as (λ b.
        Perm ((if b then x ∷ yes_of else yes_of) ++ (if not b then x ∷ no_of else no_of))
          (x ∷ xs)) [
            | true ↦ Perm.cons x rest
            | false ↦ Perm.trans (perm_middle yes_of no_of) (Perm.cons x rest)
          ]

-- Each interface of a node is listed once, among the main ones or among the others.
pub main-others-perm :
    (by_name : String → String → Ordering) (n : Node)
    → Perm (main by_name n ++ others by_name n) n.snapshot.system.networks
unfolding main others nets
main-others-perm by_name n = Perm.trans (keep-perm (is_main by_name n) _) (sort-perm _ _)
