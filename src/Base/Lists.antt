-- ===== src/Base/Lists.antt =====
-- Lists measured by native numbers, and filtered and counted by Boolean tests.
use Prim.Native.Nat.{ℕ, zero, suc, ◌+◌, ◌≤◌, ◌<◌}
use mathlib.Core.Logic.{inl, inr}
use mathlib.Core.Path.{◌≡◌, refl, sym, subst}
use mathlib.Core.Bool.{Bool, true, false, ◌&&◌}
use mathlib.Core.Option.{Option, none, some}
use mathlib.Core.List.{List, [], ◌∷◌, ◌++◌, Memᴰ}
use native.Mathlib.Omega.{arith}
use card_scope.Base.Tests.{Bool-cases, some_inj, nat_eq, and-true, if◌then◌else◌, indicator}

module _ {ℓ} {A : Type ℓ} where
  abbrev pub length : List A → ℕ
  length [] = 0
  length (x ∷ xs) = suc (length xs)

  abbrev pub is_empty : List A → Bool
  is_empty [] = true
  is_empty (x ∷ xs) = false

  abbrev pub take : ℕ → List A → List A
  take zero xs = []
  take (suc n) [] = []
  take (suc n) (x ∷ xs) = x ∷ take n xs

  -- `xs.filter(test)`.
  abbrev pub keep : (A → Bool) → List A → List A
  keep test [] = []
  keep test (x ∷ xs) = if test x then x ∷ keep test xs else keep test xs

  -- `xs.filter(test).length`.
  abbrev pub count : (A → Bool) → List A → ℕ
  count test [] = 0
  count test (x ∷ xs) = indicator (test x) + count test xs

  -- The sum of a number over the items.
  abbrev pub total : (A → ℕ) → List A → ℕ
  total f [] = 0
  total f (x ∷ xs) = f x + total f xs

  -- `xs.every(test)` and `xs.find(test)`.
  abbrev pub every : (A → Bool) → List A → Bool
  every test [] = true
  every test (x ∷ xs) = test x && every test xs

  abbrev pub find : (A → Bool) → List A → Option A
  find test [] = none
  find test (x ∷ xs) = if test x then some x else find test xs

  abbrev pub flat_map {κ} : {B : Type κ} → (A → List B) → List A → List B
  flat_map f [] = []
  flat_map f (x ∷ xs) = f x ++ flat_map f xs

-- Every item satisfies P.
abbrev pub All {ℓ κ} : {A : Type ℓ} → (A → Type κ) → List A → Type κ
All P [] = Unit
All P (x ∷ xs) = P x × All P xs

module _ {ℓ} {A : Type ℓ} where
  pub length-append : (xs ys : List A) → length (xs ++ ys) ≡ length xs + length ys
  length-append [] ys = omega arith
  length-append (x ∷ xs) ys = omega (arith, length-append xs ys)

  pub length-keep : (test : A → Bool) (xs : List A) → length (keep test xs) ≡ count test xs
  length-keep test [] = refl
  length-keep test (x ∷ xs) = ground (arith, length-keep test xs)

  pub count-append :
      (test : A → Bool) (xs ys : List A) → count test (xs ++ ys) ≡ count test xs + count test ys
  count-append test [] ys = omega arith
  count-append test (x ∷ xs) ys = omega (arith, count-append test xs ys)

  pub count-le-length : (test : A → Bool) (xs : List A) → count test xs ≤ length xs
  count-le-length test [] = omega arith
  count-le-length test (x ∷ xs) = ground (arith, count-le-length test xs)

  pub total-append : (f : A → ℕ) (xs ys : List A) → total f (xs ++ ys) ≡ total f xs + total f ys
  total-append f [] ys = omega arith
  total-append f (x ∷ xs) ys = omega (arith, total-append f xs ys)

  pub All-keep {κ} :
      (P : A → Type κ) (test : A → Bool) (xs : List A)
      → ((x : A) → test x ≡ true → P x)
      → All P (keep test xs)
  All-keep P test [] h = tt
  All-keep P test (x ∷ xs) h = ground (arith, h x, All-keep P test xs h)

  pub All-mono {κ μ} :
      (P : A → Type κ) (Q : A → Type μ) (xs : List A) → ((x : A) → P x → Q x) → All P xs → All Q xs
  All-mono P Q [] f h = tt
  All-mono P Q (x ∷ xs) f h = (f x h.0, All-mono P Q xs f h.1)

  pub All-kept {κ} :
      (P : A → Type κ) (test : A → Bool) (xs : List A) → All P xs → All P (keep test xs)
  All-kept P test [] h = tt
  All-kept P test (x ∷ xs) h = ground (arith, All-kept P test xs h.1)

  pub All-append {κ} : (P : A → Type κ) (xs ys : List A) → All P xs → All P ys → All P (xs ++ ys)
  All-append P [] ys h k = k
  All-append P (x ∷ xs) ys h k = (h.0, All-append P xs ys h.1 k)

  pub All-mem {κ} : (P : A → Type κ) (xs : List A) (x : A) → All P xs → Memᴰ x xs → P x
  All-mem P (y ∷ ys) x h (Memᴰ.head e) = subst P (sym e) h.0
  All-mem P (y ∷ ys) x h (Memᴰ.tail i) = All-mem P ys x h.1 i
  All-mem P [] x h i = elim i [ ]

  pub All-find {κ} :
      (P : A → Type κ) (test : A → Bool) (xs : List A) {x : A}
      → All P xs
      → find test xs ≡ some x
      → P x × (test x ≡ true)
  All-find P test [] h e = cc
  All-find P test (y ∷ ys) {x} h e = elim (Bool-cases (test y)) [
    | inl hit ↦
        let same : y ≡ x = some_inj (rw (hit, find) at e) in
        (subst P same h.0, subst (λ z. test z ≡ true) same hit)
    | inr missed ↦ All-find P test ys h.1 (rw (missed, find) at e)
  ]

  pub All-of_mem {κ} : (P : A → Type κ) (xs : List A) → ((x : A) → Memᴰ x xs → P x) → All P xs
  All-of_mem P [] f = tt
  All-of_mem P (x ∷ xs) f = (f x (Memᴰ.head refl), All-of_mem P xs (λ y i. f y (Memᴰ.tail i)))

  pub count_le :
      (p q : A → Bool) (xs : List A) → ((x : A) → p x ≡ true → q x ≡ true) → count p xs ≤ count q xs
  count_le p q [] h = omega arith
  count_le p q (x ∷ xs) h = ground (arith, h x, count_le p q xs h)

  pub total_cong : (f g : A → ℕ) (xs : List A) → ((x : A) → f x ≡ g x) → total f xs ≡ total g xs
  total_cong f g [] h = refl
  total_cong f g (x ∷ xs) h = omega (arith, h x, total_cong f g xs h)

  pub total_zero : (xs : List A) → total (λ x. 0) xs ≡ 0
  total_zero [] = refl
  total_zero (x ∷ xs) = omega (arith, total_zero xs)

  pub total_one : (xs : List A) → total (λ x. 1) xs ≡ length xs
  total_one [] = refl
  total_one (x ∷ xs) = omega (arith, total_one xs)

  pub total_add : (f g : A → ℕ) (xs : List A) → total (λ x. f x + g x) xs ≡ total f xs + total g xs
  total_add f g [] = refl
  total_add f g (x ∷ xs) = omega (arith, total_add f g xs)

  pub total_indicator :
      (test : A → Bool) (xs : List A) → total (λ x. indicator (test x)) xs ≡ count test xs
  total_indicator test [] = refl
  total_indicator test (x ∷ xs) = omega (arith, total_indicator test xs)

  pub count_cong : (p q : A → Bool) (xs : List A) → ((x : A) → p x ≡ q x) → count p xs ≡ count q xs
  count_cong p q [] h = refl
  count_cong p q (x ∷ xs) h = rw (h x) (omega (arith, count_cong p q xs h))

pub is_empty-nil {ℓ} : {A : Type ℓ} (xs : List A) → is_empty xs ≡ true → xs ≡ []
is_empty-nil [] h = refl
is_empty-nil (x ∷ xs) h = cc

-- The numbers below a bound, to check a test on all of them.
abbrev pub numbers : ℕ → List ℕ
numbers zero = []
numbers (suc n) = n ∷ numbers n

pub every-numbers :
    (test : ℕ → Bool) (bound : ℕ)
    → every test (numbers bound) ≡ true
    → (n : ℕ) → n < bound
    → test n ≡ true
every-numbers test zero all n below = absurd (omega arith)
every-numbers test (suc bound) all n below = elim (Bool-cases (nat_eq n bound)) [
  | inl last ↦
      let same : n ≡ bound = ground arith in
      subst (λ k. test k ≡ true) (sym same) (and-true _ _ all).0
  | inr before ↦ every-numbers test bound (and-true _ _ all).1 n (ground arith)
]
