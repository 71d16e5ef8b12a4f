-- ===== src/Base/Sorting.antt =====
-- `xs.sort(compare)`: the stable sort, which a consistent comparator determines. A comparator's
-- number is read only by its sign, so it is an `Ordering`.
use Prim.Native.Nat.{ℕ, ◌+◌, Ordering}
use mathlib.Core.Path.{◌≡◌, refl}
use native.Mathlib.Omega.{arith}
use mathlib.Core.Bool.{Bool, true, false}
use mathlib.Core.List.{List, [], ◌∷◌}
use mathlib.Core.List.{Perm}
use mathlib.Core.List.Perm
use card_scope.Base.Tests.{if◌then◌else◌}
use card_scope.Base.Lists.{total, All}

abbrev pub is_gt : Ordering → Bool
is_gt Ordering.gt = true
is_gt _ = false

-- `x || y` on the numbers of two comparators.
abbrev pub or_else : Ordering → Ordering → Ordering
or_else Ordering.eq y = y
or_else x y = x

module _ {ℓ} {A : Type ℓ} (cmp : A → A → Ordering) where
  unfoldable pub insert : A → List A → List A
  insert x [] = x ∷ []
  insert x (y ∷ ys) = if is_gt (cmp x y) then y ∷ insert x ys else x ∷ y ∷ ys

  unfoldable pub sort : List A → List A
  unfolding insert
  sort [] = []
  sort (x ∷ xs) = insert x (sort xs)

  insert-perm : (x : A) (xs : List A) → Perm (insert x xs) (x ∷ xs)
  unfolding insert
  insert-perm x [] = Perm.refl (x ∷ [])
  insert-perm x (y ∷ ys) =
      elim (is_gt (cmp x y))
        as (λ b. Perm (if b then y ∷ insert x ys else x ∷ y ∷ ys) (x ∷ y ∷ ys)) [
          | true ↦ Perm.trans (Perm.cons y (insert-perm x ys)) (Perm.swap x y ys)
          | false ↦ Perm.refl (x ∷ y ∷ ys)
        ]

  pub sort-perm : (xs : List A) → Perm (sort xs) xs
  unfolding sort
  sort-perm [] = Perm.refl []
  sort-perm (x ∷ xs) = Perm.trans (insert-perm x (sort xs)) (Perm.cons x (sort-perm xs))

  insert-total : (f : A → ℕ) (x : A) (xs : List A) → total f (insert x xs) ≡ f x + total f xs
  unfolding insert
  insert-total f x [] = refl
  insert-total f x (y ∷ ys) = ground (arith, insert-total f x ys)

  -- A sum over a list does not depend on its order.
  pub sort-total : (f : A → ℕ) (xs : List A) → total f (sort xs) ≡ total f xs
  unfolding sort
  sort-total f [] = refl
  sort-total f (x ∷ xs) = omega (arith, insert-total f x (sort xs), sort-total f xs)

  insert-All {κ} : (P : A → Type κ) (x : A) (xs : List A) → P x → All P xs → All P (insert x xs)
  unfolding insert
  insert-All P x [] p h = (p, tt)
  insert-All P x (y ∷ ys) p (q, h) = ground (arith, insert-All P x ys p h)

  pub sort-All {κ} : (P : A → Type κ) (xs : List A) → All P xs → All P (sort xs)
  unfolding sort
  sort-All P [] h = tt
  sort-All P (x ∷ xs) (p, h) = insert-All P x (sort xs) p (sort-All P xs h)

-- Each item stands before the next by the comparator.
abbrev pub Follows {ℓ} : {A : Type ℓ} → (A → A → Ordering) → A → List A → Type 0
Follows cmp x [] = Unit
Follows cmp x (y ∷ ys) = is_gt (cmp x y) ≡ false

abbrev pub IsSorted {ℓ} : {A : Type ℓ} → (A → A → Ordering) → List A → Type 0
IsSorted cmp [] = Unit
IsSorted cmp (x ∷ xs) = Follows cmp x xs × IsSorted cmp xs

module _ {ℓ} {A : Type ℓ} (cmp : A → A → Ordering)
    (total_order : (x y : A) → is_gt (cmp x y) ≡ true → is_gt (cmp y x) ≡ false) where
  insert-Follows :
      (x y : A) (ys : List A)
      → is_gt (cmp y x) ≡ false
      → Follows cmp y ys
      → Follows cmp y (insert cmp x ys)
  unfolding insert
  insert-Follows x y [] h k = h
  insert-Follows x y (z ∷ zs) h k = ground arith

  insert-IsSorted : (x : A) (ys : List A) → IsSorted cmp ys → IsSorted cmp (insert cmp x ys)
  unfolding insert
  insert-IsSorted x [] h = (tt, tt)
  insert-IsSorted x (y ∷ ys) h =
      ground (arith, total_order x y, insert-Follows x y ys, insert-IsSorted x ys h.1)

  -- By a comparator that is never positive both ways round, neighbours come out in order.
  pub sort-IsSorted : (xs : List A) → IsSorted cmp (sort cmp xs)
  unfolding sort
  sort-IsSorted [] = tt
  sort-IsSorted (x ∷ xs) = insert-IsSorted x (sort cmp xs) (sort-IsSorted xs)
