-- ===== src/Polling/Pendings.antt =====
-- Facts about the requests under way in web/src/features/nodes/useNodes.ts.
use card_scope.Base.{
  some_inj, ap, Bool-cases, inl, inr, ℕ, ◌+◌, ◌≤◌, ◌≡◌, refl, Bool, List, [], ◌∷◌, some, All, find,
  count, indicator, nat_eq, arith,
}
use card_scope.Polling.{Pending, without}

abbrev pub is_request : ℕ → Pending → Bool
is_request r p = nat_eq p.request r

-- What is taken out is not there any more.
pub without_ne : (r : ℕ) (ps : List Pending) → All (λ p. ¬ (p.request ≡ r)) (without r ps)
without_ne r [] = tt
without_ne r (p ∷ ps) = ground (arith, without_ne r ps)

count-without_none :
    (q : Pending → Bool) (r : ℕ) (ps : List Pending)
    → count (is_request r) ps ≡ 0
    → count q (without r ps) ≡ count q ps
count-without_none q r [] h = refl
count-without_none q r (p ∷ ps) h = ground (arith, count-without_none q r ps)

-- Taking out the one request with a number takes out what `find` gives.
pub count-without :
    (q : Pending → Bool) (r : ℕ) (ps : List Pending) (p : Pending)
    → count (is_request r) ps ≤ 1
    → find (is_request r) ps ≡ some p
    → count q (without r ps) + indicator (q p) ≡ count q ps
count-without q r [] p h e = cc
count-without q r (x ∷ xs) p h e = elim (Bool-cases (is_request r x)) [
  | inl hit ↦
      let same : x ≡ p = some_inj (rw (hit, find) at e) in
      ground (arith, hit, ap q same, count-without_none q r xs)
  | inr missed ↦
      ground (arith, missed, count-without q r xs p (ground arith) (rw (missed, find) at e))
]

pub count-without-le :
    (q : Pending → Bool) (r : ℕ) (ps : List Pending) → count q (without r ps) ≤ count q ps
count-without-le q r [] = omega arith
count-without-le q r (p ∷ ps) = ground (arith, count-without-le q r ps)

pub All-both {ℓ κ μ} :
    {A : Type ℓ} (P : A → Type κ) (Q : A → Type μ) (xs : List A)
    → All P xs
    → All Q xs
    → All (λ x. P x × Q x) xs
All-both P Q [] h k = tt
All-both P Q (x ∷ xs) h k = ((h.0, k.0), All-both P Q xs h.1 k.1)
