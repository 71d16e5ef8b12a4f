-- ===== src/Shell/Forms.antt =====
-- The page of web/src/app/App.tsx while its only tasks are those of one form.
use mathlib.Core.Path.{subst}
use card_scope.Base.{ℕ, ◌+◌, ◌-◌, ◌≡◌, ◌⊎◌, refl, true, false, [], ◌∷◌, inl, inr, arith, is_zero}
use card_scope.Shell.{
  Frame, other, Ending, well, rejected, handled, task_started, task_ended, step, perform,
}

-- The page runs the form's task, and no other one, or none.
abbrev pub IsOne : Frame → ℕ → Type 0
IsOne f k =
    ((f.pending ≡ false) × (f.tasks ≡ []) × (k ≡ 0))
    ⊎ ((f.pending ≡ true) × (f.tasks ≡ other ∷ []) × (k ≡ 1))

pub started :
    (f : Frame) (k : ℕ) → IsOne f k → f.pending ≡ false → IsOne (step f task_started) (k + 1)
unfolding step perform
started f k (inl (free, empty, zero)) idle = inr (refl, rw empty refl, omega (arith, zero))
started f k (inr (busy, one, _)) idle = absurd (cc (busy, idle))

pub ended :
    (m : Ending) (f : Frame) (k : ℕ)
    → IsOne f k
    → is_zero k ≡ false
    → IsOne (step f (task_ended m)) (k - 1)
unfolding step
ended m f k (inl (free, empty, zero)) some_way = absurd (ground (arith, zero))
ended well f k (inr (busy, one, same)) some_way = rw one (inl (refl, refl, omega (arith, same)))
ended (rejected m) f k (inr (busy, one, same)) some_way =
    rw one (inl (refl, refl, omega (arith, same)))
ended (handled m) f k (inr (busy, one, same)) some_way =
    rw one (inl (refl, refl, omega (arith, same)))

pub same_count : (f : Frame) (j k : ℕ) → j ≡ k → IsOne f j → IsOne f k
same_count f j k e h = subst (IsOne f) e h
