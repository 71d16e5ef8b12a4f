-- ===== src/Polling/Expiry.antt =====
-- A rejected answer and the sign-out that it causes, in web/src/features/nodes/useNodes.ts.
use card_scope.Base.{
  All-find, ℕ, ◌≤◌, ◌≡◌, refl, List, Option, none, some, String, All, find, arith,
}
use card_scope.Client.{failed}
use card_scope.Polling.{
  Pending, Store, first, Event, user_changed, answered, receive, rearm, effect, dispose, answer,
  step, run,
}
use card_scope.Polling.Pendings.{is_request}
use card_scope.Polling.SignedOut.{IsPunctual, past_sessions}

-- The sign-out after the answer and before it, where the request is of the present generation or of
-- an earlier one.
answer_commutes :
    (s : Store) (m : String) (now : ℕ) (o : Option Pending)
    → ((p : Pending) → o ≡ some p → p.session ≤ s.generation)
    → effect none (dispose (answer o (failed m) now s))
      ≡ answer o (failed m) now (effect none (dispose s))
unfolding effect dispose receive rearm
answer_commutes s m now none past = refl
answer_commutes s m now (some p) past = ground (arith, past p refl)

-- It makes no difference whether the rejection of an answer reaches the `catch` of `refresh` before
-- the effect of the sign-out runs or after it, in any state that a run leads to without a late call.
pub expiry_orders :
    (es : List Event) (r : ℕ) (m : String) (now : ℕ)
    → All IsPunctual es
    → let s = run first es in
      step (step s (answered r (failed m) now)) (user_changed none)
      ≡ step (step s (user_changed none)) (answered r (failed m) now)
unfolding step effect run dispose
expiry_orders es r m now h =
    answer_commutes (run first es) m now (find (is_request r) (run first es).pending)
      (λ p found. (All-find _ (is_request r) _ (past_sessions es h) found).0)
