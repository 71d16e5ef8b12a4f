-- ===== src/Polling/SignedOut.antt =====
-- After a sign-out web/src/features/nodes/useNodes.ts shows nothing.
use card_scope.Base.{
  if_both, All-find, All-mono, All-kept, ℕ, ◌≤◌, ◌<◌, ◌≡◌, refl, sym, ◌∙◌, Bool, true, false, List,
  [], ◌∷◌, Option, none, some, All, find, Option-cases, inl, inr, arith,
}
use card_scope.Types.{User, Node}
use card_scope.Client.{Result, value, failed}
use card_scope.Polling.{
  Pending, Store, first, send, refresh, receive, rearm, dispose, effect, without, Event,
  user_changed, refreshed, late_refresh, answered, timer_fired, error_set, answer, step, run,
}
use card_scope.Polling.Pendings.{is_request}

-- No closure of an earlier render calls `refresh` after its user is gone.
abbrev pub IsPunctual : Event → Type 0
IsPunctual (late_refresh u) = u ≡ none
IsPunctual _ = Unit

-- Every request belongs to a generation so far, and, while nobody is signed in, to an earlier one.
abbrev pub IsCleared : Store → Type 0
IsCleared s =
    All (λ (p : Pending). p.session ≤ s.generation) s.pending
    × (s.user ≡ none
        → (s.nodes ≡ [])
          × (s.updated ≡ 0)
          × All (λ (p : Pending). p.session < s.generation) s.pending
          × (s.timer ≡ false))

refresh-IsCleared :
    (u : Option User) (polled : Bool) (s : Store)
    → u ≡ s.user
    → IsCleared s
    → IsCleared (refresh u polled s)
unfolding refresh send
refresh-IsCleared none polled s same h = h
refresh-IsCleared (some u) polled s same h = ((omega arith, h.0), λ e. cc)

effect-IsCleared : (u : Option User) (s : Store) → IsCleared s → IsCleared (effect u (dispose s))
unfolding effect dispose send
effect-IsCleared none s h = (
  All-mono _ _ s.pending (λ p k. omega (arith, k)) h.0,
  λ e. (refl, refl, All-mono _ _ s.pending (λ p k. omega (arith, k)) h.0, refl),
)
effect-IsCleared (some u) s h =
    ((omega arith, All-mono _ _ s.pending (λ p k. omega (arith, k)) h.0), λ e. cc)

-- What an answer leaves alone, and what one that is not current leaves alone besides.
module _ (p : Pending) (result : Result (List Node)) (now : ℕ) (s : Store) where
  abbrev pub settled : Store
  settled = rearm p (receive p result now s)

  pub settled_frame :
      (settled.generation ≡ s.generation) × (settled.pending ≡ s.pending) × (settled.user ≡ s.user)
  unfolding receive rearm
  settled_frame = frame result
    where
      frame :
          (r : Result (List Node))
          → let t = rearm p (receive p r now s) in
            (t.generation ≡ s.generation) × (t.pending ≡ s.pending) × (t.user ≡ s.user)
      frame (value found) = ground arith
      frame (failed m) = ground arith

  settled_stale :
      p.session < s.generation
      → (settled.nodes ≡ s.nodes) × (settled.updated ≡ s.updated) × (settled.timer ≡ s.timer)
  unfolding receive rearm
  settled_stale old = stale result
    where
      stale :
          (r : Result (List Node))
          → let t = rearm p (receive p r now s) in
            (t.nodes ≡ s.nodes) × (t.updated ≡ s.updated) × (t.timer ≡ s.timer)
      stale (value found) = ground arith
      stale (failed m) = ground arith

pub answered_user :
    (r : ℕ) (result : Result (List Node)) (now : ℕ) (s : Store)
    → (step s (answered r result now)).user ≡ s.user
unfolding step
answered_user r result now s = elim (Option-cases (find (is_request r) s.pending)) [
  | inl gone ↦ rw gone refl
  | inr (p, found) ↦ rw found (settled_frame p result now (record s { pending = _ })).2
]

answer-IsCleared :
    (p : Pending) (result : Result (List Node)) (now : ℕ) (s : Store)
    → (s.user ≡ none → p.session < s.generation)
    → IsCleared s
    → IsCleared (answer (some p) result now s)
answer-IsCleared p result now s old h =
    let s' = record s { pending = without p.request s.pending } in
    let (generation, pending, user) = settled_frame p result now s' in
    (
      rw (generation, pending) (All-kept _ _ s.pending h.0),
      λ e.
          let e' : s.user ≡ none = sym user ∙ e in
          let (nodes, updated, timer) = settled_stale p result now s' (old e') in
          let (empty, never, past, unset) = h.1 e' in
          (
            nodes ∙ empty,
            updated ∙ never,
            rw (generation, pending) (All-kept _ _ s.pending past),
            timer ∙ unset,
          ),
    )

refresh-none-IsCleared : (s : Store) → IsCleared s → IsCleared (refresh none false s)
unfolding refresh
refresh-none-IsCleared s h = h

step-IsCleared : (s : Store) (e : Event) → IsPunctual e → IsCleared s → IsCleared (step s e)
unfolding step
step-IsCleared s (user_changed u) p h = effect-IsCleared u s h
step-IsCleared s refreshed p h = refresh-IsCleared s.user false s refl h
step-IsCleared s (late_refresh none) p h = refresh-none-IsCleared s h
step-IsCleared s (late_refresh (some u)) p h = cc
step-IsCleared s (answered r result now) p h = elim (Option-cases (find (is_request r) s.pending)) [
  | inl gone ↦ rw gone h
  | inr (q, found) ↦ rw found (
      answer-IsCleared q result now s (λ e. (All-find _ (is_request r) s.pending (h.1 e).2 found).0)
        h)
]
step-IsCleared s timer_fired p h =
    if_both IsCleared s.timer _ _
      (λ set.
        refresh-IsCleared s.user true (record s { timer = false }) refl
          (h.0, λ e. let (empty, never, past, _) = h.1 e in (empty, never, past, refl)))
      (λ unset. h)
step-IsCleared s (error_set m) p h = h

pub run-IsCleared :
    (s : Store) (es : List Event) → All IsPunctual es → IsCleared s → IsCleared (run s es)
unfolding run
run-IsCleared s [] p h = h
run-IsCleared s (e ∷ es) p h = run-IsCleared (step s e) es p.1 (step-IsCleared s e p.0 h)

pub first-IsCleared : IsCleared first
first-IsCleared = (tt, λ _. (refl, refl, tt, refl))

-- While nobody is signed in, no node is shown and no time of an update, whatever answers to
-- earlier requests still come in, if no closure of an earlier render calls `refresh` late.
pub signed_out_blank :
    (es : List Event)
    → All IsPunctual es
    → (run first es).user ≡ none
    → ((run first es).nodes ≡ []) × ((run first es).updated ≡ 0)
signed_out_blank es p e =
    let (empty, never, _, _) = (run-IsCleared first es p first-IsCleared).1 e in (empty, never)

-- No request is of a later generation than the present one.
pub past_sessions :
    (es : List Event)
    → All IsPunctual es
    → All (λ (p : Pending). p.session ≤ (run first es).generation) (run first es).pending
past_sessions es p = (run-IsCleared first es p first-IsCleared).0
