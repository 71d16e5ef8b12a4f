-- ===== src/Polling/Liveness.antt =====
-- The polling loop of web/src/features/nodes/useNodes.ts goes on while a user is signed in.
use mathlib.Core.Path.{subst}
use card_scope.Base.{
  All-find, All-mono, All-kept, ℕ, ◌+◌, ◌≤◌, ◌≡◌, refl, sym, ap, ◌∙◌, Bool, true, false, ◌&&◌, List,
  [], ◌∷◌, Option, none, some, All, find, count, indicator, is_some, nat_eq, if_both, Bool-cases,
  Option-cases, inl, inr, arith, if◌then◌else◌,
}
use card_scope.Types.{User, Node}
use card_scope.Client.{Result, value, failed}
use card_scope.Polling.{
  Pending, Store, first, send, refresh, receive, rearm, dispose, effect, without, Event,
  user_changed, refreshed, late_refresh, answered, timer_fired, error_set, answer, step, run,
}
use card_scope.Polling.Pendings.{is_request, count-without, count-without-le}

-- The requests that the loop of a generation waits for.
abbrev is_awaited : ℕ → Pending → Bool
is_awaited g p = p.polled && nat_eq p.session g

-- Each request has a number of its own, at most the counter, and a generation so far.
abbrev IsNumbered : Store → Type 0
IsNumbered s =
    All (λ (p : Pending). (p.session ≤ s.generation) × (p.request ≤ s.latest_request)) s.pending
    × ((r : ℕ) → count (is_request r) s.pending ≤ 1)

-- What drives the loop: a request that it waits for, or its timer.
abbrev pub drivers : Store → ℕ
drivers s = count (is_awaited s.generation) s.pending + indicator s.timer

abbrev IsDriven : Store → Type 0
IsDriven s = IsNumbered s × (is_some s.user ≡ true → drivers s ≡ 1)

count_none :
    (test : Pending → Bool) (P : Pending → Type 0) (ps : List Pending)
    → ((p : Pending) → P p → test p ≡ false)
    → All P ps
    → count test ps ≡ 0
count_none test P [] h a = refl
count_none test P (p ∷ ps) h a = ground (arith, h p a.0, count_none test P ps h a.1)

send-IsNumbered : (polled : Bool) (s : Store) → IsNumbered s → IsNumbered (send polled s)
unfolding send
send-IsNumbered polled s h = (
  ((omega arith, omega arith), All-mono _ _ s.pending (λ p k. (k.0, omega (arith, k.1))) h.0),
  λ r. elim (Bool-cases (nat_eq (s.latest_request + 1) r)) [
    | inr other ↦ rw other (omega (arith, h.1 r))
    | inl new ↦
        let none_yet = count_none (is_request r) _ s.pending (λ p k. ground (arith, k.1)) h.0 in
        rw new (omega (arith, none_yet))
  ],
)

drivers-send : (polled : Bool) (s : Store) → drivers (send polled s) ≡ drivers s + indicator polled
unfolding send
drivers-send polled s = ground arith

sent_user :
    (polled : Bool) (s : Store)
    → is_some (send polled s).user ≡ true
    → (is_some s.user ≡ true → drivers s ≡ 1)
    → drivers s ≡ 1
unfolding send
sent_user polled s e h = h e

no_user : (s : Store) → none ≡ s.user → is_some s.user ≡ true → ⊥
no_user s same e = ground arith

-- A request of the page leaves the loop alone.
refresh-IsDriven : (u : Option User) (s : Store) → IsDriven s → IsDriven (refresh u false s)
unfolding refresh
refresh-IsDriven none s h = h
refresh-IsDriven (some u) s h =
    (send-IsNumbered false s h.0, λ e. omega (arith, drivers-send false s, sent_user false s e h.1))

effect-IsDriven : (u : Option User) (s : Store) → IsDriven s → IsDriven (effect u (dispose s))
unfolding effect dispose
effect-IsDriven none s h =
    ((All-mono _ _ s.pending (λ p k. (omega (arith, k.0), k.1)) h.0.0, h.0.1), λ e. cc)
effect-IsDriven (some u) s h =
    let t = record s { user = some u; generation = s.generation + 1 + 1; timer = false } in
    let numbered : IsNumbered t =
      (All-mono _ _ s.pending (λ p k. (omega (arith, k.0), k.1)) h.0.0, h.0.1) in
    let idle =
      count_none (is_awaited (s.generation + 1 + 1)) _ s.pending (λ p k. ground (arith, k.0))
        h.0.0 in
    (send-IsNumbered true t numbered, λ e. omega (arith, drivers-send true t, idle))

-- The loop goes on when its timer fires.
fire-IsDriven :
    (u : Option User) (s : Store)
    → u ≡ s.user
    → s.timer ≡ true
    → IsDriven s
    → IsDriven (refresh u true (record s { timer = false }))
unfolding refresh
fire-IsDriven none s same set h = (h.0, λ e. absurd (no_user s same e))
fire-IsDriven (some u) s same set h =
    let t = record s { timer = false } in
    (
      send-IsNumbered true t h.0,
      λ e. ground (arith, drivers-send true t, h.1 (ap is_some (sym same))),
    )

module _ (p : Pending) (s : Store) where
  -- What an answer leaves alone, and when it sets the timer.
  answered_frame :
      (r : Result (List Node)) (now : ℕ)
      → let t = rearm p (receive p r now s) in
        (t.generation ≡ s.generation)
        × (t.latest_request ≡ s.latest_request)
        × (t.pending ≡ s.pending)
        × (t.user ≡ s.user)
        × (t.timer ≡ (if is_awaited s.generation p then true else s.timer))
  unfolding receive rearm
  answered_frame (value found) now = ground arith
  answered_frame (failed m) now = ground arith

answer-IsDriven :
    (p : Pending) (result : Result (List Node)) (now : ℕ) (s : Store)
    → find (is_request p.request) s.pending ≡ some p
    → IsDriven s
    → IsDriven (answer (some p) result now s)
answer-IsDriven p result now s found h =
    let s' = record s { pending = without p.request s.pending } in
    let (generation, latest, pending, user, timer) = answered_frame p s' result now in
    let left =
      count-without (is_awaited s.generation) p.request s.pending p (h.0.1 p.request) found in
    (
      (
        rw (generation, latest, pending) (All-kept _ _ s.pending h.0.0),
        λ r.
            rw pending
              (omega (arith, h.0.1 r, count-without-le (is_request r) p.request s.pending)),
      ),
      λ e. rw (generation, pending, timer) (ground (arith, left, h.1 (sym (ap is_some user) ∙ e))),
    )

request_number : (r : ℕ) (p : Pending) → is_request r p ≡ true → r ≡ p.request
request_number r p h = ground arith

step-IsDriven : (s : Store) (e : Event) → IsDriven s → IsDriven (step s e)
unfolding step
step-IsDriven s (user_changed u) h = effect-IsDriven u s h
step-IsDriven s refreshed h = refresh-IsDriven s.user s h
step-IsDriven s (late_refresh u) h = refresh-IsDriven u s h
step-IsDriven s (answered r result now) h = elim (Option-cases (find (is_request r) s.pending)) [
  | inl gone ↦ rw gone h
  | inr (p, found) ↦
      let hit = (All-find _ (is_request r) s.pending h.0.0 found).1 in
      let found' =
        subst (λ k. find (is_request k) s.pending ≡ some p) (request_number r p hit) found in
      rw found (answer-IsDriven p result now s found' h)
]
step-IsDriven s timer_fired h =
    if_both IsDriven s.timer _ _ (λ set. fire-IsDriven s.user s refl set h) (λ unset. h)
step-IsDriven s (error_set m) h = h

run-IsDriven : (s : Store) (es : List Event) → IsDriven s → IsDriven (run s es)
unfolding run
run-IsDriven s [] h = h
run-IsDriven s (e ∷ es) h = run-IsDriven (step s e) es (step-IsDriven s e h)

-- While a user is signed in the polling goes on: whatever happened, errors included, the loop of
-- the present session either waits for exactly one request or has its timer set, and never both.
pub polling_alive :
    (es : List Event) → is_some (run first es).user ≡ true → drivers (run first es) ≡ 1
polling_alive es e = (run-IsDriven first es ((tt, λ r. omega arith), λ h. cc)).1 e
