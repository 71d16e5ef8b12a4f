-- ===== src/Polling/Freshness.antt =====
-- The answers that web/src/features/nodes/useNodes.ts displays: never an older one after a newer
-- one.
use card_scope.Base.{
  All-find, ℕ, ◌≤◌, ◌<◌, ◌≡◌, refl, Bool, true, false, List, [], ◌∷◌, Option, none, some, find, ◌⊎◌,
  String, nat_eq, nat_eq-eq, if_both, Bool-cases, Option-cases, inl, inr, arith,
}
use mathlib.Core.Path.{subst}
use card_scope.Types.{User, Node}
use card_scope.Client.{value, failed}
use card_scope.Polling.{
  Pending, Store, first, send, refresh, is_current, receive, rearm, dispose, effect, Event,
  user_changed, refreshed, late_refresh, answered, timer_fired, error_set, answer, step,
}
use card_scope.Polling.Pendings.{is_request}
use card_scope.Polling.Past.{IsPast, answer-passes, step-IsPast}

-- An answer that is not taken has no request under way, or a later request was sent since, or the
-- session is another one.
abbrev pub IsDropped : Option Pending → Store → Type 0
IsDropped none s = Unit
IsDropped (some p) s = (p.request < s.latest_request) ⊎ (¬ (p.session ≡ s.generation))

abbrev pub IsSame : Store → Store → Type 0
IsSame s t = (t.nodes ≡ s.nodes) × (t.updated ≡ s.updated)

-- What an event leaves on display from `s` to `t` if it displays no answer.
abbrev pub IsKept : Event → Store → Store → Type 0
IsKept (user_changed none) s t = (t.nodes ≡ []) × (t.updated ≡ 0)
IsKept (answered r (value found) now) s t = IsSame s t × IsDropped (find (is_request r) s.pending) s
IsKept e s t = IsSame s t

-- The event is the answer to request `k`, which is under way, and `t` displays it.
abbrev pub IsTaken : ℕ → Event → Store → Store → Type 0
IsTaken k e s t =
    (found : List Node) × (now : ℕ) × (p : Pending) × (e ≡ answered k (value found) now)
    × (find (is_request k) s.pending ≡ some p)
    × (t.nodes ≡ found)
    × (t.updated ≡ now)

-- From `s` on, each event leaves the data on display alone, or displays the answer to a later
-- request than `b` and all displayed before.
abbrev pub IsFresh : ℕ → Store → List Event → Type 0
IsFresh b s [] = Unit
IsFresh b s (e ∷ es) =
    (IsKept e s (step s e) × IsFresh b (step s e) es)
    ⊎ ((k : ℕ) × IsTaken k e s (step s e) × (b < k) × IsFresh k (step s e) es)

refresh-IsSame : (u : Option User) (polled : Bool) (s : Store) → IsSame s (refresh u polled s)
unfolding refresh send
refresh-IsSame none polled s = (refl, refl)
refresh-IsSame (some u) polled s = (refl, refl)

failed-IsSame :
    (p : Pending) (m : String) (now : ℕ) (s : Store) → IsSame s (answer (some p) (failed m) now s)
unfolding receive rearm
failed-IsSame p m now s = (ground arith, ground arith)

stale-IsSame :
    (p : Pending) (found : List Node) (now : ℕ) (s : Store)
    → is_current p s ≡ false
    → IsSame s (answer (some p) (value found) now s)
unfolding receive rearm
stale-IsSame p found now s stale = (ground arith, ground arith)

current-shown :
    (p : Pending) (found : List Node) (now : ℕ) (s : Store)
    → is_current p s ≡ true
    → let t = answer (some p) (value found) now s in (t.nodes ≡ found) × (t.updated ≡ now)
unfolding receive rearm
current-shown p found now s current = (ground arith, ground arith)

stale-IsDropped :
    (p : Pending) (s : Store)
    → p.request ≤ s.latest_request
    → is_current p s ≡ false
    → IsDropped (some p) s
stale-IsDropped p s le stale = elim (Bool-cases (nat_eq p.session s.generation)) [
  | inl same ↦ inl (ground (arith, same))
  | inr other ↦ inr (λ e. ground (arith, other, e))
]

-- An answer is dropped, or it is displayed and its request is past then.
answered-IsFresh :
    (b : ℕ) (s : Store) (r : ℕ) (found : List Node) (now : ℕ)
    → IsPast b s
    → let e = answered r (value found) now in
      IsKept e s (step s e) ⊎ (IsTaken r e s (step s e) × (b < r) × IsPast r (step s e))
unfolding step
answered-IsFresh b s r found now h = elim (Option-cases (find (is_request r) s.pending)) [
  | inl gone ↦ inl (rw gone ((refl, refl), tt))
  | inr (p, hit) ↦
      let ((le, ne), own) = All-find _ (is_request r) s.pending h.1 hit in
      let same : p.request ≡ r = nat_eq-eq p.request r own in
      elim (Bool-cases (is_current p s)) [
        | inr stale ↦ inl (rw hit (stale-IsSame p found now s stale, stale-IsDropped p s le stale))
        | inl current ↦
            let (nodes, updated) = current-shown p found now s current in
            let latest : p.request ≡ s.latest_request = ground arith in
            inr (
              (found, now, p, refl, hit, rw hit nodes, rw hit updated),
              omega (arith, h.0),
              rw hit (
                  subst (λ k. IsPast k (answer (some p) (value found) now s)) same
                    (answer-passes p (value found) now s b h le)),
            )
      ]
]

step-IsKept :
    (s : Store) (e : Event)
    → ((r : ℕ) (found : List Node) (now : ℕ) → ¬ (e ≡ answered r (value found) now))
    → IsKept e s (step s e)
unfolding step dispose effect send
step-IsKept s (user_changed none) h = (refl, refl)
step-IsKept s (user_changed (some u)) h = (refl, refl)
step-IsKept s refreshed h = refresh-IsSame s.user false s
step-IsKept s (late_refresh u) h = refresh-IsSame u false s
step-IsKept s (answered r (value found) now) h = absurd (h r found now refl)
step-IsKept s (answered r (failed m) now) h = elim (Option-cases (find (is_request r) s.pending)) [
  | inl gone ↦ rw gone (refl, refl)
  | inr (p, found) ↦ rw found (failed-IsSame p m now s)
]
step-IsKept s timer_fired h =
    if_both (IsSame s) s.timer _ _ (λ set. refresh-IsSame s.user true (record s { timer = false }))
      (λ unset. (refl, refl))
step-IsKept s (error_set m) h = (refl, refl)

run-IsFresh_from : (b : ℕ) (s : Store) (es : List Event) → IsPast b s → IsFresh b s es
run-IsFresh_from b s [] h = tt
run-IsFresh_from b s (answered r (value found) now ∷ es) h =
    let e = answered r (value found) now in
    elim (answered-IsFresh b s r found now h) [
      | inl kept ↦ inl (kept, run-IsFresh_from b (step s e) es (step-IsPast b s e h))
      | inr (taken, later, past) ↦ inr (r, taken, later, run-IsFresh_from r (step s e) es past)
    ]
run-IsFresh_from b s (e ∷ es) h = inl (
  step-IsKept s e (λ k found now same. cc same),
  run-IsFresh_from b (step s e) es (step-IsPast b s e h),
)

-- In whatever order the answers come, and whatever else happens, an event changes the data on display
-- only if it is the answer to a request under way that is later than all requests whose answers were
-- displayed before, or if it is a sign-out, which clears them. Conversely an answer with data is
-- dropped only if its request is not under way, a later one was sent, or the session has changed.
pub run-IsFresh : (es : List Event) → IsFresh 0 first es
run-IsFresh es = run-IsFresh_from 0 first es (omega arith, tt)
