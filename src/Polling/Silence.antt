-- ===== src/Polling/Silence.antt =====
-- What a sign-out stops in web/src/features/nodes/useNodes.ts, whatever was under way.
use card_scope.Base.{
  if_both, All-find, All-mono, All-kept, ℕ, ◌≤◌, ◌<◌, ◌≡◌, refl, ◌∙◌, Bool, true, false, List, [],
  ◌∷◌, Option, none, some, All, find, Option-cases, inl, inr, arith,
}
use card_scope.Types.{User, Node}
use card_scope.Client.{Result, value, failed}
use card_scope.Polling.{
  Pending, Store, send, refresh, receive, rearm, dispose, effect, without, Event, user_changed,
  refreshed, late_refresh, answered, timer_fired, error_set, answer, step, run,
}
use card_scope.Polling.Pendings.{is_request}
use card_scope.Polling.SignedOut.{settled_frame}
use card_scope.Polling.Stops.{Answer, coming}

-- Every request under way belongs to a generation so far.
abbrev pub IsKnown : Store → Type 0
IsKnown s = All (λ (p : Pending). p.session ≤ s.generation) s.pending

refresh-IsKnown :
    (u : Option User) (polled : Bool) (s : Store) → IsKnown s → IsKnown (refresh u polled s)
unfolding refresh send
refresh-IsKnown none polled s h = h
refresh-IsKnown (some u) polled s h = (omega arith, h)

effect-IsKnown : (u : Option User) (s : Store) → IsKnown s → IsKnown (effect u (dispose s))
unfolding effect dispose send
effect-IsKnown none s h = All-mono _ _ s.pending (λ p k. omega (arith, k)) h
effect-IsKnown (some u) s h = (omega arith, All-mono _ _ s.pending (λ p k. omega (arith, k)) h)

answer-IsKnown :
    (p : Pending) (result : Result (List Node)) (now : ℕ) (s : Store)
    → IsKnown s
    → IsKnown (answer (some p) result now s)
answer-IsKnown p result now s h =
    let s' = record s { pending = without p.request s.pending } in
    let (generation, pending, _) = settled_frame p result now s' in
    rw (generation, pending) (All-kept _ _ s.pending h)

pub step-IsKnown : (s : Store) (e : Event) → IsKnown s → IsKnown (step s e)
unfolding step
step-IsKnown s (user_changed u) h = effect-IsKnown u s h
step-IsKnown s refreshed h = refresh-IsKnown s.user false s h
step-IsKnown s (late_refresh u) h = refresh-IsKnown u false s h
step-IsKnown s (answered r result now) h = elim (Option-cases (find (is_request r) s.pending)) [
  | inl gone ↦ rw gone h
  | inr (p, found) ↦ rw found (answer-IsKnown p result now s h)
]
step-IsKnown s timer_fired h =
    if_both IsKnown s.timer _ _ (λ set. refresh-IsKnown s.user true (record s { timer = false }) h)
      (λ unset. h)
step-IsKnown s (error_set m) h = h

pub run-IsKnown : (s : Store) (es : List Event) → IsKnown s → IsKnown (run s es)
unfolding run
run-IsKnown s [] h = h
run-IsKnown s (e ∷ es) h = run-IsKnown (step s e) es (step-IsKnown s e h)

-- Nothing is on display, the timer is not set, and the requests under way are of earlier
-- generations.
abbrev IsSilent : Store → Type 0
IsSilent t =
    (t.nodes ≡ [])
    × (t.updated ≡ 0)
    × (t.error ≡ "")
    × (t.timer ≡ false)
    × All (λ (p : Pending). p.session < t.generation) t.pending

old_answer :
    (p : Pending) (result : Result (List Node)) (now : ℕ) (s : Store)
    → p.session < s.generation
    → let t = rearm p (receive p result now s) in
      (t.nodes ≡ s.nodes) × (t.updated ≡ s.updated) × (t.error ≡ s.error) × (t.timer ≡ s.timer)
unfolding receive rearm
old_answer p (value found) now s old = ground arith
old_answer p (failed m) now s old = ground arith

answer-IsSilent :
    (p : Pending) (result : Result (List Node)) (now : ℕ) (t : Store)
    → p.session < t.generation
    → IsSilent t
    → IsSilent (answer (some p) result now t)
answer-IsSilent p result now t old (empty, never, quiet, unset, past) =
    let t' = record t { pending = without p.request t.pending } in
    let (generation, pending, _) = settled_frame p result now t' in
    let (nodes, updated, error, timer) = old_answer p result now t' old in
    (
      nodes ∙ empty,
      updated ∙ never,
      error ∙ quiet,
      timer ∙ unset,
      rw (generation, pending) (All-kept _ _ t.pending past),
    )

answered-IsSilent :
    (t : Store) (r : ℕ) (result : Result (List Node)) (now : ℕ)
    → IsSilent t
    → IsSilent (step t (answered r result now))
unfolding step
answered-IsSilent t r result now h = elim (Option-cases (find (is_request r) t.pending)) [
  | inl gone ↦ rw gone h
  | inr (p, found) ↦
      rw found (answer-IsSilent p result now t (All-find _ (is_request r) t.pending h.4 found).0 h)
]

coming-IsSilent :
    (t : Store) (answers : List Answer) → IsSilent t → IsSilent (run t (coming answers))
unfolding run
coming-IsSilent t [] h = h
coming-IsSilent t (a ∷ answers) h =
    coming-IsSilent (step t (answered a.request a.result a.now)) answers
      (answered-IsSilent t a.request a.result a.now h)

-- Whatever answers to the requests under way still come, in any order: nothing is displayed, no
-- error either, the timer is not set, and a timer changes nothing.
abbrev pub IsStopped : Store → Type 0
IsStopped t =
    (answers : List Answer)
    → let w = run t (coming answers) in
      (w.nodes ≡ [])
      × (w.updated ≡ 0)
      × (w.error ≡ "")
      × (w.timer ≡ false)
      × (step w timer_fired ≡ w)

unset_timer : (w : Store) → w.timer ≡ false → step w timer_fired ≡ w
unfolding step
unset_timer w unset = rw unset refl

-- The effect of a sign-out stops the polling for good, whatever was under way.
pub signed_out-IsStopped : (s : Store) → IsKnown s → IsStopped (step s (user_changed none))
unfolding step effect dispose
signed_out-IsStopped s known answers =
    let t = step s (user_changed none) in
    let past = All-mono _ _ s.pending (λ p k. omega (arith, k)) known in
    let (empty, never, quiet, unset, _) =
      coming-IsSilent t answers (refl, refl, refl, refl, past) in
    (empty, never, quiet, unset, unset_timer (run t (coming answers)) unset)
