-- ===== src/Polling/Past.antt =====
-- Which requests of web/src/features/nodes/useNodes.ts are past: their answers are displayed no more.
use card_scope.Base.{
  All-mono, All-kept, ℕ, ◌+◌, ◌≤◌, ◌≡◌, Bool, true, false, List, Option, none, some, All, find,
  Bool-cases, Option-cases, inl, inr, arith,
}
use card_scope.Types.{User, Node}
use card_scope.Client.{Result, value, failed}
use card_scope.Polling.{
  Pending, Store, send, refresh, receive, rearm, dispose, effect, without, Event, user_changed,
  refreshed, late_refresh, answered, timer_fired, error_set, answer, step,
}
use card_scope.Polling.Pendings.{All-both, is_request, without_ne}

-- No request up to `b` can be taken any more.
abbrev pub IsPast : ℕ → Store → Type 0
IsPast b s =
    (b ≤ s.latest_request)
    × All (λ (p : Pending). (p.request ≤ s.latest_request) × (¬ (p.request ≡ b))) s.pending

send-IsPast : (b : ℕ) (polled : Bool) (s : Store) → IsPast b s → IsPast b (send polled s)
unfolding send
send-IsPast b polled s h = (
  omega (arith, h.0),
  (
    (omega arith, omega (arith, h.0)),
    All-mono _ _ s.pending (λ p k. (omega (arith, k.0), k.1)) h.1,
  ),
)

refresh-IsPast :
    (b : ℕ) (u : Option User) (polled : Bool) (s : Store)
    → IsPast b s
    → IsPast b (refresh u polled s)
unfolding refresh
refresh-IsPast b none polled s h = h
refresh-IsPast b (some u) polled s h = send-IsPast b polled s h

-- Neither the data nor the timer has to do with the requests.
settled_counters :
    (p : Pending) (r : Result (List Node)) (now : ℕ) (s : Store)
    → ((rearm p (receive p r now s)).latest_request ≡ s.latest_request)
      × ((rearm p (receive p r now s)).pending ≡ s.pending)
unfolding rearm receive
settled_counters p (value found) now s = ground arith
settled_counters p (failed m) now s = ground arith

module _ (p : Pending) (result : Result (List Node)) (now : ℕ) (s : Store) where
  answer-keeps : (b : ℕ) → IsPast b s → IsPast b (answer (some p) result now s)
  answer-keeps b h =
      let s' = record s { pending = without p.request s.pending } in
      let (same, left) = settled_counters p result now s' in
      (
        rw same h.0,
        rw (same, left)
            (All-kept (λ (q : Pending). (q.request ≤ s.latest_request) × (¬ (q.request ≡ b))) _
              s.pending h.1),
      )

  -- Once an answer is taken, its request is past.
  pub answer-passes :
      (b : ℕ)
      → IsPast b s
      → p.request ≤ s.latest_request
      → IsPast p.request (answer (some p) result now s)
  answer-passes b h le =
      let s' = record s { pending = without p.request s.pending } in
      let (same, left) = settled_counters p result now s' in
      (
        rw same le,
        rw (same, left)
            (All-both _ _ (without p.request s.pending)
              (All-kept (λ (q : Pending). q.request ≤ s.latest_request) _ s.pending
                (All-mono _ _ s.pending (λ q k. k.0) h.1))
              (without_ne p.request s.pending)),
      )

pub step-IsPast : (b : ℕ) (s : Store) (e : Event) → IsPast b s → IsPast b (step s e)
unfolding step dispose effect
step-IsPast b s (user_changed none) h = h
step-IsPast b s (user_changed (some u)) h =
    send-IsPast b true
      (record s { user = some u; generation = s.generation + 1 + 1; timer = false }) h
step-IsPast b s refreshed h = refresh-IsPast b s.user false s h
step-IsPast b s (late_refresh u) h = refresh-IsPast b u false s h
step-IsPast b s (answered r result now) h = elim (Option-cases (find (is_request r) s.pending)) [
  | inl gone ↦ rw gone h
  | inr (p, found) ↦ rw found (answer-keeps p result now s b h)
]
step-IsPast b s timer_fired h = elim (Bool-cases s.timer) [
  | inl set ↦ rw set (refresh-IsPast b s.user true (record s { timer = false }) h)
  | inr unset ↦ rw unset h
]
step-IsPast b s (error_set m) h = h
