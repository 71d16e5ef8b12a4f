-- ===== src/Panel/Expiry.antt =====
-- What a 401 does to the hooks of web/src/app/App.tsx.
use mathlib.Core.Path.{subst}
use card_scope.Base.{ℕ, ◌≡◌, refl, true, false, List, [], ◌∷◌, none, some, arith, eq_iff, sym}
use card_scope.Types.{User, Node}
use card_scope.Client.{Response, settle}
use card_scope.Session
use card_scope.Session.{Session, expired}
use card_scope.Polling
use card_scope.Polling.Silence.{IsKnown, IsStopped, step-IsKnown, run-IsKnown, signed_out-IsStopped}
use card_scope.Polling.{
  Pending, Store, user_changed, answered, receive, rearm, effect, dispose, without,
}
use card_scope.Panel.Users.{store_trace, run-traces}
use card_scope.Panel.{
  Event, start, run, nodes_answered, followed, is_asked, is_expiring, session_events, store_events,
  step,
}

-- Every request under way is of a generation so far, in a panel made of an event or more.
pub panel-IsKnown : (es : List Event) → IsKnown (run start es).store
panel-IsKnown es =
    subst IsKnown (sym (run-traces start es).1) (run-IsKnown start.store (store_trace start es) tt)

expiring :
    (r : ℕ) (response : Response (List Node)) (s : Store)
    → is_asked r s ≡ true
    → response.ok ≡ false
    → response.status ≡ 401
    → is_expiring r response s ≡ true
unfolding settle
expiring r response s asked bad unauthorized = ground (arith, eq_iff "/nodes" "/login")

followed_expired :
    (s : Session) {u : User}
    → s.user ≡ some u
    → s.active ≡ true
    → followed s expired ≡ user_changed none ∷ []
unfolding Session.step
followed_expired s user active = rw (active, user) refl

-- After any run in which somebody is signed in and has asked for the nodes, and while the session's
-- effect has not been cleaned up, a 401 to that request ends the session: nobody is signed in any
-- more and the token is gone. The polling stops for good: whatever answers to the requests under
-- way still come, in any order, no node, no time of an update and no error is on the page, the
-- timer is not set and its firing changes nothing.
pub expiry_lem :
    (es : List Event) (u : User) (r : ℕ) (response : Response (List Node)) (now : ℕ)
    → (run start es).session.user ≡ some u
    → (run start es).session.active ≡ true
    → is_asked r (run start es).store ≡ true
    → response.ok ≡ false
    → response.status ≡ 401
    → let q = step (run start es) (nodes_answered r response now) in
      (q.session.user ≡ none) × (q.session.csrf ≡ "") × IsStopped q.store
unfolding step session_events store_events Session.run Session.step Polling.run
expiry_lem es u r response now user active asked bad unauthorized =
    let p = run start es in
    let told = answered r (settle "/nodes" response).0 now in
    let after = Polling.step p.store told in
    let stopped = signed_out-IsStopped after (step-IsKnown p.store told (panel-IsKnown es)) in
    rw (expiring r response p.store asked bad unauthorized, followed_expired p.session user active)
      (ground arith, ground arith, stopped)
