-- ===== src/App/SignOut.antt =====
-- The button in web/src/app/App.tsx that signs out: `signOut` of useSession.ts as a task of
-- `perform`.
use mathlib.Core.Path.{subst}
use card_scope.Base.{◌≡◌, refl, Bool, true, false, List, none, some, sym, is_some}
use card_scope.Types.{User}
use card_scope.Client.{Response, Result, value, failed, settle}
use card_scope.Session
use card_scope.Polling
use card_scope.Polling.{effect, dispose}
use card_scope.Polling.Silence.{IsKnown, IsStopped, signed_out-IsStopped}
use card_scope.Panel
use card_scope.Panel.Expiry.{panel-IsKnown}
use card_scope.App.Parts.{panel_trace, run-IsMade}
use card_scope.Shell.{other, take_out}
use card_scope.App.{App, Event, first, run, sign_out_answered, on_sign_out, step}

-- Nobody is signed in, and the polling has stopped for good.
abbrev pub IsOut : App → Type 0
IsOut b = (b.panel.session.user ≡ none) × (b.panel.session.csrf ≡ "") × IsStopped b.panel.store

-- What an answer makes of the app.
abbrev pub IsAfter : Result (Unit {0}) × Bool → App → App → Type 0
IsAfter (value _, expiring) a b = IsOut b
IsAfter (failed message, true) a b = IsOut b
IsAfter (failed message, false) a b =
    (b.panel.session ≡ a.panel.session) × (b.panel.store ≡ record a.panel.store { error = message })

-- Every request under way is of a generation so far, after any run of the app.
app-IsKnown : (es : List Event) → IsKnown (run first es).panel.store
app-IsKnown es =
    subst (λ (p : Panel.Panel). IsKnown p.store) (sym (run-IsMade first es).0)
      (panel-IsKnown (panel_trace first es))

on_sign_out-IsAfter :
    (a : App) (u : User) (r : Result (Unit {0}) × Bool)
    → IsKnown a.panel.store
    → a.panel.session.user ≡ some u
    → a.panel.session.active ≡ true
    → is_some (take_out other a.frame.tasks) ≡ true
    → IsAfter r a (on_sign_out r a)
unfolding Panel.run Panel.step Panel.session_events Panel.store_events Session.run Session.step
    Polling.run
on_sign_out-IsAfter a u (value _, true) known user active running =
    rw (user, active) (refl, refl, signed_out-IsStopped a.panel.store known)
on_sign_out-IsAfter a u (value _, false) known user active running =
    rw user (refl, refl, signed_out-IsStopped a.panel.store known)
on_sign_out-IsAfter a u (failed m, true) known user active running =
    let s = record a.panel.store { error = m } in
    rw (running, user, active) (refl, refl, unfold Polling.step in signed_out-IsStopped s known)
on_sign_out-IsAfter a u (failed m, false) known user active running =
    rw running (refl, unfold Polling.step in refl)

-- After any run in which somebody is signed in and a task is under way, and while the session's
-- effect has not been cleaned up, an answer to a sign-out ends the session if it is a success or a
-- 401: nobody is signed in then and the token is gone. The polling stops for good: whatever answers
-- to the requests for the nodes that are under way still come, in any order, no node, no time of an
-- update and no error is on the page, the timer is not set and its firing changes nothing. On any
-- other answer the session and the nodes stay as they were, and the error is the answer's.
pub sign_out_lem :
    (es : List Event) (u : User) (response : Response (Unit {0}))
    → (run first es).panel.session.user ≡ some u
    → (run first es).panel.session.active ≡ true
    → is_some (take_out other (run first es).frame.tasks) ≡ true
    → IsAfter
        (settle "/logout" response)
        (run first es)
        (step (run first es) (sign_out_answered response))
unfolding step
sign_out_lem es u response user active running = rw running (
    on_sign_out-IsAfter (run first es) u (settle "/logout" response) (app-IsKnown es) user active
      running)
