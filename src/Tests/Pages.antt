-- ===== src/Tests/Pages.antt =====
-- The session and the nodes of one page together.
use card_scope.Base.{◌≡◌, refl, true, false, List, [], ◌∷◌, Option, none}
use card_scope.Types.{Node}
use card_scope.Client.{Response, settle}
use card_scope.Session
use card_scope.Polling
use card_scope.Panel.{
  start, Event, session_event, page_event, nodes_answered, session_events, store_events, step, run,
}
use card_scope.Panel.Users.{run-blank}
use card_scope.Panel.Expiry.{expiry_lem}
use card_scope.Polling.Silence.{IsStopped}
use card_scope.Tests.Data.{ann, cluster}

abbrev unauthorized : Response (List Node)
unauthorized = record { ok = false; status = 401; content = []; error = "" }

abbrev good : Response (List Node)
good = record { ok = true; status = 200; content = cluster; error = "" }

-- Somebody signs in and is shown the nodes; then the session is over.
abbrev entered : List Event
entered =
    session_event (Session.signed_in ann)
    ∷ nodes_answered 1 good 40
    ∷ page_event Polling.timer_fired
    ∷ []

abbrev left : List Event
left =
    session_event (Session.signed_in ann)
    ∷ nodes_answered 1 good 40
    ∷ page_event Polling.timer_fired
    ∷ nodes_answered 2 unauthorized 50
    ∷ []

panel : Unit {0}
unfolding step run session_events store_events settle Session.run Session.step Polling.run
    Polling.step Polling.send Polling.refresh Polling.receive Polling.rearm Polling.dispose
    Polling.effect
panel = tt

entered_test :
    ((run start entered).store.nodes ≡ cluster) × ((run start entered).store.updated ≡ 40)
unfolding panel
entered_test = (refl, refl)

left_test : (run start left).session.user ≡ none
unfolding panel
left_test = refl

run-blank_example :
    ((run start left).store.nodes ≡ [])
    × ((run start left).store.updated ≡ 0)
    × ((run start left).session.csrf ≡ "")
run-blank_example = run-blank left (tt, (tt, (tt, (tt, tt)))) left_test

expiry_lem_example :
    let q = step (run start entered) (nodes_answered 2 unauthorized 50) in
    (q.session.user ≡ none) × (q.session.csrf ≡ "") × IsStopped q.store
unfolding panel
expiry_lem_example = expiry_lem entered ann 2 unauthorized 50 refl refl refl refl refl

abbrev no_body : Option (Unit {0})
no_body = none
