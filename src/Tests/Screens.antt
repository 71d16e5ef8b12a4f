-- ===== src/Tests/Screens.antt =====
-- The whole page: the screen and the theme.
use card_scope.Base.{◌++◌, Option, String, lookup, none, false, ◌≡◌, refl, true, List, [], ◌∷◌}
use card_scope.Types.{User, Node, viewer}
use card_scope.Summary.{summarize}
use card_scope.View.{interrupted, stale, headline}
use card_scope.Client.{Response, value, request, settle}
use card_scope.Session
use card_scope.Panel
use card_scope.Shell
use card_scope.Shell.{dialog, enrollment}
use card_scope.Polling
use card_scope.App.{
  first, Event, panel_event, frame_event, sign_out_clicked, sign_out_answered, shown, settings,
  content, screen, step, run,
}
use card_scope.App.Screens.{handed_over, code_handed_over}
use card_scope.App.Parts.{IsMade, panel_trace, frame_trace, whole_lem}
use card_scope.Panel.Requests.{header_of}
use card_scope.App.SignOut.{IsAfter, sign_out_lem}
use card_scope.App.Errors.{all_ask, rejection_lem}
use card_scope.Tests.Data.{ann, cluster, by_length}

abbrev bob : User
bob = record { username = "bob"; role = viewer; csrf = "t2" }

-- An administrator adds a node on the settings' page.
abbrev adding : List Event
adding =
    panel_event (Panel.session_event (Session.me (value ann)))
    ∷ frame_event (Shell.page_opened "settings")
    ∷ frame_event Shell.add_clicked
    ∷ frame_event Shell.submitted
    ∷ frame_event (Shell.created (value "k7"))
    ∷ []

whole : Unit {0}
unfolding run step screen content Panel.step Panel.run Panel.session_events Panel.store_events
    Session.run Session.step Shell.step Shell.perform dialog Polling.run Polling.step Polling.effect
    Polling.dispose Polling.send Polling.refresh Polling.receive Polling.rearm settle
whole = tt

adding_test :
    ((run first adding).panel.session.ready ≡ true)
    × (dialog (run first adding).frame ≡ enrollment "k7")
    × (screen (run first adding) ≡ shown ann settings (enrollment "k7"))
unfolding whole
adding_test = (refl, refl, refl)

code_handed_over_example :
    screen (run (run first adding) (handed_over bob))
    ≡ shown bob (content (run first adding).frame.page viewer) (enrollment "k7")
code_handed_over_example = code_handed_over (run first adding) "k7" bob adding_test.0 adding_test.1

abbrev answer : Response (List Node)
answer = record { ok = true; status = 200; content = cluster; error = "" }

-- The nodes are shown, a task is under way, and the page has asked for the nodes again.
abbrev at_work : List Event
at_work =
    panel_event (Panel.session_event (Session.me (value ann)))
    ∷ panel_event (Panel.nodes_answered 1 answer 50)
    ∷ frame_event Shell.task_started
    ∷ panel_event (Panel.page_event Polling.refreshed)
    ∷ []

-- The task is rejected; then the page asks for the nodes, and the timer fires.
rejection_lem_example :
    let a = run first at_work in
    let s = a.panel.store in
    let t =
      (run
        (step a (frame_event (Shell.task_ended (Shell.rejected "400"))))
        (all_ask (false ∷ true ∷ []))).panel.store in
    (t.error ≡ "400")
    × (t.nodes ≡ s.nodes)
    × (t.updated ≡ s.updated)
    × (headline t.updated (stale 60 t.updated t.error) t.nodes (summarize by_length t.nodes)
        ≡ interrupted)
unfolding whole
rejection_lem_example =
    rejection_lem by_length (run first at_work) "400" (false ∷ true ∷ []) 60 (λ e. cc e) refl
      (λ e. cc e)

-- A click on the button that signs out, and an answer that is none.
abbrev leaving_now : List Event
leaving_now =
    panel_event (Panel.session_event (Session.me (value ann)))
    ∷ panel_event (Panel.nodes_answered 1 answer 50)
    ∷ sign_out_clicked
    ∷ []

abbrev refused : Response (Unit {0})
refused = record { ok = false; status = 503; content = tt; error = "busy" }

sign_out_lem_example :
    IsAfter
      (settle "/logout" refused)
      (run first leaving_now)
      (step (run first leaving_now) (sign_out_answered refused))
unfolding whole
sign_out_lem_example = sign_out_lem leaving_now ann refused refl refl refl

-- An answer 401 to it.
expired_test :
    (step
      (run first leaving_now)
      (sign_out_answered (record refused { status = 401 }))).panel.session.user
    ≡ none
unfolding whole
expired_test = refl

abbrev no_text : Option String
no_text = none

whole_lem_example :
    let b = run first (leaving_now ++ sign_out_answered refused ∷ []) in
    IsMade first
      (panel_trace first (leaving_now ++ sign_out_answered refused ∷ []))
      (frame_trace first (leaving_now ++ sign_out_answered refused ∷ []))
      b
    × (b.panel.store.user ≡ b.panel.session.user)
    × (lookup "X-CSRF-Token" (request b.panel.session.csrf "/me" "GET" no_text).headers
        ≡ header_of b.panel.session.user)
whole_lem_example = whole_lem (leaving_now ++ sign_out_answered refused ∷ []) "/me" "GET" no_text
