-- ===== src/App/Parts.antt =====
-- The whole of web/src/app/App.tsx keeps what its parts promise: each run of it is one of the panel
-- and one of the frame.
use card_scope.Base.{
  ◌≡◌, refl, sym, ap, ◌∙◌, Bool, List, [], ◌∷◌, ◌++◌, Option, String, lookup, is_some, Bool-cases,
  inl, inr, if◌then◌else◌,
}
use card_scope.Client.{Result, request, settle}
use card_scope.Panel
use card_scope.Panel.Users.{run_agrees}
use card_scope.Panel.Requests.{header_of, request-user}
use card_scope.Shell
use card_scope.Shell.{other, take_out, task_started, task_ended}
use card_scope.App.{
  App, first, Event, panel_event, frame_event, sign_out_clicked, sign_out_answered, on_page,
  ending_of, leaving, step, run,
}

abbrev pub is_leaving : App → Bool
is_leaving a = is_some (take_out other a.frame.tasks)

abbrev pub left_panel : App → Result (Unit {0}) × Bool → List Panel.Event
left_panel a (r, expiring) = on_page a.frame (task_ended (ending_of r)) ++ leaving r expiring

abbrev pub left_frame : Result (Unit {0}) × Bool → List Shell.Event
left_frame (r, expiring) = task_ended (ending_of r) ∷ []

-- The events of the panel, and those of the frame, that an event of the page is made of.
abbrev pub panel_events : App → Event → List Panel.Event
panel_events a (panel_event e) = e ∷ []
panel_events a (frame_event e) = on_page a.frame e ++ []
panel_events a sign_out_clicked = []
panel_events a (sign_out_answered r) =
    if is_leaving a then left_panel a (settle "/logout" r) else []

abbrev pub frame_events : App → Event → List Shell.Event
frame_events a (panel_event e) = []
frame_events a (frame_event e) = e ∷ []
frame_events a sign_out_clicked = task_started ∷ []
frame_events a (sign_out_answered r) = if is_leaving a then left_frame (settle "/logout" r) else []

abbrev pub panel_trace : App → List Event → List Panel.Event
panel_trace a [] = []
panel_trace a (e ∷ es) = panel_events a e ++ panel_trace (step a e) es

abbrev pub frame_trace : App → List Event → List Shell.Event
frame_trace a [] = []
frame_trace a (e ∷ es) = frame_events a e ++ frame_trace (step a e) es

abbrev pub IsMade : App → List Panel.Event → List Shell.Event → App → Type 0
IsMade a ps fs b = (b.panel ≡ Panel.run a.panel ps) × (b.frame ≡ Shell.run a.frame fs)

step-IsMade : (a : App) (e : Event) → IsMade a (panel_events a e) (frame_events a e) (step a e)
unfolding step Panel.run Shell.run
step-IsMade a (panel_event e) = (refl, refl)
step-IsMade a (frame_event e) = (refl, refl)
step-IsMade a sign_out_clicked = (refl, refl)
step-IsMade a (sign_out_answered r) = elim (Bool-cases (is_some (take_out other a.frame.tasks))) [
  | inl here ↦ rw here (refl, refl)
  | inr gone ↦ rw gone (refl, refl)
]

panel-append :
    (p : Panel.Panel) (es fs : List Panel.Event)
    → Panel.run p (es ++ fs) ≡ Panel.run (Panel.run p es) fs
unfolding Panel.run
panel-append p [] fs = refl
panel-append p (e ∷ es) fs = panel-append (Panel.step p e) es fs

frame-append :
    (s : Shell.Frame) (es fs : List Shell.Event)
    → Shell.run s (es ++ fs) ≡ Shell.run (Shell.run s es) fs
unfolding Shell.run
frame-append s [] fs = refl
frame-append s (e ∷ es) fs = frame-append (Shell.step s e) es fs

-- Each run of the app is made of a run of the panel and one of the frame.
pub run-IsMade :
    (a : App) (es : List Event) → IsMade a (panel_trace a es) (frame_trace a es) (run a es)
unfolding run
run-IsMade a [] = (unfold Panel.run in refl, unfold Shell.run in refl)
run-IsMade a (e ∷ es) =
    let (panel, frame) = run-IsMade (step a e) es in
    let (p, f) = step-IsMade a e in
    (
      panel
          ∙ ap (λ k. Panel.run k (panel_trace (step a e) es)) p
          ∙ sym (panel-append a.panel (panel_events a e) (panel_trace (step a e) es)),
      frame
          ∙ ap (λ k. Shell.run k (frame_trace (step a e) es)) f
          ∙ sym (frame-append a.frame (frame_events a e) (frame_trace (step a e) es)),
    )

-- The parts' promises hold of the whole page, whatever happens on it: the app is its panel and its
-- frame, each run by its own events alone; its hooks agree on who is signed in; and each request
-- carries that user's token, and none when nobody is signed in or the user has no token.
pub whole_lem {ℓ} :
    {B : Type ℓ} (es : List Event) (path method : String) (body : Option B)
    → let b = run first es in
      IsMade first (panel_trace first es) (frame_trace first es) b
      × (b.panel.store.user ≡ b.panel.session.user)
      × (lookup "X-CSRF-Token" (request b.panel.session.csrf path method body).headers
          ≡ header_of b.panel.session.user)
whole_lem es path method body =
    let made = run-IsMade first es in
    let ps = panel_trace first es in
    (
      made,
      ap (λ (p : Panel.Panel). p.store.user) made.0
          ∙ run_agrees ps
          ∙ ap (λ (p : Panel.Panel). p.session.user) (sym made.0),
      ap
            (λ (p : Panel.Panel).
              lookup "X-CSRF-Token" (request p.session.csrf path method body).headers)
            made.0
          ∙ request-user ps path method body
          ∙ ap (λ (p : Panel.Panel). header_of p.session.user) (sym made.0),
    )
