-- ===== src/App/Screens.antt =====
-- Who sees what on the screen of web/src/app/App.tsx.
use mathlib.Core.Path.{subst}
use card_scope.Base.{
  ◌≡◌, refl, ap, true, List, [], ◌∷◌, Option, none, some, String, Bool-cases, inl, inr, arith,
}
use card_scope.Types.{Role, admin, viewer, User}
use card_scope.Session
use card_scope.Session.{expired, signed_in}
use card_scope.Panel
use card_scope.Panel.{Panel, session_event, session_events}
use card_scope.Shell.{Frame, Dialog, dialog, enrollment}
use card_scope.App.{
  App, Event, panel_event, step, run, Content, settings, content, shown, screen_of, screen,
}

-- The session ends, by an answer 401 or on another tab, and somebody signs in.
abbrev pub handed_over : User → List Event
handed_over u = panel_event (session_event expired) ∷ panel_event (session_event (signed_in u)) ∷ []

-- An enrollment code that is on the screen when the session ends is on the screen of the next user
-- who signs in, whatever the role.
pub code_handed_over :
    (a : App) (code : String) (u : User)
    → a.panel.session.ready ≡ true
    → dialog a.frame ≡ enrollment code
    → screen (run a (handed_over u)) ≡ shown u (content a.frame.page u.role) (enrollment code)
unfolding run step screen Panel.step session_events Session.run Session.step
code_handed_over a code u ready there = elim (Bool-cases a.panel.session.active) [
  | inl active ↦ rw (active, ready, there) refl
  | inr over ↦ rw (over, ready, there) refl
]

content-settings : (page : String) (role : Role) → content page role ≡ settings → role ≡ admin
unfolding content
content-settings page admin h = refl
content-settings page viewer h = ground arith

shown_inj :
    {u v : User} {c e : Content} {d f : Dialog} → shown u c d ≡ shown v e f → (u ≡ v) × (c ≡ e)
shown_inj h = (cc h, cc h)

of_user :
    (o : Option User) (f : Frame) (u : User) (d : Dialog)
    → screen_of o f ≡ shown u settings d
    → (o ≡ some u) × (u.role ≡ admin)
of_user none f u d h = absurd (cc h)
of_user (some v) f u d h =
    let (same, has_settings) = shown_inj h in
    (
      ap some same,
      subst (λ (w : User). w.role ≡ admin) same (content-settings f.page v.role has_settings),
    )

-- The settings are on the screen only of somebody who is signed in as an administrator, and only
-- once the first answer for the session has come.
pub screen-settings :
    (a : App) (u : User) (d : Dialog)
    → screen a ≡ shown u settings d
    → (a.panel.session.ready ≡ true) × (a.panel.session.user ≡ some u) × (u.role ≡ admin)
unfolding screen
screen-settings a u d h = elim (Bool-cases a.panel.session.ready) [
  | inl ready ↦
      let (user, role) = of_user a.panel.session.user a.frame u d (rw ready at h) in
      (ready, user, role)
  | inr early ↦ absurd (cc (rw early at h))
]
