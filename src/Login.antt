-- ===== src/Login.antt =====
-- web/src/features/auth/Login.tsx: the sign-in form, and the texts beside it.
--
-- The button is disabled while a sign-in is under way, so the form is not submitted then. A sign-in
-- that is kept hands its user to `onLogin`, which is `signIn` of useSession.ts.
pub mod Laws
use card_scope.Base.{
  ℕ, Bool, true, false, not, List, [], ◌∷◌, ◌++◌, Option, none, some, String, ◌==◌, if◌then◌else◌,
}
use card_scope.Types.{User, LoginCopy}
use card_scope.Client.{Request, request, Result, value, failed}
use card_scope.Session

pub record Form : Type 0 where
  pub copy : Option LoginCopy
  pub error : String
  pub busy : Bool

abbrev pub first : Form
first = record { copy = none; error = ""; busy = false }

-- What the body of the sign-in holds.
abbrev pub login_request : String → String → Request (String × String)
login_request username password = request "" "/login" "POST" (some (username, password))

-- What happens: the answer to GET /login-copy, a submission, and the answer to POST /login.
pub data Event : Type 0 where
  copy_answered : Result LoginCopy → Event
  submitted : Event
  login_answered : Result User → Event

abbrev on_copy : Result LoginCopy → Form → Form
on_copy (value c) f = record f { copy = some c }
on_copy (failed m) f = f

-- The error of a sign-in that is rejected.
abbrev on_login : Result User → Form → Form
on_login (value u) f = f
on_login (failed m) f = record f { error = m }

unfoldable pub step : Form → Event → Form
step f (copy_answered r) = on_copy r f
step f submitted = if f.busy then f else record f { busy = true; error = "" }
step f (login_answered r) = if f.busy then record (on_login r f) { busy = false } else f

unfoldable pub run : Form → List Event → Form
run f [] = f
run f (e ∷ es) = run (step f e) es

-- What the form's events bring to the session.
abbrev pub entering : Result User → List Session.Event
entering (value u) = Session.signed_in u ∷ []
entering (failed m) = []

unfoldable pub session_events : Form → Event → List Session.Event
session_events f (copy_answered r) = []
session_events f submitted = []
session_events f (login_answered r) = if f.busy then entering r else []

unfoldable pub session_trace : Form → List Event → List Session.Event
session_trace f [] = []
session_trace f (e ∷ es) = session_events f e ++ session_trace (step f e) es

abbrev pub button_text : Form → String
button_text f = if f.busy then "正在登录…" else "进入面板"

-- A text of the page beside the form: nothing before they are there.
abbrev pub copy_texts : Form → List String
copy_texts f = elim f.copy [
  | none ↦ []
  | some c ↦ c.eyebrow ∷ c.title ∷ c.description ∷ c.caption ∷ []
]
