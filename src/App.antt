-- ===== src/App.antt =====
-- web/src/app/App.tsx as a whole: the session with the nodes (Panel), the frame of the page (Shell),
-- the theme, and what the screen shows of them.
--
-- The states of App stay as they are while nobody is signed in, since it is App itself that shows
-- the sign-in form in that case.
pub mod Screens
pub mod Themes
pub mod Errors
pub mod SignOut
pub mod Parts
use card_scope.Base.{
  Bool, true, false, not, ◌&&◌, List, [], ◌∷◌, ◌++◌, Option, none, some, String, is_some, map, ◌==◌,
  if◌then◌else◌,
}
use card_scope.Types.{Role, admin, viewer, User}
use card_scope.Client.{Response, Result, value, failed, settle}
use card_scope.Session.{expired, logout}
use card_scope.Polling
use card_scope.Polling.{error_set}
use card_scope.Panel
use card_scope.Panel.{Panel, page_event, session_event}
use card_scope.Shell
use card_scope.Shell.{
  Frame, Dialog, dialog, is_admin, Task, other, take_out, Ending, well, rejected, task_started,
  task_ended, error_closed,
}

-- `dark`, the class of the document, and the text under "gpu-theme" in the browser's storage.
pub record Theme : Type 0 where
  pub dark : Bool
  pub class_dark : Bool
  pub stored : Option String

abbrev pub is_dark : Option String → Bool
is_dark none = false
is_dark (some s) = s == "dark"

-- The effect of `dark`.
unfoldable pub apply_theme : Theme → Theme
apply_theme t = record t { class_dark = t.dark; stored = some (if t.dark then "dark" else "light") }

-- The first render, with what the storage holds, and its effect.
unfoldable pub opened : Option String → Theme
opened stored = apply_theme (record { dark = is_dark stored; class_dark = false; stored = stored })

-- The button in the topbar.
unfoldable pub toggle : Theme → Theme
toggle t = apply_theme (record t { dark = not t.dark })

abbrev pub toggle_label : Theme → String
toggle_label t = if t.dark then "切换浅色" else "切换深色"

pub record App : Type 0 where
  pub panel : Panel
  pub frame : Frame

abbrev pub first : App
first = record { panel = Panel.start; frame = Shell.at_first }

pub data Event : Type 0 where
  panel_event : Panel.Event → Event
  frame_event : Shell.Event → Event
  sign_out_clicked : Event
  sign_out_answered : Response (Unit {0}) → Event

-- The calls of `setError`, which is the one of useNodes: by the `catch` of `perform`, unless the
-- caller handles the error, and by the button that closes the message.
abbrev pub messages : Frame → Shell.Event → List Polling.Event
messages f (task_ended (rejected message)) =
    if is_some (take_out other f.tasks) then error_set message ∷ [] else []
messages f error_closed = error_set "" ∷ []
messages f _ = []

abbrev pub on_page : Frame → Shell.Event → List Panel.Event
on_page f e = map page_event (messages f e)

abbrev pub on_frame : App → Shell.Event → List Panel.Event → App
on_frame a e more = record {
  panel = Panel.run a.panel (on_page a.frame e ++ more);
  frame = Shell.step a.frame e;
}

abbrev pub ending_of : Result (Unit {0}) → Ending
ending_of (value _) = well
ending_of (failed message) = rejected message

-- What the answer to the sign-out brings to the session: a 401 ends it before the rejection.
abbrev pub leaving : Result (Unit {0}) → Bool → List Panel.Event
leaving r expiring =
    (if expiring then session_event expired ∷ [] else []) ++ session_event (logout r) ∷ []

-- The message of a rejection is set before React runs the effect of the new user.
abbrev pub on_sign_out : Result (Unit {0}) × Bool → App → App
on_sign_out (r, expiring) a = on_frame a (task_ended (ending_of r)) (leaving r expiring)

-- What happens: an event of the panel or of the frame; a click on the button that signs out, which
-- runs `signOut` as a task, and the answer to it. The `refresh` at the end of a task is an event of
-- the panel.
unfoldable pub step : App → Event → App
step a (panel_event e) = record a { panel = Panel.step a.panel e }
step a (frame_event e) = on_frame a e []
step a sign_out_clicked = on_frame a task_started []
step a (sign_out_answered response) =
    if is_some (take_out other a.frame.tasks) then on_sign_out (settle "/logout" response) a else a

unfoldable pub run : App → List Event → App
run a [] = a
run a (e ∷ es) = run (step a e) es

-- What stands below the heading.
pub data Content : Type 0 where
  dashboard overview stats settings nothing : Content

unfoldable pub content : String → Role → Content
content page role =
    if page == "dashboard"
    then dashboard
    else if page == "overview"
    then overview
    else if page == "stats"
    then stats
    else if page == "settings" && is_admin role
    then settings
    else nothing

-- The whole screen.
pub data Screen : Type 0 where
  loading login : Screen
  shown : User → Content → Dialog → Screen

abbrev pub screen_of : Option User → Frame → Screen
screen_of none f = login
screen_of (some u) f = shown u (content f.page u.role) (dialog f)

unfoldable pub screen : App → Screen
screen a = if not a.panel.session.ready then loading else screen_of a.panel.session.user a.frame

abbrev pub subtitle : String → String
subtitle page =
    if page == "dashboard"
    then "快速了解集群状态，查找可用 GPU，掌握运行健康情况。"
    else if page == "overview"
    then "节点状态与 GPU 使用情况"
    else if page == "stats"
    then "查看用户的 GPU 占用卡时。"
    else "一次接入，持续上报。所有采集均以普通用户权限运行。"

-- The last part of the path in the topbar, none on the dashboard.
abbrev pub breadcrumb : String → String
breadcrumb page =
    if page == "dashboard"
    then ""
    else if page == "overview"
    then "资源查询"
    else if page == "stats"
    then "使用统计"
    else "节点管理"

-- The avatar and the title of the account.
abbrev pub account : Role → String × String
account admin = ("A", "管理员")
account viewer = ("V", "团队访客")
