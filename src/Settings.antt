-- ===== src/Settings.antt =====
-- web/src/features/settings/Settings.tsx: the page of the settings, with its form for passwords, and
-- web/src/features/nodes/Enrollment.tsx, which shows a code.
--
-- The form goes through `perform` of App.tsx, so each event brings the page of Shell its own ones.
pub mod Laws
use card_scope.Base.{
  ℕ, ◌+◌, ◌-◌, Bool, true, false, List, [], ◌∷◌, Option, none, some, String, is_zero, is_empty, map,
  ◌&◌, if◌then◌else◌,
}
use card_scope.Types.{Node}
use card_scope.Client.{Request, request, Result, value, failed}
use card_scope.Select
use card_scope.Shell
use card_scope.Shell.{Frame, task_started, task_ended, well, rejected}

-- The account that is chosen and the password that is typed.
pub record Form : Type 0 where
  pub username : String
  pub password : String

abbrev pub accounts : List (String × String)
accounts = ("viewer", "viewer · 团队只读") ∷ ("admin", "admin · 管理员") ∷ []

abbrev option_of : String × String → Select.Child
option_of (name, text) = Select.element (some name) text false

-- The list of the accounts.
abbrev pub account_list : Select.Props
account_list = record {
  children = map option_of accounts;
  value = none;
  default_value = none;
  name = "username";
  disabled = false;
  in_form = true;
}

-- What `form.reset` leaves: what the list does then, and no text.
abbrev pub blank : Form
blank = record { username = "viewer"; password = "" }

abbrev pub password_request : String → Form → Request (String × String)
password_request csrf f = request csrf "/accounts/password" "POST" (some (f.username, f.password))

-- The form on its page, with its requests, and the calls of `refresh` after them, under way.
pub record Page : Type 0 where
  pub frame : Frame
  pub form : Form
  pub updating : ℕ
  pub refreshing : ℕ

-- What happens: a choice or typing, a submission, the answer to it, and the end of a `refresh`.
pub data Event : Type 0 where
  filled : Form → Event
  submitted : Event
  answered : Result (Unit {0}) → Event
  refreshed : Event

abbrev pub on_answered : Result (Unit {0}) → Page → Page
on_answered (value _) p = record p {
  form = blank;
  updating = p.updating - 1;
  refreshing = p.refreshing + 1;
}
on_answered (failed m) p = record p {
  frame = Shell.step p.frame (task_ended (rejected m));
  updating = p.updating - 1;
}

-- The button is disabled while the page is `pending`.
unfoldable pub step : Page → Event → Page
step p (filled f) = record p { form = f }
step p submitted =
    if p.frame.pending
    then p
    else record p { frame = Shell.step p.frame task_started; updating = p.updating + 1 }
step p (answered r) = if is_zero p.updating then p else on_answered r p
step p refreshed =
    if is_zero p.refreshing
    then p
    else record p { frame = Shell.step p.frame (task_ended well); refreshing = p.refreshing - 1 }

unfoldable pub run : Page → List Event → Page
run p [] = p
run p (e ∷ es) = run (step p e) es

-- What stands in place of the nodes, if there is none.
abbrev pub no_nodes : List Node → String
no_nodes nodes = if is_empty nodes then "还没有节点，点击右上角添加。" else ""

-- A click on "复制接入码": whether the browser's clipboard took the code.
abbrev pub copied : Result (Unit {0}) → Bool
copied (value _) = true
copied (failed m) = false

abbrev pub setup_command : String → String
setup_command origin = "./gpu-agent setup --server " & origin
