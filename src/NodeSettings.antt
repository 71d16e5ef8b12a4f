-- ===== src/NodeSettings.antt =====
-- web/src/features/nodes/NodeSettings.tsx: the form of a node and its dialog, with the page around
-- them.
--
-- The tags and the interfaces are the module Tags. `perform`, `pending` and `onCode` are those of
-- App.tsx: each event of the form brings the page of the module Shell its own events. The form
-- counts its requests by their kinds; the third kind is the `refresh` after one that is kept. The
-- page shares `pending` with every other task of `perform`, such as the sign-out, the creation of a
-- node and the forms of other nodes: these are events of the page that come from elsewhere.
pub mod Laws
use card_scope.Base.{
  ℕ, ◌+◌, ◌-◌, Bool, true, false, not, ◌&&◌, ◌||◌, List, [], ◌∷◌, Option, none, some, String,
  is_zero, leb, includes, ◌&◌, ◌==◌, if◌then◌else◌,
}
use card_scope.Types.{Node}
use card_scope.Client.{Result, value, failed}
use card_scope.Tags.{Editor, Patch, collect_tags, remove_tag, type_tag, submit, choose_net, trim}
use card_scope.Shell
use card_scope.Shell.{
  Frame, Task, other, same_task, task_started, task_ended, code_issued, well, rejected, handled,
}

pub record Form : Type 0 where
  pub editor : Editor
  pub nets : List String
  pub confirm : String
  pub save_error : String
  pub saving : ℕ
  pub confirming : ℕ
  pub refreshing : ℕ

abbrev pub first : Node → Form
first n = record {
  editor = record { tags = n.tags; input = ""; error = "" };
  nets = n.networks;
  confirm = "";
  save_error = "";
  saving = 0;
  confirming = 0;
  refreshing = 0;
}

-- The form and the page that it stands on.
pub record Page : Type 0 where
  pub frame : Frame
  pub form : Form

-- What happens: a submission with a name and a number of cards, and its answer; the buttons
-- "重新签发接入码" and "撤销凭据" with their actions, the closing of the dialog, its button "确认",
-- and the answer, with the code or an empty text; the end of a `refresh`; typing in the name; the
-- editor's own events; and what happens elsewhere on the page while the form is there.
pub data Event : Type 0 where
  submitted : String → ℕ → Event
  saved : Result (Unit {0}) → Event
  asked : String → Event
  closed : Event
  confirmed : Event
  answered : Result String → Event
  refreshed : Event
  name_typed : Event
  tag_entered : Event
  tag_removed : String → Event
  tag_typed : String → Event
  net_chosen : Bool → String → Event
  elsewhere : Shell.Event → Event

-- The requests of the form that are under way.
abbrev pub under_way : Form → ℕ
under_way f = f.saving + f.confirming + f.refreshing

-- The tasks of `perform` under way that do not create a node, those of the form among them.
abbrev pub count_other : List Task → ℕ
count_other [] = 0
count_other (t ∷ ts) = (if same_task other t then 1 else 0) + count_other ts

-- There is no task from elsewhere that this event could be the end of.
abbrev pub has_no_task : Shell.Event → Page → Bool
has_no_task (task_ended m) p = leb (count_other p.frame.tasks) (under_way p.form)
has_no_task _ p = false

abbrev pub on_submit : Editor × Option Patch → Page → Page
on_submit (e, none) p = record p { form = record p.form { editor = e } }
on_submit (e, some patch) p = record {
  frame = Shell.step p.frame task_started;
  form = record p.form { editor = e; save_error = ""; saving = p.form.saving + 1 };
}

abbrev pub on_saved : Result (Unit {0}) → Page → Page
on_saved (value _) p = record p {
  form = record p.form { saving = p.form.saving - 1; refreshing = p.form.refreshing + 1 };
}
on_saved (failed m) p = record {
  frame = Shell.step p.frame (task_ended (handled m));
  form = record p.form { saving = p.form.saving - 1; save_error = m };
}

-- `if (d.code) onCode(d.code)`.
abbrev pub issue : String → Frame → Frame
issue code f = if code == "" then f else Shell.step f (code_issued code)

abbrev pub on_answered : Result String → Page → Page
on_answered (value code) p = record {
  frame = issue code p.frame;
  form = record p.form {
    confirm = "";
    confirming = p.form.confirming - 1;
    refreshing = p.form.refreshing + 1;
  };
}
on_answered (failed m) p = record {
  frame = Shell.step p.frame (task_ended (rejected m));
  form = record p.form { confirming = p.form.confirming - 1 };
}

abbrev edited : (Editor → Editor) → Page → Page
edited f p = record p { form = record p.form { editor = f p.form.editor } }

-- While the page is `pending` its buttons and the field of the tags are disabled; the dialog's
-- button "取消", the name and the boxes of the interfaces are not.
unfoldable pub step : Page → Event → Page
step p (submitted name expected) =
    if p.frame.pending then p else on_submit (submit name expected p.form.nets p.form.editor) p
step p (saved r) = if is_zero p.form.saving then p else on_saved r p
step p (asked action) =
    if p.frame.pending then p else record p { form = record p.form { confirm = action } }
step p closed = record p { form = record p.form { confirm = "" } }
step p confirmed = if p.frame.pending || p.form.confirm == "" then p else record {
  frame = Shell.step p.frame task_started;
  form = record p.form { confirming = p.form.confirming + 1 };
}
step p (answered r) = if is_zero p.form.confirming then p else on_answered r p
step p refreshed = if is_zero p.form.refreshing then p else record {
  frame = Shell.step p.frame (task_ended well);
  form = record p.form { refreshing = p.form.refreshing - 1 };
}
step p name_typed = record p { form = record p.form { save_error = "" } }
step p tag_entered = if p.frame.pending then p else edited (λ e. (collect_tags e).0) p
step p (tag_removed tag) = if p.frame.pending then p else edited (remove_tag tag) p
step p (tag_typed text) = if p.frame.pending then p else edited (type_tag text) p
step p (net_chosen checked name) = record p {
  form = record p.form { nets = choose_net checked name p.form.nets };
}
step p (elsewhere e) = if has_no_task e p then p else record p { frame = Shell.step p.frame e }

unfoldable pub run : Page → List Event → Page
run p [] = p
run p (e ∷ es) = run (step p e) es

-- Whether the error of a save is one of the name, and where it is shown: beside the name, or above
-- the buttons.
unfoldable pub name_error : Form → Bool
name_error f = includes f.save_error "节点名称"

abbrev pub error_by_name : Form → String
error_by_name f = if name_error f then f.save_error else ""

abbrev pub error_by_buttons : Form → String
error_by_buttons f = if not (f.save_error == "") && not (name_error f) then f.save_error else ""

-- The path of the request that "确认" sends.
abbrev pub confirm_path : Node → Form → String
confirm_path n f = "/nodes/" & n.id & "/" & f.confirm

abbrev pub is_open : Form → Bool
is_open f = not (f.confirm == "")

abbrev pub dialog_title : Form → String
dialog_title f = if f.confirm == "revoke" then "撤销节点凭据？" else "重新签发接入码？"

abbrev pub dialog_text : Node → String
dialog_text n = n.name & " 的现有凭据会立即失效。历史数据保留，重新接入后继续采集。"

-- The tone and the text of the badge.
abbrev pub credential : Node → String × String
credential n = if n.enrolled then ("green", "凭据有效") else ("neutral", "待接入 / 已撤销")

abbrev pub can_add_tag : Page → Bool
can_add_tag p = not (p.frame.pending || trim p.form.editor.input == "")
