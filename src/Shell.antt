-- ===== src/Shell.antt =====
-- web/src/app/App.tsx: the frame of the panel, with its pages, its dialogs, the enrollment code of
-- a new node, and `perform`, which runs the requests of the page.
--
-- The session and the polling are the modules Session and Polling. The call of `refresh` within
-- `perform` never rejects; a task counts as under way until it is over too.
pub mod Tasks
pub mod Codes
pub mod Tiles
pub mod Forms
use card_scope.Base.{
  ℕ, zero, suc, ◌+◌, ◌-◌, Bool, true, false, not, ◌&&◌, ◌||◌, List, [], ◌∷◌, Option, none, some,
  String, is_zero, is_empty, length, show, find, or_text, ◌&◌, ◌==◌, if◌then◌else◌,
}
use card_scope.Types.{Gpu, Node, Role, admin, viewer}
use card_scope.Client.{Result, value, failed}
use card_scope.Overview.{
  Query, empty_query, Options, on_query, all_cards, online, available, faults, missing,
}

-- The tasks of `perform`: the creation of a node, before and after its answer, and any other.
pub data Task : Type 0 where
  creating ending other : Task

-- `reported` is the message that the page gave to `setError` last: the `error` that the page shows is
-- the one of useNodes, which the polling sets too.
pub record Frame : Type 0 where
  pub page : String
  pub selected : Option (String × String)
  pub add : Bool
  pub code : String
  pub create_error : String
  pub reported : String
  pub pending : Bool
  pub query : Query
  pub tasks : List Task

abbrev pub at_first : Frame
at_first = record {
  page = "dashboard";
  selected = none;
  add = false;
  code = "";
  create_error = "";
  reported = "";
  pending = false;
  query = empty_query;
  tasks = [];
}

-- The start of `perform`.
unfoldable pub perform : Task → Frame → Frame
perform t s = record s { pending = true; tasks = t ∷ s.tasks }

abbrev pub same_task : Task → Task → Bool
same_task creating creating = true
same_task ending ending = true
same_task other other = true
same_task _ _ = false

-- A task of this kind is taken out of those under way, if there is one.
abbrev pub prepended : Task → Option (List Task) → Option (List Task)
prepended t none = none
prepended t (some ts) = some (t ∷ ts)

abbrev pub take_out : Task → List Task → Option (List Task)
take_out t [] = none
take_out t (u ∷ us) = if same_task t u then some us else prepended u (take_out t us)

-- How a task ends: well, or rejected with a message, for the page or for the caller's `onError`.
pub data Ending : Type 0 where
  well : Ending
  rejected : String → Ending
  handled : String → Ending

-- What happens on the page: a click in the navigation; the dashboard's `onQuery`; the opening and
-- the closing of a card's dialog; "添加节点" in the heading, which drops the old code, and in the
-- empty list, which does not; the dialog's `onOpenChange`; typing in the name's field; the form's
-- `onSubmit`; the answer to it, and the end of the `refresh` after it; the start and the end of any
-- other task; `onCode` of the settings; and the closing of the error.
pub data Event : Type 0 where
  page_opened : String → Event
  queried : Options → Event
  gpu_opened : String → String → Event
  gpu_closed : Event
  add_clicked : Event
  first_add_clicked : Event
  dialog_changed : Bool → Event
  name_typed : Event
  submitted : Event
  created : Result String → Event
  refreshed : Event
  task_started : Event
  task_ended : Ending → Event
  code_issued : String → Event
  error_closed : Event

-- The answer to the creation of a node: the code is shown, and the nodes are fetched again; or its
-- message is shown beside the name, and the task is over.
abbrev pub on_created : Result String → List Task → Frame → Frame
on_created (value code) rest s = record s { code = code; tasks = ending ∷ rest }
on_created (failed message) rest s = record s {
  create_error = message;
  pending = false;
  tasks = rest;
}

-- The end of another task: a message that its caller handles is not the page's.
abbrev pub on_ended : Ending → List Task → Frame → Frame
on_ended well rest s = record s { pending = false; tasks = rest }
on_ended (rejected message) rest s = record s { reported = message; pending = false; tasks = rest }
on_ended (handled message) rest s = record s { pending = false; tasks = rest }

-- An answer comes only to a task that is under way.
abbrev pub with_task : Option (List Task) → (List Task → Frame) → Frame → Frame
with_task none f s = s
with_task (some rest) f s = f rest

unfoldable pub step : Frame → Event → Frame
unfolding perform
step s (page_opened page) = record s { page = page }
step s (queried o) = record s { query = on_query o; page = "overview" }
step s (gpu_opened node gpu) = record s { selected = some (node, gpu) }
step s gpu_closed = record s { selected = none }
step s add_clicked = record s { code = ""; add = true }
step s first_add_clicked = record s { add = true }
step s (dialog_changed visible) = record s {
  add = visible;
  create_error = "";
  code = if visible then s.code else "";
}
step s name_typed = record s { create_error = "" }
step s submitted = perform creating (record s { create_error = "" })
step s (created r) = with_task (take_out creating s.tasks) (λ rest. on_created r rest s) s
step s refreshed =
    with_task (take_out ending s.tasks) (λ rest. record s { pending = false; tasks = rest }) s
step s task_started = perform other s
step s (task_ended m) = with_task (take_out other s.tasks) (λ rest. on_ended m rest s) s
step s (code_issued code) = record s { code = code; add = true }
step s error_closed = record s { reported = "" }

unfoldable pub run : Frame → List Event → Frame
run s [] = s
run s (e ∷ es) = run (step s e) es

-- What the dialog for a new node holds.
pub data Dialog : Type 0 where
  closed form : Dialog
  enrollment : String → Dialog

unfoldable pub dialog : Frame → Dialog
dialog s = if not s.add then closed else if s.code == "" then form else enrollment s.code

-- The navigation: the ids and the titles of the pages that a role sees.
unfoldable pub navigation : Role → List (String × String)
navigation admin =
    ("dashboard", "集群概览") ∷ ("overview", "资源查询") ∷ ("stats", "使用统计") ∷ ("settings", "节点管理") ∷ []
navigation viewer = ("dashboard", "集群概览") ∷ ("overview", "资源查询") ∷ ("stats", "使用统计") ∷ []

abbrev pub heading : String → String
heading page =
    if page == "dashboard"
    then "集群概览"
    else if page == "overview"
    then "资源查询"
    else if page == "stats"
    then "使用统计"
    else "连接你的计算节点。"

abbrev pub is_admin : Role → Bool
is_admin admin = true
is_admin viewer = false

-- Whether the button "添加节点" stands in the heading.
unfoldable pub can_add : Role → String → Bool
can_add role page = is_admin role && not (page == "dashboard")

-- The tiles above the node list.
pub record Tile : Type 0 where
  pub title : String
  pub value : ℕ
  pub unit : String
  pub note : String
  pub tone : String

unfoldable pub tiles : List Node → List Tile
tiles nodes =
    record {
      title = "在线节点";
      value = online nodes;
      unit = "/ " & show (length nodes);
      note = "在线 / 总数";
      tone = "mint";
    }
    ∷ record {
      title = "GPU 总数";
      value = length (all_cards nodes);
      unit = "张";
      note = "";
      tone = "blue";
    }
    ∷ record {
      title = "空闲 GPU";
      value = available nodes;
      unit = "张";
      note = "无计算进程 · 低占用";
      tone = "mint";
    }
    ∷ record {
      title = "异常 GPU";
      value = faults nodes + missing nodes;
      unit = "张";
      note = if is_zero (missing nodes) then "采集失败或设备异常" else "含未检测到的显卡";
      tone = "amber";
    }
    ∷ []
