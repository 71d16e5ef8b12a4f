-- ===== src/View/Page.antt =====
-- web/src/features/dashboard/Dashboard.tsx: its two states, and what its buttons bring to App.tsx.
use card_scope.Base.{
  ℕ, ◌-◌, Bool, true, false, not, List, [], ◌∷◌, String, is_zero, length, ltb, show, map, ◌&◌,
  if◌then◌else◌,
}
use card_scope.Types.{Gpu, Node}
use card_scope.Overview.{Options}
use card_scope.Shell
use card_scope.Shell.{queried, gpu_opened}
use card_scope.Summary.{GpuState, state_labels, Summary, Issue, Model, Counts, count_of}
use card_scope.View.{states, segments}
use card_scope.View.Grid.{Target, to_gpu, to_node, target}

-- `allModels` and `allIssues`.
pub record Dashboard : Type 0 where
  pub all_models : Bool
  pub all_issues : Bool

abbrev pub first : Dashboard
first = record { all_models = false; all_issues = false }

abbrev pub no_options : Options
no_options = record { model = ""; capacity = ""; status = ""; search = ""; node_id = "" }

-- The buttons: the one below the number of idle cards, a row of the models, the one that shows all
-- of them, the name of a node, a card, the one in place of the nodes, the one that shows all
-- issues, and an issue.
pub data Click : Type 0 where
  idle_clicked : Click
  model_clicked : Model → Click
  models_toggled : Click
  node_clicked : Node → Click
  gpu_clicked : Node → Gpu → Click
  query_clicked : Click
  issues_toggled : Click
  issue_clicked : Issue → Click

unfoldable pub step : Dashboard → Click → Dashboard
step d models_toggled = record d { all_models = not d.all_models }
step d issues_toggled = record d { all_issues = not d.all_issues }
step d _ = d

abbrev pub of_target : Target → Shell.Event
of_target (to_gpu n g) = gpu_opened n.id g.uuid
of_target (to_node id) = queried (record no_options { node_id = id })

-- The calls of `onQuery` and `onGPU`.
unfoldable pub page_events : Click → List Shell.Event
page_events idle_clicked = queried (record no_options { status = "idle" }) ∷ []
page_events (model_clicked m) =
    queried (record no_options { model = m.name; capacity = m.capacity; status = "idle" }) ∷ []
page_events models_toggled = []
page_events (node_clicked n) = queried (record no_options { node_id = n.id }) ∷ []
page_events (gpu_clicked n g) = gpu_opened n.id g.uuid ∷ []
page_events query_clicked = queried no_options ∷ []
page_events issues_toggled = []
page_events (issue_clicked i) = of_target (target i) ∷ []

abbrev pub class_name : Bool → String
class_name is_stale = "dashboard" & (if is_stale then " is-stale" else "")

-- The large number, and the line of the nodes that are online.
unfoldable pub big_number : ℕ → Summary → String
big_number updated r = if is_zero updated then "—" else show r.counts.idle

unfoldable pub online_text : Summary → List Node → String
online_text r nodes = show r.online & "/" & show (length nodes) & " 节点在线"

-- The parts of the bar, as shares of the whole.
unfoldable pub track : Counts → ℕ → List (GpuState × ℕ × ℕ)
track c whole = map (λ s. (s, count_of s c, whole)) (segments c)

abbrev pub legend : List String
legend = map state_labels states

abbrev pub models_label : Bool → List Model → String
models_label true ms = "收起型号"
models_label false ms = "展开其余 " & show (length ms - 3) & " 种配置"

unfoldable pub nodes_text : List Node → String
nodes_text nodes = show (length nodes) & " 个计算节点 · 按实际 GPU 数量展示"

abbrev pub node_state : Node → String × String
node_state n = if n.online then ("online", "在线") else ("offline", "离线")

abbrev pub no_nodes : ℕ → String
no_nodes updated = if is_zero updated then "正在获取节点…" else "连接第一台计算节点"

-- The button beside the issues, none for two issues or fewer.
abbrev pub issues_label : Bool → List Issue → String
issues_label everything issues =
    if ltb 2 (length issues) then (if everything then "收起" else "查看全部") else ""
