-- ===== src/Summary/Issues.antt =====
-- web/src/features/dashboard/summary.ts: the issues that the loops list.
use card_scope.Base.{
  ℕ, ◌-◌, Bool, true, false, not, ◌&&◌, ◌||◌, List, [], ◌∷◌, Option, none, some, String, is_zero,
  length, show, ◌&◌, ◌==◌, if◌then◌else◌,
}
use card_scope.Types.{Metric, Gpu, Node}
use card_scope.Status.{bad}
use card_scope.Summary.State.{GpuState, attention, unknown}

pub record Issue : Type 0 where
  pub key : String
  pub title : String
  pub detail : String
  pub node : Node
  pub gpu : Option Gpu

-- The issue for a node that is offline, or whose collection is limited.
abbrev pub node_issue : Node → List Issue
node_issue n =
    if not n.online
    then record {
      key = n.id;
      title = if n.enrolled then "节点离线" else "等待节点接入";
      detail = n.name;
      node = n;
      gpu = none;
    }
      ∷ []
    else if not (n.snapshot.gpu_status == "") && not (n.snapshot.gpu_status == "ok")
    then record {
      key = n.id & "-collect";
      title = "GPU 采集受限";
      detail = n.name;
      node = n;
      gpu = none;
    }
      ∷ []
    else []

-- `Math.max(0, n.expected - gpus.length)`.
abbrev pub absent : Node → ℕ
absent n = n.expected - length n.snapshot.gpus

abbrev pub missing_issue : Node → List Issue
missing_issue n =
    if not (is_zero (absent n)) && n.online
    then record {
      key = n.id & "-missing";
      title = "未检测到 " & show (absent n) & " 张 GPU";
      detail = n.name & " · 预期 " & show n.expected & " 张";
      node = n;
      gpu = none;
    }
      ∷ []
    else []

-- `${m}` of a number or null.
abbrev pub show_metric : Metric → String
show_metric none = "null"
show_metric (some v) = show v

abbrev pub is_unknown : GpuState → Bool
is_unknown unknown = true
is_unknown _ = false

abbrev pub is_attention : GpuState → Bool
is_attention attention = true
is_attention _ = false

abbrev pub gpu_issue : GpuState → Gpu → Node → List Issue
gpu_issue state g n =
    if is_attention state || is_unknown state
    then record {
      key = n.id & "-" & g.uuid;
      title =
          if bad g
          then "采集或健康异常"
          else if is_unknown state
          then "采集信息不完整"
          else "温度偏高 · " & show_metric g.temperature & "°C";
      detail = n.name & " · GPU " & show g.index;
      node = n;
      gpu = some g;
    }
      ∷ []
    else []
