-- ===== src/Summary/State.antt =====
-- web/src/features/dashboard/summary.ts: the state of one GPU.
use card_scope.Base.{
  Bool, true, false, not, ◌||◌, none, some, String, leb, is_zero, is_some, ◌==◌, if◌then◌else◌,
}
use card_scope.Types.{Metric, Gpu, Node}
use card_scope.Status
use card_scope.Status.{bad}

pub data GpuState : Type 0 where
  idle busy attention unknown offline : GpuState

abbrev pub state_labels : GpuState → String
state_labels idle = "空闲"
state_labels busy = "使用中"
state_labels attention = "异常"
state_labels unknown = "信息不完整"
state_labels offline = "离线"

abbrev pub is_hot : Metric → Bool
is_hot none = false
is_hot (some v) = leb 85 v

-- `!m` on a number or null.
abbrev pub is_falsy : Metric → Bool
is_falsy none = true
is_falsy (some v) = is_zero v

unfoldable pub gpu_state : Gpu → Node → GpuState
gpu_state g n =
    if not n.online
    then offline
    else if bad g || is_hot g.temperature
    then attention
    else if Status.idle g n
    then idle
    else if not (g.process_status == "ok")
        || not (is_some g.util)
        || not (is_some g.memory_used)
        || is_falsy g.memory_total
    then unknown
    else busy
