-- ===== src/Status.antt =====
-- web/src/features/gpu/status.ts: the capacity group, the users and the health of one GPU.
pub mod Capacity
pub mod Users
pub mod Idle
use Prim.Native.Nat.{max}
use card_scope.Base.{
  ℕ, zero, suc, ◌+◌, ◌*◌, ◌/◌, ◌^◌, Bool, true, false, not, ◌&&◌, ◌||◌, List, map, Option, none,
  some, String, ltb, is_empty, show, dedupe, or_text, lookup, ◌&◌, ◌==◌, if◌then◌else◌, [], ◌∷◌,
}
use card_scope.Types.{Metric, Process, Gpu, Node}

abbrev pub gib : ℕ
gib = 1024 ^ 3

-- `Math.round(bytes / 1024 ** 3)`: halves are rounded up.
abbrev pub round_gib : ℕ → ℕ
round_gib bytes = (bytes + gib / 2) / gib

abbrev pub capacity_of : Metric → String
capacity_of none = "unknown"
capacity_of (some zero) = "unknown"
capacity_of (some (suc n)) = show (max 1 (round_gib (suc n)))

unfoldable pub capacity_key : Gpu → String
capacity_key g = capacity_of g.memory_total

unfoldable pub capacity_label : String → String
capacity_label key = if key == "unknown" then "显存未知" else key & " GB"

unfoldable pub users : Gpu → List String
users g = dedupe (map (λ (p : Process). or_text p.user "未知") g.processes)

-- `g.fields?.health`, where a missing entry and an empty one are both falsy.
abbrev pub text_or_empty : Option String → String
text_or_empty none = ""
text_or_empty (some s) = s

abbrev pub health : Gpu → String
health g = text_or_empty (lookup "health" g.fields)

-- `m != null && m < limit`.
abbrev pub is_below : ℕ → Metric → Bool
is_below limit none = false
is_below limit (some v) = ltb v limit

-- `m == null || m < 85`.
abbrev pub is_cool : Metric → Bool
is_cool none = true
is_cool (some v) = ltb v 85

-- `used != null && total != null && total > 0 && used / total < 0.05`. On whole bytes below
-- 2 ** 51 the rounded quotient is below 0.05 exactly if 100 * used < 5 * total.
abbrev pub is_small_share : Metric → Metric → Bool
is_small_share (some used) (some total) = ltb 0 total && ltb (100 * used) (5 * total)
is_small_share _ none = false
is_small_share none (some total) = false

unfoldable pub idle : Gpu → Node → Bool
idle g n =
    n.online
    && g.status == "ok"
    && health g == ""
    && is_cool g.temperature
    && g.process_status == "ok"
    && is_empty g.processes
    && is_below 5 g.util
    && is_small_share g.memory_used g.memory_total

unfoldable pub bad : Gpu → Bool
bad g = not (g.status == "ok") || not (health g == "")

abbrev pub labels : List (String × String)
labels =
    ("ok", "正常")
    ∷ ("unsupported", "不支持")
    ∷ ("permission_denied", "权限不足")
    ∷ ("query_failed", "采集失败")
    ∷ ("timeout", "查询超时")
    ∷ ("not_detected", "未检测到")
    ∷ ("gpu_lost", "驱动报告丢失")
    ∷ ("unknown", "未知")
    ∷ ("wsl_limited", "WSL 进程信息受限")
    ∷ ("mig_unsupported", "MIG 归属暂不支持")
    ∷ ("mps_unsupported", "MPS 归属暂不支持")
    ∷ ("partial", "用户归属不完整")
    ∷ []

unfoldable pub label : String → String
label s = or_text (or_text (text_or_empty (lookup s labels)) s) "未知"
