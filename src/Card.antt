-- ===== src/Card.antt =====
-- web/src/features/nodes/NodeCard.tsx: what the card of a node counts, and the badge of each GPU.
pub mod Laws
pub mod Content
use card_scope.Base.{
  ℕ, ◌+◌, ◌-◌, Bool, true, false, not, ◌&&◌, List, [], ◌∷◌, Option, none, some, String, is_some,
  is_empty, has, count, keep, every, length, total, ◌==◌, if◌then◌else◌,
}
use card_scope.Types.{Metric, Gpu, Net, Node}
use card_scope.Status.{idle, bad, label}

unfoldable pub idle_cards : Node → ℕ
idle_cards n = count (λ g. idle g n) n.snapshot.gpus

abbrev pub is_busy : Node → Gpu → Bool
is_busy n g = n.online && g.status == "ok" && g.process_status == "ok" && not (idle g n)

unfoldable pub busy_cards : Node → ℕ
busy_cards n = count (is_busy n) n.snapshot.gpus

unfoldable pub unknown_cards : Node → ℕ
unknown_cards n = length n.snapshot.gpus - idle_cards n - busy_cards n

abbrev pub value_or_zero : Metric → ℕ
value_or_zero none = 0
value_or_zero (some v) = v

-- The cards whose power is known, and its sum.
unfoldable pub powered : Node → List Gpu
powered n = keep (λ g. n.online && g.status == "ok" && is_some g.power) n.snapshot.gpus

unfoldable pub total_power : Node → ℕ
total_power n = total (λ (g : Gpu). value_or_zero g.power) (powered n)

-- The interfaces that count: the chosen ones, or the main ones where none is chosen.
abbrev pub is_chosen : Node → Net → Bool
is_chosen n i = if is_empty n.networks then i.primary else has n.networks i.name

unfoldable pub chosen : Node → List Net
chosen n = keep (is_chosen n) n.snapshot.system.networks

-- The sum of the rates, or null if there is no interface, or one of them has no rate.
unfoldable pub rate : (Net → Metric) → List Net → Metric
rate key nets =
    if not (is_empty nets) && every (λ i. is_some (key i)) nets
    then some (total (λ i. value_or_zero (key i)) nets)
    else none

-- The tone and the text of the badge.
unfoldable pub tone : Gpu → Node → String
tone g n =
    if not n.online
    then "neutral"
    else if bad g
    then "red"
    else if idle g n
    then "green"
    else if not (g.process_status == "ok")
    then "amber"
    else "neutral"

unfoldable pub badge : Gpu → Node → String
badge g n =
    if not n.online
    then "数据过期"
    else if bad g
    then label (if g.status == "ok" then "健康告警" else g.status)
    else if idle g n
    then "空闲"
    else if not (g.process_status == "ok")
    then "信息受限"
    else "使用中"
