-- ===== src/Resources.antt =====
-- web/src/features/nodes/NodeResources.tsx: the figures of a node's system.
--
-- A percentage is kept as a fraction. `total - available` and the like are truncated at 0, which
-- `Math.max(0, …)` makes of a negative one; where the source shows them without that, the hub's
-- numbers are in order.
pub mod Laws
pub mod Content
pub mod Sizes
use Prim.Native.Nat.{min}
use card_scope.Base.{
  ℕ, ◌-◌, ◌*◌, Bool, true, false, not, ◌&&◌, List, [], ◌∷◌, Option, none, some, String, Ordering,
  leb, ltb, keep, every, total, map, join, show, is_some, is_zero, is_empty, lookup, or_text, has,
  ◌&◌, ◌==◌, if◌then◌else◌,
}
use card_scope.Base.Sorting.{sort}
use card_scope.Types.{Metric, Net, Disk, System, Node}

-- `part / whole`, with `whole` above 0.
pub record Fraction : Type 0 where
  pub part : ℕ
  pub whole : ℕ

-- `total > 0 ? Math.max(0, Math.min(100, (used / total) * 100)) : null`.
unfoldable pub ratio : ℕ → ℕ → Option Fraction
ratio used total =
    if ltb 0 total
    then some (record { part = min (100 * total) (used * 100); whole = total })
    else none

-- `value >= limit`.
abbrev pub at_least : ℕ → Fraction → Bool
at_least limit f = leb (limit * f.whole) f.part

-- The class of a bar.
unfoldable pub bar_class : Option Fraction → String
bar_class none = "unavailable"
bar_class (some f) = if at_least 90 f then "high" else if at_least 75 f then "warm" else ""

-- `errors[key]` as a condition.
abbrev pub is_set : Option String → Bool
is_set none = false
is_set (some s) = not (s == "")

abbrev pub value_or_zero : Metric → ℕ
value_or_zero none = 0
value_or_zero (some v) = v

unfoldable pub memory : System → Option Fraction
memory s =
    if is_set (lookup "memory" s.errors)
    then none
    else ratio (s.memory_total - s.memory_available) s.memory_total

unfoldable pub swap : System → Option Fraction
swap s = if is_set (lookup "swap" s.errors) then none else ratio s.swap_used s.swap_total

unfoldable pub disk_used : Disk → Option Fraction
disk_used d = if d.status == "ok" then ratio (d.total - d.free) d.total else none

abbrev pub text_of : Option String → String
text_of none = ""
text_of (some s) = s

abbrev pub status_labels : List (String × String)
status_labels =
    ("ok", "正常")
    ∷ ("timeout", "查询超时")
    ∷ ("permission_denied", "权限不足")
    ∷ ("unsupported", "不支持")
    ∷ ("query_failed", "采集失败")
    ∷ []

unfoldable pub status : String → String
status s = or_text (text_of (lookup s status_labels)) s

module _ (by_name : String → String → Ordering) where
  unfoldable pub nets : Node → List Net
  nets n = sort (λ (a b : Net). by_name a.name b.name) n.snapshot.system.networks

  abbrev pub is_main : Node → Net → Bool
  is_main n v = if is_empty n.networks then v.primary else has n.networks v.name

  unfoldable pub main : Node → List Net
  main n = keep (is_main n) (nets n)

  -- `nets.filter((v) => !main.includes(v))`, by the identity of the interface's object.
  unfoldable pub others : Node → List Net
  others n = keep (λ v. not (is_main n v)) (nets n)

  -- The sum of the main interfaces' rates, or null if there is none, or one has no rate.
  unfoldable pub rate : (Net → Metric) → Node → Metric
  rate key n =
      if not (is_empty (main n)) && every (λ v. is_some (key v)) (main n)
      then some (total (λ v. value_or_zero (key v)) (main n))
      else none

  unfoldable pub disks : Node → List Disk
  disks n = sort (λ (a b : Disk). by_name a.path b.path) n.snapshot.system.disks

  unfoldable pub network_title : Node → String
  network_title n =
      if is_empty (main n) then "网络" else join " + " (map (λ (v : Net). v.name) (main n))

-- One of the three figures: its name, its share, and the text below it.
pub record Figure : Type 0 where
  pub name : String
  pub value : Option Fraction
  pub detail : String

abbrev pub whole_percent : Metric → Option Fraction
whole_percent none = none
whole_percent (some v) = some (record { part = v; whole = 1 })

-- `number` and `bytes` print by the browser's locale.
module _ (number : ℕ → String) (bytes : ℕ → String) where
  abbrev pub number_or_dash : Metric → String
  number_or_dash none = "—"
  number_or_dash (some v) = number v

  unfoldable pub figures : System → List Figure
  figures s =
      record {
        name = "CPU";
        value = whole_percent s.cpu;
        detail =
            (if is_zero s.cores then "—" else show s.cores) & " 核 · 负载 " & number_or_dash s.load;
      }
      ∷ record {
        name = "内存";
        value = memory s;
        detail =
            if is_some (memory s)
            then bytes (s.memory_total - s.memory_available) & " / " & bytes s.memory_total
            else "不可用";
      }
      ∷ record {
        name = "Swap";
        value = swap s;
        detail =
            if is_set (lookup "swap" s.errors)
            then "不可用"
            else if is_zero s.swap_total
            then "未启用"
            else bytes s.swap_used & " / " & bytes s.swap_total;
      }
      ∷ []

  unfoldable pub disk_detail : Disk → String
  disk_detail d =
      if is_some (disk_used d)
      then bytes (d.total - d.free) & " / " & bytes d.total & " · 可用 " & bytes d.free
      else "容量不可用"
