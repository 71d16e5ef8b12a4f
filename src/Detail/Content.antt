-- ===== src/Detail/Content.antt =====
-- web/src/features/gpu/GPUDetail.tsx: the texts and lists of the dialog.
use card_scope.Base.{
  List, [], ◌∷◌, none, some, false, String, map, take, is_empty, or_text, show, ◌&◌, ◌==◌,
  if◌then◌else◌,
}
use card_scope.Types.{Process, Gpu, Node}
use card_scope.Status.{label}
use card_scope.Format.{Locale, fmt, bytes, when}
use card_scope.Select.{Props, element}
use card_scope.Detail.{Point, Occurrence, GpuDetail}

abbrev pub eyebrow : Gpu → Node → String
eyebrow g n = n.name & " / GPU " & show g.index

-- The four figures: each a name and a text.
unfoldable pub metrics : Locale → Gpu → List (String × String)
metrics l g =
    ("利用率", fmt l 1 0 g.util & " %")
    ∷ ("显存", bytes l 1 g.memory_used & " / " & bytes l 1 g.memory_total)
    ∷ ("温度", fmt l 1 0 g.temperature & " °C")
    ∷ ("功耗", fmt l l.per_watt 0 g.power & " W")
    ∷ []

-- The chart of the history, or what stands in its place.
pub data Chart : Type 0 where
  chart : List Point → Chart
  chart_empty : String → Chart

unfoldable pub chart_of : GpuDetail → Chart
chart_of s = if is_empty s.history then chart_empty "等待相邻的有效采样生成趋势" else chart s.history

-- A process: its user, its name with the number, its memory, and when it was first seen.
pub record Item : Type 0 where
  pub user : String
  pub name : String
  pub memory : String
  pub first_seen : String

unfoldable pub process_items : Locale → Gpu → List Item
process_items l g =
    map
      (λ (p : Process). record {
        user = or_text p.user "未知";
        name = or_text p.name "名称不可读" & " · PID " & show p.pid;
        memory = bytes l 1 p.memory;
        first_seen = "首次观测 " & when l p.first_seen;
      })
      g.processes

-- The notice above the processes, empty if there is none.
unfoldable pub notice : Gpu → String
notice g =
    if g.process_status == "ok" then "" else label g.process_status & "。进程缺失不代表无人使用，此卡的用户占用统计可能不可用。"

abbrev pub no_processes : Gpu → String
no_processes g = if is_empty g.processes then "未观测到计算进程" else ""

-- The field, the tone of its badge, and the badge's text.
unfoldable pub capabilities : Gpu → List (String × String × String)
capabilities g = map (λ f. (f.0, if f.1 == "ok" then "green" else "neutral", label f.1)) g.fields

-- The class of the dot, the text, and the time.
unfoldable pub recent_events : Locale → GpuDetail → List (String × String × String)
recent_events l s =
    map
      (λ (e : Occurrence). (
        "event-dot" & (if e.kind == "started" then "" else " failed"),
        (if e.kind == "started" then "开始采集" else "采集失败"),
        when l e.at,
      ))
      (take 12 s.events)

abbrev pub footer : Locale → Gpu → String
footer l g = "最后观测 " & when l g.seen_at & " · 数据源 " & or_text g.source "—"

-- The list of the ranges, whose value is that of the dialog.
unfoldable pub hours_list : GpuDetail → Props
hours_list s = record {
  children =
      element (some "1") "最近 1 小时" false
      ∷ element (some "24") "最近 24 小时" false
      ∷ element (some "168") "最近 7 天" false
      ∷ [];
  value = some s.hours;
  default_value = none;
  name = "";
  disabled = false;
  in_form = false;
}
