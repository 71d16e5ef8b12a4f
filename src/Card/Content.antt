-- ===== src/Card/Content.antt =====
-- web/src/features/nodes/NodeCard.tsx: the texts of a node's card, and what is open of it.
use text.Mathlib.Text.{starts_with}
use card_scope.Base.{
  ℕ, ◌*◌, ◌^◌, ◌-◌, Bool, true, false, not, ◌&&◌, List, [], ◌∷◌, Option, none, some, String, map,
  length, ltb, is_zero, is_empty, points, show, join, or_text, ◌&◌, ◌==◌, if◌then◌else◌,
}
use card_scope.Types.{Metric, Gpu, Net, Node}
use card_scope.Status.{users}
use card_scope.Select.{slice_from}
use card_scope.Time.{pad_start}
use card_scope.Format.{Locale, fmt, bytes, when}
use card_scope.Card.{idle_cards, busy_cards, unknown_cards, powered, total_power, chosen, rate}

-- Whether the details are shown, and whether the body is hidden.
pub record Openness : Type 0 where
  pub expanded : Bool
  pub collapsed : Bool

abbrev pub first : Openness
first = record { expanded = false; collapsed = true }

unfoldable pub header_clicked : Openness → Openness
header_clicked o = record o { collapsed = not o.collapsed }

unfoldable pub key_pressed : String → Openness → Openness
unfolding header_clicked
key_pressed key o =
    if key == "Enter" then header_clicked o else if key == " " then header_clicked o else o

unfoldable pub details_clicked : Openness → Openness
details_clicked o = record o { expanded = not o.expanded }

abbrev pub header_label : Node → Openness → String
header_label n o = (if o.collapsed then "展开" else "收起") & " " & n.name

-- The tone and the text of the badge beside the name.
unfoldable pub presence : Node → String × String
presence n = (
  if n.online then "green" else "neutral",
  if n.online then "在线" else if n.enrolled then "离线" else "待接入",
)

abbrev pub size_text : Node → String
size_text n =
    or_text n.snapshot.hostname "等待客户端连接"
    & " · "
    & show (length n.snapshot.gpus)
    & " 张 GPU "
    & (if ltb (length n.snapshot.gpus) n.expected then " / 预期 " & show n.expected & " 张" else "")

-- The numbers in the heading, of `fullNode`: each a name and a text.
unfoldable pub counts : Locale → Node → List (String × String)
counts l full =
    let unknown : String × String = ("未知", show (unknown_cards full)) in
    let power : String × String = (
      "总功耗",
      if is_empty (powered full) then "—" else fmt l l.per_watt 0 (some (total_power full)) & " W",
    ) in
    ("空闲", show (idle_cards full))
    ∷ ("占用", show (busy_cards full))
    ∷ (if ltb 0 (unknown_cards full) then unknown ∷ power ∷ [] else power ∷ [])

-- How many cards the power is that of, where it is not that of all.
unfoldable pub power_note : Node → String
power_note full =
    if not (is_empty (powered full)) && ltb (length (powered full)) (length full.snapshot.gpus)
    then "（" & show (length (powered full)) & "/" & show (length full.snapshot.gpus) & " 卡）"
    else ""

-- `s.replace(q, '')`: the first occurrence is taken out.
unfoldable pub without_first : String → String → String
without_first q String.[] = ""
without_first q (String.◌∷◌ c s) =
    let rest = String.◌∷◌ c (without_first q s) in
    if starts_with (String.◌∷◌ c s) q then slice_from (points q) (String.◌∷◌ c s) else rest

abbrev pub or_else : Metric → (ℕ → String) → String → String
or_else none f other = other
or_else (some v) f other = f v

abbrev pub gib_text : Locale → Metric → String
gib_text l m = or_else m (λ v. fmt l (1024 ^ 3) 1 (some v)) "—"

-- The part of the memory that is used, as a fraction; none where the whole is absent or 0.
abbrev pub memory_share : Metric → Metric → Option (ℕ × ℕ)
memory_share none _ = none
memory_share (some total) none = none
memory_share (some total) (some used) = if is_zero total then none else some (used, total)

-- The users' cell: the first letter of the first user, the text, and the title.
abbrev pub users_cell : Locale → String → List String → String × String × String
users_cell l process_status [] = ("", (if process_status == "ok" then "无计算进程" else "归属未知"), "")
users_cell l process_status (u ∷ us) = (
  l.upper (first_letter u),
  u & (if is_empty us then "" else " +" & show (length us)),
  join ", " (u ∷ us),
)
  where
    first_letter : String → String
    first_letter String.[] = ""
    first_letter (String.◌∷◌ c s) = String.◌∷◌ c String.[]

-- A row of the table of cards.
pub record Row : Type 0 where
  pub index : String
  pub name : String
  pub temperature : String
  pub power : String
  pub util : String
  pub memory : String
  pub users : String × String × String

unfoldable pub row : Locale → Gpu → Row
row l g = record {
  index = pad_start (show g.index);
  name = without_first "NVIDIA " g.name;
  temperature = or_else g.temperature (λ v. fmt l 1 0 (some v) & "°C") "温度 —";
  power = or_else g.power (λ v. fmt l l.per_watt 0 (some v) & " W") "功耗 —";
  util = fmt l 1 0 g.util & "%";
  memory = gib_text l g.memory_used & " / " & gib_text l g.memory_total & " GB";
  users = users_cell l g.process_status (users g);
}

abbrev pub rows : Locale → Node → List Row
rows l n = map (row l) n.snapshot.gpus

-- What stands in place of the rows, if there is none.
unfoldable pub no_gpu : Node → String
no_gpu n =
    if is_empty n.snapshot.gpus
    then if is_zero n.sample_at then "节点尚未上报数据。" else "暂无可读取的 GPU，检查节点采集能力。"
    else ""

abbrev pub first_name : List Net → String
first_name [] = ""
first_name (i ∷ is) = i.name

unfoldable pub network_name : Node → String
network_name n = if is_empty n.networks then or_text (first_name (chosen n)) "网络" else "选定网卡"

unfoldable pub rates : Locale → Node → String × String
rates l n = (
  bytes l l.per_byte (rate (λ i. i.rx_rate) (chosen n)) & "/s",
  bytes l l.per_byte (rate (λ i. i.tx_rate) (chosen n)) & "/s",
)

-- The figures at the foot: the processor and the memory, in percent.
unfoldable pub cpu_text : Locale → Node → String
cpu_text l n = fmt l 1 0 n.snapshot.system.cpu & "%"

unfoldable pub memory_text : Locale → Node → String
memory_text l n =
    let s = n.snapshot.system in
    (if is_zero s.memory_total
      then "—"
      else fmt l s.memory_total 0 (some ((s.memory_total - s.memory_available) * 100)))
    & "%"

abbrev pub details_label : Openness → String
details_label o = if o.expanded then "收起详情" else "系统详情"

unfoldable pub last_report : Locale → Node → String
last_report l n = if n.online then "5 秒采样" else when l n.sample_at
