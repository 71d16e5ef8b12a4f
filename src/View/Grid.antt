-- ===== src/View/Grid.antt =====
-- web/src/features/dashboard/Dashboard.tsx: the rows, the grid of nodes, the issues, and the texts
-- around them.
use Prim.Native.Char.{Char, code}
use card_scope.Base.{
  ℕ, ◌-◌, Bool, true, false, ◌&&◌, List, [], ◌∷◌, Option, none, some, String, Ordering, compare,
  map, length, ltb, leb, nat_eq, is_zero, is_empty, dedupe, show, join, or_text, ◌&◌, if◌then◌else◌,
}
use card_scope.Base.Sorting.{sort}
use card_scope.Types.{Gpu, Node}
use card_scope.Status.{capacity_label}
use card_scope.Summary.{Model, Issue, Summary}
use card_scope.Tags.{is_space, trim_start}
use card_scope.Select.{slice_from}
use card_scope.Format.{Locale}

-- The capital of an ASCII letter.
abbrev pub capital : Char → ℕ
capital c = if leb 97 (code c) && leb (code c) 122 then code c - 32 else code c

abbrev pub starts_as : List ℕ → String → Bool
starts_as [] s = true
starts_as (k ∷ ks) String.[] = false
starts_as (k ∷ ks) (String.◌∷◌ c s) = nat_eq (capital c) k && starts_as ks s

-- "NVIDIA".
abbrev pub maker : List ℕ
maker = 78 ∷ 86 ∷ 73 ∷ 68 ∷ 73 ∷ 65 ∷ []

abbrev pub starts_with_space : String → Bool
starts_with_space String.[] = false
starts_with_space (String.◌∷◌ c s) = is_space (code c)

-- `name.replace(/^NVIDIA\s+/i, '')`.
unfoldable pub short_name : String → String
short_name name =
    if starts_as maker name && starts_with_space (slice_from 6 name)
    then trim_start (slice_from 6 name)
    else name

-- The share of a state, below the bar.
unfoldable pub share_text : Locale → ℕ → ℕ → String
share_text l part whole = (if is_zero whole then "0" else l.percent part whole) & "%"

-- A row of the table of models: its label, its name, its numbers, its share, and its memory.
pub record ModelRow : Type 0 where
  pub aria_label : String
  pub name : String
  pub numbers : String
  pub share : String
  pub memory : String

unfoldable pub model_row : Locale → Model → ModelRow
model_row l m = record {
  aria_label =
      "查看 " & m.name & " · " & capacity_label m.capacity & " 的 " & show m.idle & " 张空闲 GPU";
  name = short_name m.name;
  numbers = show m.idle & " / " & show m.total;
  share = l.percent m.idle m.total & "% 空闲";
  memory = capacity_label m.capacity;
}

abbrev pub no_models : ℕ → String
no_models updated = if is_zero updated then "正在获取资源…" else "节点接入后显示型号与可用容量"

-- A node of the grid, with its cards.
pub record Place : Type 0 where
  pub node : Node
  pub cards : List Gpu

abbrev pub card_order : Gpu → Gpu → Ordering
card_order a b = compare a.index b.index

unfoldable pub place : Node → Place
place n = record { node = n; cards = sort card_order n.snapshot.gpus }

-- `numeric_compare` compares two names by the locale, with their numbers read as such.
unfoldable pub grid : (numeric_compare : String → String → Ordering) → List Node → List Place
grid numeric_compare nodes = map place (sort (λ (a b : Node). numeric_compare a.name b.name) nodes)

unfoldable pub meta : Node → String
meta n =
    show (length n.snapshot.gpus)
    & " 张 GPU · "
    & or_text (join " / " (dedupe (map (λ (g : Gpu). short_name g.name) n.snapshot.gpus))) "等待采集"

-- The line on missing cards, empty if none is missing.
unfoldable pub missing_text : Node → String
missing_text n =
    if ltb (length n.snapshot.gpus) n.expected
    then (if n.online then "未检测到" else "最后记录缺失")
      & " "
      & show (n.expected - length n.snapshot.gpus)
      & " 张 · 预期 "
      & show n.expected
      & " 张"
    else ""

-- Where a click on an issue leads: to a card, or to the list of one node.
pub data Target : Type 0 where
  to_gpu : Node → Gpu → Target
  to_node : String → Target

abbrev pub target_of : Node → Option Gpu → Target
target_of n none = to_node n.id
target_of n (some g) = to_gpu n g

abbrev pub target : Issue → Target
target i = target_of i.node i.gpu

-- What stands in place of the issues, if there is none.
pub data AllGood : Type 0 where
  checking resuming fine awaiting : AllGood

unfoldable pub all_good : ℕ → Bool → List Node → AllGood
all_good updated is_stale nodes =
    if is_zero updated
    then checking
    else if is_stale
    then resuming
    else if is_empty nodes
    then awaiting
    else fine

abbrev pub all_good_text : AllGood → String
all_good_text checking = "正在检查节点状态"
all_good_text resuming = "等待恢复数据更新"
all_good_text fine = "当前没有需要关注的异常"
all_good_text awaiting = "等待节点接入"

-- The line at the foot.
unfoldable pub update_text : Locale → ℕ → Bool → String
update_text l updated is_stale =
    if is_zero updated
    then "等待首次数据"
    else (if is_stale then "最后成功更新" else "更新于") & " " & l.time updated & " · 每 5 秒刷新"

-- The line below the number of idle cards.
unfoldable pub caption : Summary → ℕ → String
caption r total =
    show total
    & " 张已检测 GPU · "
    & show r.online
    & " 个在线节点"
    & (if ltb 0 r.missing then " · 缺失 " & show r.missing & " 张" else "")
