-- ===== src/Overview/Choices.antt =====
-- web/src/app/App.tsx: what the lists above the nodes offer, the card that is opened, and the text
-- in place of an empty list.
use card_scope.Base.{
  ◌≡◌, refl, Bool, true, false, not, ◌&&◌, ◌||◌, List, [], ◌∷◌, ◌++◌, map, Option, none, some,
  String, Ordering, find, has, is_empty, dedupe, or_text, ◌&◌, ◌==◌, arith, eq_iff, if◌then◌else◌,
}
use card_scope.Base.Sorting.{sort}
use card_scope.Types.{Gpu, Node}
use card_scope.Overview.{all_cards}

-- An entry of a list: its value and its text.
abbrev pub Entry : Type 0
Entry = String × String

-- The models, in the order of their code units, which is a parameter.
unfoldable pub models : (String → String → Ordering) → List Node → List String
models by_units nodes =
    sort by_units (dedupe (map (λ (c : Gpu × Node). c.0.name) (all_cards nodes)))

abbrev pub values : List Entry → List String
values es = map (λ (e : Entry). e.0) es

abbrev pub removed_entry : String → Bool → List Entry
removed_entry tag true = (tag, tag & "（已移除）") ∷ []
removed_entry tag false = []

-- The list of tags; a chosen tag that no node has any more is offered too.
unfoldable pub tag_options : String → List String → List Entry
tag_options tag tags =
    ("", "全部标签") ∷ map (λ t. (t, t)) tags
    ++ removed_entry tag (not (tag == "") && not (has tags tag))

unfoldable pub status_options : List Entry
status_options = ("all", "全部状态") ∷ ("idle", "空闲") ∷ ("fault", "采集或健康异常") ∷ ("offline", "节点离线") ∷ []

unfoldable pub sort_options : List Entry
sort_options = ("name", "按名称排序") ∷ ("idle", "空闲优先") ∷ ("fault", "异常优先") ∷ []

abbrev pub name_of : Option Node → String
name_of none = ""
name_of (some n) = n.name

-- The button that gives up the chosen node.
unfoldable pub node_label : String → List Node → String
node_label node_id nodes =
    "节点：" & or_text (name_of (find (λ (n : Node). n.id == node_id) nodes)) node_id & " · 清除定位 "

abbrev pub with_node : Node → Option Gpu → Option (Gpu × Node)
with_node n none = none
with_node n (some g) = some (g, n)

-- The card that the dialog shows, if it is still there.
abbrev pub card_of : String → Option Node → Option (Gpu × Node)
card_of uuid none = none
card_of uuid (some n) = with_node n (find (λ (g : Gpu). g.uuid == uuid) n.snapshot.gpus)

unfoldable pub opened_card : Option (String × String) → List Node → Option (Gpu × Node)
opened_card none nodes = none
opened_card (some (node, uuid)) nodes = card_of uuid (find (λ (n : Node). n.id == node) nodes)

unfoldable pub empty_title : List Node → String
empty_title nodes = if is_empty nodes then "开始连接第一台服务器" else "没有符合条件的 GPU"

unfoldable pub empty_hint : List Node → String
empty_hint nodes = if is_empty nodes then "添加节点后，使用普通用户在服务器运行客户端即可。" else "调整筛选条件，查看其他资源。"

pub has-values :
    (ts : List String) (more : List Entry) (tag : String)
    → has (values (map (λ t. (t, t)) ts ++ more)) tag ≡ (has ts tag || has (values more) tag)
has-values [] more tag = refl
has-values (t ∷ ts) more tag = ground (arith, has-values ts more tag)

has-removed_entry : (tag : String) (b : Bool) → has (values (removed_entry tag b)) tag ≡ b
has-removed_entry tag true = ground (arith, eq_iff tag tag)
has-removed_entry tag false = refl

-- The list of tags always offers the chosen one, also one that no node has any more.
pub tag_options-chosen :
    (tag : String) (tags : List String) → has (values (tag_options tag tags)) tag ≡ true
unfolding tag_options
tag_options-chosen tag tags =
    let gone = not (tag == "") && not (has tags tag) in
    ground (
      arith,
      has-values tags (removed_entry tag gone) tag,
      has-removed_entry tag gone,
      eq_iff tag "",
      eq_iff "" tag,
    )
