-- ===== src/Stats.antt =====
-- web/src/features/statistics/UserStats.tsx: the range of a query, the order of its rows, and the
-- rows that are open.
pub mod Laws
pub mod Fetching
pub mod Content
pub mod Defaults
pub mod Lists
pub mod Offered
use card_scope.Base.{
  ℕ, ◌+◌, ◌-◌, ◌*◌, Bool, true, false, not, ◌&&◌, ◌||◌, List, [], ◌∷◌, ◌++◌, Option, none, some,
  String, compare, Ordering, leb, keep, find, has, show, is_empty, ◌&◌, ◌==◌, if◌then◌else◌,
}
use card_scope.Base.Decimal.{read_from}
use card_scope.Base.Sorting.{or_else, sort}
use card_scope.Types.{Gpu, Node, Stat}

-- The choices of the form. A time that the browser cannot read is no number.
pub record Choice : Type 0 where
  pub period : String
  pub start : Option ℕ
  pub finish : Option ℕ
  pub node : String
  pub model : String
  pub user : String

pub record Row : Type 0 where
  pub node : String
  pub uid : String
  pub user : String
  pub hours : ℕ
  pub cards : ℕ
  pub coverage : ℕ
  pub details : List Stat

abbrev pub day : ℕ
day = 86400000

-- The two ends, `from` and `to`; the time now is more than any period after 1970.
abbrev pub ends : ℕ → Choice → Option ℕ × Option ℕ
ends now c =
    if c.period == "custom"
    then (c.start, c.finish)
    else (some (now - read_from 0 c.period * day), some now)

abbrev pub ordered : Option ℕ → Option ℕ → Option (ℕ × ℕ)
ordered (some from) (some to) = if leb to from then none else some (from, to)
ordered (some from) none = none
ordered none _ = none

unfoldable pub range : ℕ → Choice → Option (ℕ × ℕ)
range now c = let (from, to) = ends now c in ordered from to

abbrev pub parameters_of : Choice → Option (ℕ × ℕ) → Option (List (String × String))
parameters_of c none = none
parameters_of c (some (from, to)) = some (
    ("view", "users")
    ∷ ("from", show from)
    ∷ ("to", show to)
    ∷ ("node", c.node)
    ∷ ("model", c.model)
    ∷ ("user", c.user)
    ∷ [])

-- The parameters of the query, or null. The export takes the same ones.
unfoldable pub query : ℕ → Choice → Option (List (String × String))
query now c = parameters_of c (range now c)

abbrev pub row_order : (String → String → Ordering) → String → Row → Row → Ordering
row_order locale_compare chosen a b =
    if chosen == "name"
    then or_else (locale_compare a.user b.user) (locale_compare a.node b.node)
    else or_else (compare b.hours a.hours) (locale_compare a.user b.user)

unfoldable pub rows : (String → String → Ordering) → String → List Row → List Row
rows locale_compare chosen = sort (row_order locale_compare chosen)

abbrev pub row_key : Row → String
row_key r = r.node & "/" & r.uid

-- A click on a row.
unfoldable pub toggle : String → List String → List String
toggle key open_rows =
    if has open_rows key then keep (λ k. not (k == key)) open_rows else open_rows ++ key ∷ []

abbrev pub index_of : Option Gpu → ℕ
index_of none = 9007199254740991
index_of (some g) = g.index

abbrev pub cards_of : Option Node → List Gpu
cards_of none = []
cards_of (some n) = n.snapshot.gpus

-- The place of a card in the details of a row: its index, or the last place if the node or the
-- card is gone.
unfoldable pub place : List Node → String → Stat → ℕ
place nodes node d =
    index_of
      (find (λ (g : Gpu). g.uuid == d.uuid) (cards_of (find (λ (n : Node). n.id == node) nodes)))

-- `numeric_compare` compares two ids by the locale, with their numbers read as such.
unfoldable pub details :
    (numeric_compare : String → String → Ordering) → List Node → Row → List Stat
details numeric_compare nodes row =
    sort
      (λ (a b : Stat).
        or_else (compare (place nodes row.node a) (place nodes row.node b))
          (numeric_compare a.uuid b.uuid))
      row.details

-- What the table says when it has no rows.
unfoldable pub empty_text : Bool → String → Choice → Bool → String
empty_text busy error c incomplete =
    if busy
    then "正在加载…"
    else if not (error == "")
    then "统计加载失败"
    else if not (c.user == "") || not (c.node == "") || not (c.model == "")
    then "没有匹配的使用记录"
    else if incomplete
    then "无法获取用户统计"
    else "暂无使用记录"
