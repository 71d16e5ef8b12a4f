-- ===== src/Stats/Content.antt =====
-- web/src/features/statistics/UserStats.tsx: the texts of the rows, the range, and the export.
--
-- Hours are counted in a unit of Types, `per_hour` of which make an hour, and a coverage in one,
-- `per_whole` of which make the whole.
use card_scope.Base.{
  ℕ, ◌*◌, Bool, not, ◌||◌, List, Option, none, some, String, find, show, has, or_text, is_some, ◌&◌,
  ◌==◌,
}
use card_scope.Types.{Gpu, Node, Stat}
use card_scope.Format.{Locale}
use card_scope.Stats.{Row, row_key, cards_of}
use card_scope.Stats.Fetching.{Answer}

abbrev pub name_or : Option Node → String → String
name_or none id = id
name_or (some n) id = or_text n.name id

unfoldable pub node_name : List Node → String → String
node_name nodes id = name_or (find (λ (n : Node). n.id == id) nodes) id

abbrev pub range_text : Locale → Option Answer → String
range_text l none = ""
range_text l (some a) = l.date_time a.from & " — " & l.date_time a.to

-- Whether the export is offered, and where it leads; `query` is the text of the query.
unfoldable pub export_disabled : Bool → Option Answer → Option String → Bool
export_disabled busy result query = busy || not (is_some result) || not (is_some query)

abbrev pub export_path : String → String
export_path query = "/api/v1/export?" & query

-- A row: its user, the line below, its hours, its cards, and whether it is open.
pub record RowText : Type 0 where
  pub user : String
  pub origin : String
  pub hours : String
  pub cards : String
  pub expanded : Bool

-- A line of an open row: the card, its id, its model, its hours, its coverage, and the hours of
-- that.
pub record DetailText : Type 0 where
  pub card : String
  pub uuid : String
  pub model : String
  pub hours : String
  pub coverage : String
  pub span : String

abbrev pub card_name : Option Gpu → String → String
card_name none uuid = uuid
card_name (some g) uuid = "GPU " & show g.index

module _ (l : Locale) (per_hour per_whole : ℕ) (nodes : List Node) where
  unfoldable pub row_text : List String → Row → RowText
  row_text open_rows r = record {
    user = or_text r.user r.uid;
    origin = node_name nodes r.node & " · UID " & r.uid;
    hours = l.number r.hours per_hour 2;
    cards = show r.cards;
    expanded = has open_rows (row_key r);
  }

  unfoldable pub detail_text : Stat → DetailText
  detail_text d = record {
    card =
        card_name
          (find (λ (g : Gpu). g.uuid == d.uuid)
            (cards_of (find (λ (n : Node). n.id == d.node) nodes)))
          d.uuid;
    uuid = d.uuid;
    model = d.model;
    hours = l.number d.occupied_hours per_hour 2;
    coverage = l.number (d.coverage * 100) per_whole 2 & "%";
    span = l.number d.occupancy_seconds 3600 2 & " / " & l.number d.expected_seconds 3600 2 & " 小时";
  }
