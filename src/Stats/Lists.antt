-- ===== src/Stats/Lists.antt =====
-- The lists and the fields above the table of web/src/features/statistics/UserStats.tsx. Each list
-- is one of select.tsx whose value is that of the form.
use card_scope.Base.{ℕ, Bool, false, List, [], ◌∷◌, map, Option, some, none, String, ◌==◌}
use card_scope.Types.{Node}
use card_scope.Select.{Child, element, Props, slice_from}
use card_scope.Stats.{Choice}

pub data Control : Type 0 where
  by_period by_node by_model : Control

abbrev pub of_node : Node → Child
of_node n = element (some n.id) n.name false

abbrev pub of_model : String → Child
of_model m = element none m false

abbrev pub value_of : Control → Choice → String
value_of by_period c = c.period
value_of by_node c = c.node
value_of by_model c = c.model

abbrev pub set_value : Control → String → Choice → Choice
set_value by_period v c = record c { period = v }
set_value by_node v c = record c { node = v }
set_value by_model v c = record c { model = v }

-- The underlying list reports an item.
unfoldable pub choose : Control → String → Choice → Choice
choose k encoded c = set_value k (slice_from 7 encoded) c

unfoldable pub children : Control → List Node → List String → List Child
children by_period nodes models =
    element (some "1") "最近 24 小时" false
    ∷ element (some "7") "最近 7 天" false
    ∷ element (some "30") "最近 30 天" false
    ∷ element (some "custom") "自定义时间" false
    ∷ []
children by_node nodes models = element (some "") "全部节点" false ∷ map of_node nodes
children by_model nodes models = element (some "") "全部型号" false ∷ map of_model models

unfoldable pub list : Control → Choice → List Node → List String → Props
list k c nodes models = record {
  children = children k nodes models;
  value = some (value_of k c);
  default_value = none;
  name = "";
  disabled = false;
  in_form = false;
}

-- The list of the orders, which is no part of the query.
unfoldable pub sort_list : String → Props
sort_list chosen = record {
  children = element (some "hours") "占用卡时：从高到低" false ∷ element (some "name") "按用户名" false ∷ [];
  value = some chosen;
  default_value = none;
  name = "";
  disabled = false;
  in_form = false;
}

-- The fields for the two times are shown for the own period alone.
abbrev pub has_fields : Choice → Bool
has_fields c = c.period == "custom"

-- Typing in the field for the user.
unfoldable pub type_user : String → Choice → Choice
type_user text c = record c { user = text }

-- Another time in one of the two fields, as it is read.
unfoldable pub set_start : Option ℕ → Choice → Choice
set_start t c = record c { start = t }

unfoldable pub set_end : Option ℕ → Choice → Choice
set_end t c = record c { finish = t }
