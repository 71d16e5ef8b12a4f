-- ===== src/Overview/Filters.antt =====
-- web/src/app/App.tsx: the row of lists above the nodes, each a list of select.tsx whose value is
-- that of the query.
use card_scope.Base.{ℕ, false, List, [], ◌∷◌, map, some, none, String, Ordering, show, ◌&◌}
use card_scope.Base.Decimal.{read_from}
use card_scope.Types.{Node}
use card_scope.Status.{capacity_label}
use card_scope.Select.{Child, element, Props, slice_from}
use card_scope.Overview.{Query, capacities, tags}
use card_scope.Overview.Choices.{Entry, models, tag_options, status_options, sort_options}

pub data Filter : Type 0 where
  by_tag by_model by_capacity by_status by_free by_sort : Filter

abbrev pub of_entry : Entry → Child
of_entry (entry_value, text) = element (some entry_value) text false

abbrev pub of_model : String → Child
of_model m = element none m false

abbrev pub of_capacity : String → Child
of_capacity c = element (some c) (capacity_label c) false

abbrev pub of_free : ℕ → Child
of_free v = element (some (show v)) ("剩余 ≥ " & show v & " GB") false

-- The value of each list.
abbrev pub value_of : Filter → Query → String
value_of by_tag q = q.tag
value_of by_model q = q.model
value_of by_capacity q = q.capacity
value_of by_status q = q.status
value_of by_free q = show q.free
value_of by_sort q = q.sort

-- `onChange` of each list.
abbrev pub set_value : Filter → String → Query → Query
set_value by_tag v q = record q { tag = v }
set_value by_model v q = record q { model = v }
set_value by_capacity v q = record q { capacity = v }
set_value by_status v q = record q { status = v }
set_value by_free v q = record q { free = read_from 0 v }
set_value by_sort v q = record q { sort = v }

-- The underlying list reports an item.
unfoldable pub choose : Filter → String → Query → Query
choose f encoded q = set_value f (slice_from 7 encoded) q

-- The button that gives up the chosen node, and typing in the field.
unfoldable pub clear_node : Query → Query
clear_node q = record q { node_id = "" }

unfoldable pub type_search : String → Query → Query
type_search text q = record q { search = text }

module _ (by_units locale_compare : String → String → Ordering) where
  unfoldable pub children : Filter → Query → List Node → List Child
  children by_tag q nodes = map of_entry (tag_options q.tag (tags locale_compare nodes))
  children by_model q nodes = of_entry ("", "全部型号") ∷ map of_model (models by_units nodes)
  children by_capacity q nodes = of_entry ("", "全部显存容量") ∷ map of_capacity (capacities nodes)
  children by_status q nodes = map of_entry status_options
  children by_free q nodes = of_entry ("0", "不限剩余显存") ∷ map of_free (4 ∷ 8 ∷ 16 ∷ 24 ∷ 40 ∷ 80 ∷ [])
  children by_sort q nodes = map of_entry sort_options

  unfoldable pub list : Filter → Query → List Node → Props
  list f q nodes = record {
    children = children f q nodes;
    value = some (value_of f q);
    default_value = none;
    name = "";
    disabled = false;
    in_form = false;
  }
