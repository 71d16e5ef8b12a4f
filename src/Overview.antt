-- ===== src/Overview.antt =====
-- web/src/app/App.tsx: the totals above the node list, and the query behind it.
--
-- `toLowerCase` and the comparison of names by the browser's locale are parameters. The choice of
-- free memory is the number of GiB that the source reads from the choice's text.
pub mod Matching
pub mod Availability
pub mod Orders
pub mod Choices
pub mod Filters
pub mod Offers
pub mod Chosen
pub mod Gone
pub mod Listing
pub mod Clicks
use card_scope.Base.{
  ℕ, ◌+◌, ◌-◌, ◌*◌, Bool, true, false, not, ◌&&◌, ◌||◌, List, [], ◌∷◌, map, Option, none, some,
  String, compare, Ordering, leb, is_zero, is_empty, length, keep, count, total, flat_map, has,
  includes, join, dedupe, or_text, ◌&◌, ◌==◌, if◌then◌else◌,
}
use card_scope.Base.Decimal.{read_from}
use card_scope.Base.Sorting.{sort}
use card_scope.Types.{Metric, Gpu, Snapshot, Node}
use card_scope.Status.{gib, capacity_key, users, idle, bad}

-- What the user has chosen.
pub record Query : Type 0 where
  pub search : String
  pub status : String
  pub sort : String
  pub free : ℕ
  pub model : String
  pub capacity : String
  pub tag : String
  pub node_id : String

abbrev pub empty_query : Query
empty_query = record {
  search = "";
  status = "all";
  sort = "name";
  free = 0;
  model = "";
  capacity = "";
  tag = "";
  node_id = "";
}

-- The options of the dashboard's `onQuery`: an option that is left out is the empty text.
pub record Options : Type 0 where
  pub model : String
  pub capacity : String
  pub status : String
  pub search : String
  pub node_id : String

-- The handler of `onQuery`, which then shows the page "overview".
abbrev pub on_query : Options → Query
on_query o = record {
  search = o.search;
  node_id = o.node_id;
  status = or_text o.status "all";
  model = o.model;
  capacity = o.capacity;
  tag = "";
  free = 0;
  sort = "name";
}

-- `total != null && used != null && (total - used) / 1024 ** 3 >= free`, for a free above 0.
abbrev pub has_free : ℕ → Metric → Metric → Bool
has_free free (some total) (some used) = leb (free * gib) (total - used)
has_free free none _ = false
has_free free (some total) none = false

abbrev pub passes_status : String → Gpu → Node → Bool
passes_status status g n =
    status == "all"
    || status == "idle" && idle g n
    || status == "fault" && bad g
    || status == "offline" && not n.online

abbrev pub of_node : Query → Node → Bool
of_node q n = (q.node_id == "" || n.id == q.node_id) && (q.tag == "" || has n.tags q.tag)

abbrev pub with_cards : Node → List Gpu → Node
with_cards n gs = record n { snapshot = record n.snapshot { gpus = gs } }

-- The order of the list.
abbrev pub node_order : (String → String → Ordering) → String → Node → Node → Ordering
node_order locale_compare chosen a b =
    if chosen == "idle"
    then compare (count (λ g. idle g b) b.snapshot.gpus) (count (λ g. idle g a) a.snapshot.gpus)
    else if chosen == "fault"
    then compare (count bad b.snapshot.gpus) (count bad a.snapshot.gpus)
    else locale_compare a.name b.name

module _ (lower : String → String) where
  abbrev pub node_text : Node → String
  node_text n = n.name & " " & n.snapshot.hostname & " " & join " " n.tags

  abbrev pub card_text : Node → Gpu → String
  card_text n g = node_text n & " " & g.name & " " & join " " (users g)

  -- The test of one card.
  unfoldable pub shows : Query → Node → Gpu → Bool
  shows q n g =
      (lower q.search == "" || includes (lower (card_text n g)) (lower q.search))
      && (q.model == "" || g.name == q.model)
      && (q.capacity == "" || capacity_key g == q.capacity)
      && passes_status q.status g n
      && (is_zero q.free || has_free q.free g.memory_total g.memory_used)

  -- A node with no matching card stays if only its own text was asked for.
  unfoldable pub stays : Query → Node → Bool
  stays q n =
      not (is_empty n.snapshot.gpus)
      || (q.search == "" || includes (lower (node_text n)) (lower q.search))
        && q.status == "all"
        && q.model == ""
        && q.capacity == ""
        && is_zero q.free

  unfoldable pub narrow : Query → Node → Node
  narrow q n = with_cards n (keep (λ g. shows q n g) n.snapshot.gpus)

  unfoldable pub selected : Query → List Node → List Node
  selected q nodes = keep (stays q) (map (narrow q) (keep (of_node q) nodes))

  unfoldable pub filtered : (String → String → Ordering) → Query → List Node → List Node
  unfolding selected
  filtered locale_compare q nodes = sort (node_order locale_compare q.sort) (selected q nodes)

-- `nodes.flatMap(…)`: all cards with their nodes.
unfoldable pub all_cards : List Node → List (Gpu × Node)
all_cards = flat_map (λ (n : Node). map (λ g. (g, n)) n.snapshot.gpus)

unfoldable pub online : List Node → ℕ
online = count (λ (n : Node). n.online)

unfoldable pub available : List Node → ℕ
unfolding all_cards
available nodes = count (λ c. idle c.0 c.1) (all_cards nodes)

unfoldable pub faults : List Node → ℕ
unfolding all_cards
faults nodes = count (λ c. c.1.online && bad c.0) (all_cards nodes)

unfoldable pub missing : List Node → ℕ
missing = total (λ (n : Node). if n.online then n.expected - length n.snapshot.gpus else 0)

-- The order of the capacities: by number, "unknown" last.
abbrev pub capacity_order : String → String → Ordering
capacity_order a b =
    if a == "unknown"
    then Ordering.gt
    else if b == "unknown"
    then Ordering.lt
    else compare (read_from 0 a) (read_from 0 b)

unfoldable pub capacities : List Node → List String
unfolding all_cards
capacities nodes = sort capacity_order (dedupe (map (λ c. capacity_key c.0) (all_cards nodes)))

unfoldable pub tags : (String → String → Ordering) → List Node → List String
tags locale_compare nodes = sort locale_compare (dedupe (flat_map (λ (n : Node). n.tags) nodes))
