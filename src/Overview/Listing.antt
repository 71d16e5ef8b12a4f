-- ===== src/Overview/Listing.antt =====
-- web/src/app/App.tsx: the list of the nodes, and a click on one of its cards.
use card_scope.Base.{List, map, Option, find, ◌==◌}
use card_scope.Types.{Gpu, Node}
use card_scope.Shell
use card_scope.Shell.{gpu_opened}

-- The nodes of a NodeCard: the one with the cards that match, and the whole one, which the source
-- takes to be there.
pub record Listed : Type 0 where
  pub node : Node
  pub full_node : Option Node

unfoldable pub full_node : List Node → Node → Option Node
full_node nodes n = find (λ (v : Node). v.id == n.id) nodes

unfoldable pub node_list : List Node → List Node → List Listed
node_list nodes matching = map (λ n. record { node = n; full_node = full_node nodes n }) matching

-- `onGPU`.
unfoldable pub on_gpu : Node → Gpu → Shell.Event
on_gpu n g = gpu_opened n.id g.uuid
