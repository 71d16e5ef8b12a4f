-- ===== src/Tests/Filters.antt =====
-- The lists above the nodes.
use mathlib.Core.List.{Memᴰ}
use card_scope.Base.{
  map, All, some, ◌<◌, ◌≡◌, ◌≢◌, refl, ◌↔◌, true, false, [], inl, length, arith, eq_iff, String,
  dedupe,
}
use card_scope.Base.Sorting.{sort}
use card_scope.Base.Sets.{IsDistinct}
use card_scope.Types.{Gpu, Node}
use card_scope.Overview.{Query, empty_query, filtered, selected, shows, stays, narrow, all_cards}
use card_scope.Overview.Choices.{models, opened_card}
use card_scope.Overview.Filters.{by_tag, by_model, by_capacity, children, list}
use card_scope.Overview.Offers.{offers}
use card_scope.Overview.Chosen.{cards_of, listed, found_by, offers-shows}
use card_scope.Overview.Listing.{full_node, on_gpu}
use card_scope.Overview.Clicks.{clicked_lem}
use card_scope.Overview.Gone.{gone_lem}
use card_scope.Shell
use card_scope.Select.{items, options}
use card_scope.Tests.Data.{by_length, same_case, cluster, first_node, free_card}

abbrev rtx : String
rtx = "RTX"

rtx_named : rtx ≢ ""
rtx_named e = ground (arith, eq_iff "RTX" "")

offers-shows_example :
    ((listed same_case refl by_length by_length cluster by_model rtx ≡ true)
      ↔ (0 < cards_of (found_by same_case refl by_length by_length cluster by_model rtx)))
    × ((listed same_case refl by_length by_length cluster by_capacity rtx ≡ true)
        ↔ (0 < cards_of (found_by same_case refl by_length by_length cluster by_capacity rtx)))
    × ((listed same_case refl by_length by_length cluster by_tag rtx ≡ true)
        ↔ (0 < length (found_by same_case refl by_length by_length cluster by_tag rtx)))
offers-shows_example = offers-shows same_case refl by_length by_length cluster rtx rtx_named

-- A model whose last card is gone.
abbrev gone : Query
gone = record empty_query { model = "V100" }

named : gone.model ≢ ""
named e = ground (arith, eq_iff "V100" "")

gone_test : offers (list by_length by_length by_model gone cluster) "V100" ≡ false
unfolding list children models all_cards items options sort dedupe
gone_test = refl

gone_lem_example : filtered same_case by_length gone cluster ≡ []
gone_lem_example = gone_lem same_case by_length by_length gone cluster (inl (named, gone_test))

filters : Unit {0}
unfolding filtered selected shows stays narrow sort
filters = tt

abbrev listed_node : Node
listed_node = narrow same_case empty_query first_node

ids_test : IsDistinct (map (λ (m : Node). m.id) cluster)
ids_test = (refl, (refl, tt))

uuids_test : All (λ (m : Node). IsDistinct (map (λ (c : Gpu). c.uuid) m.snapshot.gpus)) cluster
uuids_test = ((refl, (refl, (refl, tt))), ((refl, tt), tt))

listed_test : Memᴰ listed_node (filtered same_case by_length empty_query cluster)
unfolding filters
listed_test = Memᴰ.head refl

shown_test : Memᴰ free_card listed_node.snapshot.gpus
unfolding filters
shown_test = Memᴰ.head refl

clicked_lem_example :
    (m : Node) × (full_node cluster listed_node ≡ some m)
    × (listed_node ≡ narrow same_case empty_query m)
    × (opened_card (Shell.step Shell.at_first (on_gpu listed_node free_card)).selected cluster
        ≡ some (free_card, m))
clicked_lem_example =
    clicked_lem same_case by_length empty_query cluster listed_node free_card Shell.at_first
      ids_test uuids_test listed_test shown_test
