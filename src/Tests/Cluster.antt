-- ===== src/Tests/Cluster.antt =====
-- The states of the cards, the summary, the dashboard and the node's card.
use mathlib.Core.List.{Memᴰ}
use card_scope.Base.{◌≡◌, refl, ◌↔◌, [], ◌∷◌, some, All, length, show, arith}
use card_scope.Base.Json.{stringify_pair, quote_char}
use card_scope.Base.Sorting.{insert, sort}
use card_scope.Status
use card_scope.Status.{capacity_key, users, bad, gib, round_gib}
use card_scope.Summary.{
  Model, model_key, gpu_state, add_model, gpu_step, gpu_loop, node_step, node_loop, summarize,
}
use card_scope.Summary.Classes.{Says, gpu_state-Says}
use card_scope.Summary.Rows.{IsNamed}
use card_scope.Summary.Rows.Table.{cards_of, idle_cards_of, models-row}
use card_scope.Summary.Health.{IsSound, issues-eq-nil_iff}
use card_scope.Summary.Load.{IsPercent}
use card_scope.Tests.Data.{by_length, hot_card, first_node, cluster}

summary : Unit {0}
unfolding summarize node_loop gpu_loop gpu_step node_step add_model gpu_state Status.idle bad
    capacity_key show sort insert model_key stringify_pair quote_char
summary = tt

abbrev row : Model
row = record { key = "[\"RTX\",\"24\"]"; name = "RTX"; capacity = "24"; total = 3; idle = 1 }

abbrev hot_row : Model
hot_row = record { key = "[\"A100\",\"24\"]"; name = "A100"; capacity = "24"; total = 1; idle = 0 }

rows_test : (summarize by_length cluster).models ≡ row ∷ hot_row ∷ []
unfolding summary
rows_test = refl

numbers_test :
    ((summarize by_length cluster).detected ≡ 4)
    × ((summarize by_length cluster).counts.attention ≡ 1)
    × ((summarize by_length cluster).util ≡ some (90, 3))
    × (length (summarize by_length cluster).issues ≡ 2)
unfolding summary
numbers_test = (refl, refl, refl, refl)

row_listed : Memᴰ row (summarize by_length cluster).models
unfolding summary
row_listed = Memᴰ.head refl

gpu_state-Says_example : Says (gpu_state hot_card first_node) hot_card first_node
gpu_state-Says_example = gpu_state-Says hot_card first_node

models-row_example :
    IsNamed row
    × (row.total ≡ cards_of row.name row.capacity cluster)
    × (row.idle ≡ idle_cards_of row.name row.capacity cluster)
models-row_example = models-row by_length cluster row row_listed

issues-eq-nil_iff_example : ((summarize by_length cluster).issues ≡ []) ↔ All IsSound cluster
issues-eq-nil_iff_example = issues-eq-nil_iff by_length cluster

percents : IsPercent cluster
percents = (
  (λ u e. ground arith, (λ u e. ground arith, (λ u e. ground arith, tt))),
  ((λ u e. ground arith, tt), tt),
)
