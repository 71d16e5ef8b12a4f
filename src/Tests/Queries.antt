-- ===== src/Tests/Queries.antt =====
-- The overview: its query, its order, and what the dashboard's links lead to.
use mathlib.Core.List.{Memᴰ}
use card_scope.Base.{
  ◌≡◌, refl, ◌≢◌, String, All, length, total, arith, eq_iff, show, [], ◌∷◌, false, true,
}
use card_scope.Base.Json.{stringify_pair, quote_char}
use card_scope.Base.Sorting.{is_gt, insert, sort}
use card_scope.Types.{Node}
use card_scope.Status
use card_scope.Status.{capacity_key, bad}
use card_scope.Summary.{
  Model, model_key, gpu_state, add_model, gpu_step, gpu_loop, node_step, node_loop, summarize,
}
use card_scope.Overview.{Query, empty_query, selected, shows, stays, narrow, filtered}
use card_scope.Overview.Matching.{IsListed, filtered-IsListed, shown, cards_shown-filtered}
use card_scope.Overview.Choices.{tag_options}
use card_scope.Overview.Availability.{model_link, model_link-shows}
use card_scope.Tests.Data.{by_length, same_case, cluster}

summary : Unit {0}
unfolding summarize node_loop gpu_loop gpu_step node_step add_model gpu_state Status.idle bad
    capacity_key show sort insert model_key stringify_pair quote_char
summary = tt

abbrev row : Model
row = record { key = "[\"RTX\",\"24\"]"; name = "RTX"; capacity = "24"; total = 3; idle = 1 }

row_listed : Memᴰ row (summarize by_length cluster).models
unfolding summary
row_listed = Memᴰ.head refl

abbrev lab_query : Query
lab_query = record empty_query { tag = "lab"; model = "RTX"; sort = "idle" }

query_test :
    total (λ (n : Node). length n.snapshot.gpus) (filtered same_case by_length lab_query cluster)
    ≡ 3
unfolding filtered selected shows stays narrow summary
query_test = refl

by_length_lem : (a b : String) → is_gt (by_length a b) ≡ true → is_gt (by_length b a) ≡ false
by_length_lem a b h = ground arith

filtered-IsListed_example :
    All (IsListed lab_query) (filtered same_case by_length lab_query cluster)
filtered-IsListed_example = filtered-IsListed same_case by_length lab_query cluster

cards_shown-filtered_example :
    total (λ (n : Node). length n.snapshot.gpus) (filtered same_case by_length lab_query cluster)
    ≡ total (shown same_case lab_query) cluster
cards_shown-filtered_example = cards_shown-filtered same_case by_length lab_query cluster

row_named : row.name ≢ ""
row_named e = ground (arith, eq_iff "RTX" "")

model_link-shows_example :
    total
      (λ (n : Node). length n.snapshot.gpus)
      (filtered same_case by_length (model_link row) cluster)
    ≡ row.idle
model_link-shows_example =
    model_link-shows same_case refl by_length cluster row row_listed row_named

removed_test :
    tag_options "old" ("lab" ∷ []) ≡ ("", "全部标签") ∷ ("lab", "lab") ∷ ("old", "old（已移除）") ∷ []
unfolding tag_options
removed_test = refl
