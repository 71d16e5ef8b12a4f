-- ===== src/Tests/Shell.antt =====
-- The frame of the page, and the fetching of the statistics.
use mathlib.Core.List.{Memᴰ}
use card_scope.Base.{ℕ, ◌+◌, ◌≡◌, refl, true, false, List, [], ◌∷◌, map, some, has, indicator}
use card_scope.Client.{value, failed}
use card_scope.Summary.{summarize}
use card_scope.Summary.Loops.{over_cards}
use card_scope.Overview.{faults, missing}
use card_scope.Shell.{
  Event, at_first, run, step, perform, dialog, enrollment, submitted, created, refreshed,
  task_started, task_ended, add_clicked, well, Tile, tiles,
}
use card_scope.Shell.Tasks.{run_released}
use card_scope.Shell.Codes.{recent_codes, dialog_recent}
use card_scope.Shell.Tiles.{is_only_hot, tiles_lem}
use card_scope.Stats.Fetching.{
  Query, Answer, Page, unfetched, begin, send, settle, Reach, opened, next, fired, answered, chosen,
}
use card_scope.Stats.Fetching.Currency.{shown_current}
use card_scope.Trend
use card_scope.Trend.Alive.{fetchers, trend_alive}
use card_scope.Tests.Data.{by_length, cluster}

-- A node is created while another task, begun before, still runs.
abbrev overlapping : List Event
overlapping =
    task_started ∷ add_clicked ∷ submitted ∷ created (value "k7") ∷ refreshed ∷ task_ended well ∷ []

overlapping_test : (run at_first overlapping).tasks ≡ []
unfolding run step perform
overlapping_test = refl

-- The buttons are free although the first task is not over.
early_test : (run at_first (task_started ∷ submitted ∷ created (failed "e") ∷ [])).pending ≡ false
unfolding run step perform
early_test = refl

run_released_example : (run at_first overlapping).pending ≡ false
run_released_example = run_released overlapping overlapping_test

code_test : dialog (run at_first overlapping) ≡ enrollment "k7"
unfolding run step perform dialog
code_test = refl

dialog_recent_example : has (recent_codes [] overlapping) "k7" ≡ true
dialog_recent_example = dialog_recent overlapping code_test

tiles_lem_example :
    (map (λ (t : Tile). t.value) (tiles cluster)
      ≡ (summarize by_length cluster).online
        ∷ (summarize by_length cluster).detected
        ∷ (summarize by_length cluster).counts.idle
        ∷ (faults cluster + missing cluster)
        ∷ [])
    × ((summarize by_length cluster).counts.attention
        ≡ faults cluster + over_cards (λ g n. indicator (is_only_hot g n)) cluster)
tiles_lem_example = tiles_lem by_length cluster

abbrev first_query : Query
first_query = ("user", "") ∷ []

abbrev second_query : Query
second_query = ("user", "ann") ∷ []

abbrev answer_of : ℕ → Answer
answer_of k = record { users = []; incomplete = false; from = 0; to = k }

-- An answer to a query of one choice is the first one, and the other is the second one.
abbrev Answers : Query → Answer → Type 0
Answers q a = (q ≡ second_query) × (a.to ≡ 2)

-- The second query is chosen before the answer to the first one comes; then its own answer comes.
abbrev sent : Page
sent =
    send second_query
      (begin (some second_query) (send first_query (begin (some first_query) unfetched)))

abbrev shown : Page
shown = settle (record { run = 2; query = second_query }) (value (answer_of 2)) sent

shown_way : Reach Answers (some first_query) shown
unfolding begin send settle
shown_way =
    next
      (next
        (next (next opened (fired first_query (begin (some first_query) unfetched) refl refl))
          (chosen (some second_query) (send first_query (begin (some first_query) unfetched))))
        (fired second_query
          (begin (some second_query) (send first_query (begin (some first_query) unfetched))) refl
          refl))
      (answered (record { run = 2; query = second_query }) (answer_of 2) sent (Memᴰ.head refl)
        (refl, refl))

shown_test : shown.result ≡ some (answer_of 2)
unfolding begin send settle
shown_test = refl

shown_current_example : (q : Query) × (shown.query ≡ some q) × Answers q (answer_of 2)
shown_current_example = shown_current Answers shown_way shown_test

-- A refused answer, a retry, and then an answer to the first request that comes too late.
abbrev retries : List Trend.Event
retries =
    Trend.answered 1 (failed "503")
    ∷ Trend.retried
    ∷ Trend.answered 1 (value [])
    ∷ Trend.answered 2 (value [])
    ∷ []

retries_test : (Trend.run Trend.mounted retries).timer ≡ true
unfolding Trend.run Trend.step Trend.settle Trend.begin
retries_test = refl

trend_alive_example : fetchers (Trend.run Trend.mounted retries) ≡ 1
trend_alive_example = trend_alive retries
