-- ===== src/Tests/Dialogs.antt =====
-- The dialog of a card, the forms of the sign-in, and sizes.
use mathlib.Core.List.{Perm, Permᴰ}
use card_scope.Base.{ℕ, ◌≡◌, ◌≢◌, refl, true, false, List, [], ◌∷◌, none, some}
use card_scope.Types.{Node, LoginCopy}
use card_scope.Client.{value, failed}
use card_scope.Session
use card_scope.Summary.{summarize}
use card_scope.Summary.Order.{online, figure, figure_of, of_nodes, summarize-figure_of}
use card_scope.Detail
use card_scope.Detail.{Point, GpuDetail, mounted}
use card_scope.Detail.Rounds.{IsTogether, IsOutcome}
use card_scope.Detail.Outcome.{HistoryCame, EventsCame, ErrorCame, run-IsTogether, run-IsOutcome}
use card_scope.Login
use card_scope.Login.Laws.{login_lem}
use card_scope.CopySettings
use card_scope.CopySettings.Laws.{saved_lem, late_typing_saved}
use card_scope.Tests.Data.{by_length, ann, first_node, second_node, cluster}

-- Another range is chosen before the second answer to the first one comes.
abbrev points : ℕ → List Point
points n = record { at = n; util = some 5; memory = none } ∷ []

abbrev hurried : List Detail.Event
hurried =
    Detail.history_answered 1 (value (points 1))
    ∷ Detail.hours_chosen "1" 1000000000000
    ∷ Detail.events_answered 2 (value [])
    ∷ Detail.events_answered 1 (value [])
    ∷ Detail.history_answered 2 (value (points 2))
    ∷ []

abbrev hurried_end : GpuDetail
hurried_end = Detail.run (mounted "n1" "a" 5 1000000000000) hurried

dialog : Unit {0}
unfolding Detail.run mounted Detail.begin Detail.step Detail.query Detail.on_history
    Detail.on_events Detail.put_together Detail.settle
dialog = tt

hurried_test : (hurried_end.history ≡ points 2) × (hurried_end.pending ≡ [])
unfolding dialog
hurried_test = (refl, refl)

run-IsTogether_example :
    IsTogether (HistoryCame hurried) (EventsCame hurried) (ErrorCame hurried) hurried_end
run-IsTogether_example = run-IsTogether "n1" "a" 5 1000000000000 hurried

run-IsOutcome_example :
    IsOutcome (HistoryCame hurried) (EventsCame hurried) (ErrorCame hurried) hurried_end
unfolding dialog
run-IsOutcome_example = run-IsOutcome "n1" "a" 5 1000000000000 hurried refl

abbrev user_sent : List Login.Event
user_sent =
    Login.submitted
    ∷ Login.login_answered (failed "no")
    ∷ Login.copy_answered (failed "off")
    ∷ Login.submitted
    ∷ []

sign_in : Unit {0}
unfolding Login.run Login.step Login.session_events Session.run Session.step
sign_in = tt

user_sent_test :
    ((Login.run Login.first user_sent).busy ≡ true) × ((Login.run Login.first user_sent).error ≡ "")
unfolding sign_in
user_sent_test = (refl, refl)

login_lem_example :
    let f = Login.run Login.first user_sent in
    let s = Session.run Session.first (Login.session_events f (Login.login_answered (value ann))) in
    (s.user ≡ some ann)
    × (s.csrf ≡ ann.csrf)
    × ((Login.step f (Login.login_answered (value ann))).error ≡ "")
    × ((Login.step f (Login.login_answered (value ann))).busy ≡ false)
login_lem_example = login_lem user_sent Session.first (value ann) user_sent_test.0

abbrev texts : LoginCopy
texts = record { eyebrow = ""; title = "GPU"; description = ""; caption = "" }

abbrev saving : List CopySettings.Event
saving =
    CopySettings.loaded (value texts)
    ∷ CopySettings.typed CopySettings.title "CardScope"
    ∷ CopySettings.submitted
    ∷ CopySettings.answered (value tt)
    ∷ []

copy : Unit {0}
unfolding CopySettings.run CopySettings.step CopySettings.with_field
copy = tt

saving_test : (CopySettings.run CopySettings.first saving).saved ≡ true
unfolding copy
saving_test = refl

saved_lem_example :
    (CopySettings.run CopySettings.first saving).sent
    ≡ (CopySettings.run CopySettings.first saving).copy
unfolding copy CopySettings.Laws.IsCalm
saved_lem_example = saved_lem saving (refl, (refl, (tt, (tt, tt)))) saving_test

late_typing_saved_example :
    let g =
      CopySettings.run
        (record CopySettings.first { copy = some texts })
        (CopySettings.submitted
          ∷ CopySettings.typed CopySettings.caption "new"
          ∷ CopySettings.answered (value tt)
          ∷ []) in
    (g.saved ≡ true)
    × (g.copy ≡ some (CopySettings.with_field CopySettings.caption "new" texts))
    × (g.sent ≡ some texts)
    × (g.sent ≢ g.copy)
unfolding CopySettings.field
late_typing_saved_example =
    late_typing_saved (record CopySettings.first { copy = some texts }) texts CopySettings.caption
      "new" refl refl (λ e. cc e)

summarize-figure_of_example :
    figure online (summarize by_length cluster) ≡ figure_of online (of_nodes cluster)
summarize-figure_of_example = summarize-figure_of by_length online cluster

abbrev reversed : List Node
reversed = second_node ∷ first_node ∷ []

reversed-Perm : Perm cluster reversed
reversed-Perm = ∣ Permᴰ.swap refl refl ∣₁
