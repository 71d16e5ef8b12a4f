-- ===== src/Tests/Grid.antt =====
-- The dashboard's grid and issues, and the form of a node on its page.
use card_scope.Base.{◌≡◌, refl, false, List, [], ◌∷◌, indicator, is_zero, dedupe, dedupe_from}
use card_scope.Client.{failed}
use card_scope.View.Grid.{short_name}
use card_scope.Card.Content.{without_first}
use card_scope.Select.{slice_from}
use card_scope.Tags.{collect_tags, submit, trim, trim_start, trim_end}
use card_scope.Shell
use card_scope.NodeSettings.{Event, submitted, saved, asked, confirmed, under_way, step, run}
use card_scope.NodeSettings.Laws.{opened, interlude, run-indicator}
use card_scope.Tests.Data.{first_node}

short_name_test : short_name "Nvidia  RTX 4090" ≡ "RTX 4090"
unfolding short_name slice_from trim_start
short_name_test = refl

without_first_test : without_first "NVIDIA " "An NVIDIA A100" ≡ "An A100"
unfolding without_first slice_from
without_first_test = refl

-- A save that is rejected, and then a new code.
abbrev reissued : List Event
reissued = submitted "n1" 3 ∷ saved (failed "节点名称") ∷ asked "enrollment" ∷ confirmed ∷ []

form : Unit {0}
unfolding run step submit collect_tags trim trim_start trim_end dedupe dedupe_from Shell.step
    Shell.perform
form = tt

reissued_test :
    (is_zero (run (opened first_node) reissued).form.confirming ≡ false)
    × ((run (opened first_node) reissued).form.save_error ≡ "节点名称")
unfolding form
reissued_test = (refl, refl)

run-indicator_example :
    let p = run (opened first_node) reissued in
    let q = run p (interlude (Shell.rejected "503")) in
    (under_way p.form ≡ indicator p.frame.pending) × (q.frame.pending ≡ false) × (q.form ≡ p.form)
run-indicator_example =
    run-indicator first_node reissued (Shell.rejected "503") (refl, (refl, (refl, (refl, tt))))
