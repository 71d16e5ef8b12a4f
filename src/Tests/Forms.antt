-- ===== src/Tests/Forms.antt =====
-- The forms: a node's tags, the statistics, the resources, the lists and the time zone.
use mathlib.Core.List.{Memᴰ}
use card_scope.Base.{
  All, List, ℕ, ◌≡◌, refl, true, not, ◌&&◌, ◌||◌, [], ◌∷◌, none, some, String, has, show, dedupe,
  dedupe_from, arith, eq_iff, ◌==◌,
}
use card_scope.Base.Decimal.{read_from}
use card_scope.Types.{Net}
use card_scope.Tags.{trim_start, trim_end, trim, Editor, Patch, collect_tags, submit}
use card_scope.Tags.Laws.{AreTags, submit_lem}
use card_scope.Stats.{Choice, Row, range}
use card_scope.Stats.Laws.{opposite}
use card_scope.Resources.{Fraction}
use card_scope.Select
use card_scope.Select.Shown.{IsValue, Act, events_of, latest, picked, run-IsValue}
use card_scope.Settings.{account_list}
use card_scope.Time.{ahead, hours, minutes, time_zone_label}
use card_scope.Tests.Data.{by_length, net}

abbrev editor : Editor
editor = record { tags = "lab" ∷ []; input = " fast "; error = "" }

abbrev sent : Patch
sent = record { name = "n1"; expected = 3; networks = []; tags = "lab" ∷ "fast" ∷ [] }

collect_test : (collect_tags editor).1 ≡ some ("lab" ∷ "fast" ∷ [])
unfolding collect_tags trim trim_start trim_end dedupe dedupe_from
collect_test = refl

submit_test : (submit "n1" 3 [] editor).1 ≡ some sent
unfolding submit collect_tags trim trim_start trim_end dedupe dedupe_from
submit_test = refl

editor-AreTags : AreTags editor.tags
editor-AreTags = record {
  each = (
    record {
      some_text = λ e. ground (arith, eq_iff "lab" "");
      short = ground arith;
      printable = refl;
    },
    tt,
  );
  distinct = (refl, tt);
  few = ground arith;
}

submit_lem_example :
    AreTags sent.tags
    × ((t : String)
        → has sent.tags t
          ≡ (has editor.tags t || not (trim editor.input == "") && trim editor.input == t))
submit_lem_example = submit_lem "n1" 3 [] editor editor-AreTags submit_test

abbrev to_time : ℕ
to_time = 700000000

abbrev week : Choice
week = record { period = "7"; start = none; finish = none; node = ""; model = ""; user = "" }

range_test : range 700000000 week ≡ some (95200000, 700000000)
unfolding range read_from
range_test = refl

abbrev row : String → ℕ → Row
row user hours = record {
  node = "n1";
  uid = user;
  user = user;
  hours = hours;
  cards = 1;
  coverage = 100;
  details = [];
}

by_length-opposite : (a b : String) → by_length b a ≡ opposite (by_length a b)
by_length-opposite a b = ground arith

abbrev bo_key : String
bo_key = "n1/bo"

abbrev most : Fraction
most = record { part = 8000; whole = 100 }

time_zone_label_test : time_zone_label "Asia/Kolkata" (ahead 330) ≡ "Asia/Kolkata · UTC+05:30"
unfolding time_zone_label hours minutes show
time_zone_label_test = refl

abbrev main_net : Net
main_net = net "eth10" true

-- The list of the accounts: the administrator is chosen, and the form is reset.
abbrev chosen_account : List Act
chosen_account = none ∷ some "admin" ∷ []

select : Unit {0}
unfolding Select.items Select.options Select.reset_value Select.first Select.run Select.step
    Select.on_value_change Select.on_reset Select.slice_from Select.form_data Select.selected
select = tt

chosen_account_test :
    Select.form_data account_list
      (Select.run account_list (Select.first account_list) (events_of chosen_account)).internal
    ≡ ("username", "admin") ∷ []
unfolding select
chosen_account_test = refl

run-IsValue_example :
    let p = account_list in
    let s = Select.run p (Select.first p) (events_of chosen_account) in
    (Select.selected p s.internal ≡ "admin")
    × IsValue p "admin"
    × (s.handed ≡ "admin" ∷ [])
    × All (IsValue p) s.handed
    × (Select.form_data p s.internal ≡ ("username", "admin") ∷ [])
unfolding select latest picked
run-IsValue_example =
    run-IsValue account_list chosen_account refl (_, Memᴰ.head refl, refl)
      (tt, ((_, Memᴰ.tail (Memᴰ.head refl)), tt))
