-- ===== src/Tests/Passwords.antt =====
-- The form for passwords on its page.
use card_scope.Base.{◌≡◌, refl, false, List, [], ◌∷◌, is_zero}
use card_scope.Client.{failed}
use card_scope.Shell
use card_scope.Settings.{Event, filled, submitted, answered, step, run}
use card_scope.Settings.Laws.{opened}

-- A password that the hub refuses, and another one.
abbrev twice : List Event
twice =
    filled (record { username = "admin"; password = "short-pass" })
    ∷ submitted
    ∷ answered (failed "400")
    ∷ filled (record { username = "admin"; password = "long-enough" })
    ∷ submitted
    ∷ []

twice_test :
    (is_zero (run opened twice).updating ≡ false) × ((run opened twice).frame.reported ≡ "400")
unfolding run step Shell.step Shell.perform
twice_test = (refl, refl)
