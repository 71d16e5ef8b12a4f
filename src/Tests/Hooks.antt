-- ===== src/Tests/Hooks.antt =====
-- The session, the client and the polling of the nodes.
use mathlib.Core.List.{Memᴰ}
use card_scope.Base.{◌≡◌, refl, true, false, List, [], ◌∷◌, none, some, is_some}
use card_scope.Client.{Response, value, failed}
use card_scope.Polling
use card_scope.Polling.{
  Store, Event, user_changed, refreshed, late_refresh, answered, timer_fired, error_set, send,
  refresh, receive, rearm, dispose, effect,
}
use card_scope.Polling.Freshness.{IsFresh, run-IsFresh}
use card_scope.Polling.SignedOut.{signed_out_blank}
use card_scope.Polling.Liveness.{drivers, polling_alive}
use card_scope.Polling.Stops.{Answer, coming, IsAtRest, coming-IsAtRest}
use card_scope.Tests.Data.{ann, cluster}

-- The answer to the first request comes after that to the second one.
abbrev overtaken : List Event
overtaken =
    user_changed (some ann)
    ∷ refreshed
    ∷ answered 2 (value cluster) 50
    ∷ answered 1 (value []) 60
    ∷ []

-- An error, and then the next round of the loop.
abbrev troubled : List Event
troubled = user_changed (some ann) ∷ answered 1 (failed "503") 10 ∷ timer_fired ∷ []

-- A sign-out while a request is under way.
abbrev left_early : List Event
left_early = user_changed (some ann) ∷ user_changed none ∷ answered 1 (value cluster) 50 ∷ []

polling : Unit {0}
unfolding Polling.run Polling.step send refresh receive rearm dispose effect
polling = tt

overtaken_test :
    ((Polling.run Polling.first overtaken).nodes ≡ cluster)
    × ((Polling.run Polling.first overtaken).updated ≡ 50)
unfolding polling
overtaken_test = (refl, refl)

troubled_test : is_some (Polling.run Polling.first troubled).user ≡ true
unfolding polling
troubled_test = refl

left_early_test : (Polling.run Polling.first left_early).user ≡ none
unfolding polling
left_early_test = refl

run-IsFresh_example : IsFresh 0 Polling.first overtaken
run-IsFresh_example = run-IsFresh overtaken

signed_out_blank_example :
    ((Polling.run Polling.first left_early).nodes ≡ [])
    × ((Polling.run Polling.first left_early).updated ≡ 0)
signed_out_blank_example = signed_out_blank left_early (tt, (tt, (tt, tt))) left_early_test

polling_alive_example : drivers (Polling.run Polling.first troubled) ≡ 1
polling_alive_example = polling_alive troubled troubled_test

-- Somebody signs out while two requests are under way, which are answered in the wrong order.
abbrev left_twice : List Event
left_twice = user_changed (some ann) ∷ refreshed ∷ user_changed none ∷ []

abbrev tardy : List Answer
tardy =
    record { request = 2; result = value cluster; now = 50 }
    ∷ record { request = 1; result = failed "503"; now = 60 }
    ∷ []

left_twice_test : (Polling.run Polling.first left_twice).user ≡ none
unfolding polling
left_twice_test = refl

coming-IsAtRest_example :
    IsAtRest (Polling.run (Polling.run Polling.first left_twice) (coming tardy))
unfolding polling
coming-IsAtRest_example =
    coming-IsAtRest left_twice tardy (tt, (tt, (tt, tt))) left_twice_test
      ((_, Memᴰ.head refl, refl), ((_, Memᴰ.tail (Memᴰ.head refl), refl), tt))

abbrev refused : Response (Unit {0})
refused = record { ok = false; status = 401; content = tt; error = "" }
