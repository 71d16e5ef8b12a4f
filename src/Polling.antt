-- ===== src/Polling.antt =====
-- web/src/features/nodes/useNodes.ts: the list of nodes, polled from the hub.
--
-- The state of the hook and its two counters, with the requests under way and the timer. The
-- answers may come in any order; each is an event that names its request. `refresh` is called by
-- the polling loop and by the page. A loop that was disposed is one of an earlier generation,
-- since its cleanup counts the generation up.
pub mod Pendings
pub mod Past
pub mod Freshness
pub mod SignedOut
pub mod Liveness
pub mod Expiry
pub mod Stops
pub mod Silence
use card_scope.Base.{
  ℕ, suc, ◌+◌, Bool, true, false, not, ◌&&◌, List, [], ◌∷◌, ◌++◌, Option, none, some, String,
  is_some, nat_eq, keep, find, if◌then◌else◌,
}
use card_scope.Types.{User, Node}
use card_scope.Client.{Result, value, failed}

-- A request under way: the counters that its call of `refresh` saw, and whether the polling loop
-- waits for it.
pub record Pending : Type 0 where
  pub session : ℕ
  pub request : ℕ
  pub polled : Bool

pub record Store : Type 0 where
  pub user : Option User
  pub nodes : List Node
  pub updated : ℕ
  pub error : String
  pub generation : ℕ
  pub latest_request : ℕ
  pub pending : List Pending
  pub timer : Bool

-- Before the first effect has run.
abbrev pub first : Store
first = record {
  user = none;
  nodes = [];
  updated = 0;
  error = "";
  generation = 0;
  latest_request = 0;
  pending = [];
  timer = false;
}

-- The part of `refresh` before its `await`, called by a closure that saw a user.
unfoldable pub send : Bool → Store → Store
send polled s = record s {
  latest_request = s.latest_request + 1;
  pending =
      record { session = s.generation; request = s.latest_request + 1; polled = polled }
      ∷ s.pending;
}

-- `refresh` of a closure: nothing is sent where it saw no user.
unfoldable pub refresh : Option User → Bool → Store → Store
refresh none polled s = s
refresh (some u) polled s = send polled s

-- `current()`.
abbrev pub is_current : Pending → Store → Bool
is_current p s = nat_eq p.session s.generation && nat_eq p.request s.latest_request

-- The part of `refresh` after its `await`, at the time `now`.
unfoldable pub receive : Pending → Result (List Node) → ℕ → Store → Store
receive p (value found) now s =
    if is_current p s then record s { nodes = found; updated = now; error = "" } else s
receive p (failed message) now s = if is_current p s then record s { error = message } else s

-- The part of `tick` after its `await`: the timer is set unless the loop was disposed.
unfoldable pub rearm : Pending → Store → Store
rearm p s = if p.polled && nat_eq p.session s.generation then record s { timer = true } else s

-- The cleanup of the effect.
unfoldable pub dispose : Store → Store
dispose s = record s { generation = s.generation + 1; timer = false }

-- The effect: a new generation, which clears the list if nobody is signed in, and else starts the
-- polling loop.
unfoldable pub effect : Option User → Store → Store
effect none s = record s {
  user = none;
  generation = s.generation + 1;
  nodes = [];
  updated = 0;
  error = "";
}
effect (some u) s = send true (record s { user = some u; generation = s.generation + 1 })

abbrev pub without : ℕ → List Pending → List Pending
without r = keep (λ (p : Pending). not (nat_eq p.request r))

-- What happens: the user changes; the page calls `refresh` by the closure of the last render, or
-- by one that an earlier render left behind; the answer to a request comes; the timer fires; the
-- page sets the error.
pub data Event : Type 0 where
  user_changed : Option User → Event
  refreshed : Event
  late_refresh : Option User → Event
  answered : ℕ → Result (List Node) → ℕ → Event
  timer_fired : Event
  error_set : String → Event

-- An answer comes to a request that is under way.
abbrev pub answer : Option Pending → Result (List Node) → ℕ → Store → Store
answer none r now s = s
answer (some p) r now s =
    rearm p (receive p r now (record s { pending = without p.request s.pending }))

unfoldable pub step : Store → Event → Store
step s (user_changed u) = effect u (dispose s)
step s refreshed = refresh s.user false s
step s (late_refresh u) = refresh u false s
step s (answered r result now) =
    answer (find (λ (p : Pending). nat_eq p.request r) s.pending) result now s
step s timer_fired = if s.timer then refresh s.user true (record s { timer = false }) else s
step s (error_set message) = record s { error = message }

unfoldable pub run : Store → List Event → Store
run s [] = s
run s (e ∷ es) = run (step s e) es
