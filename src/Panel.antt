-- ===== src/Panel.antt =====
-- web/src/app/App.tsx with its two hooks: useSession.ts says who is signed in, useNodes.ts follows,
-- and an answer of the client with status 401 ends the session.
--
-- The state is that of the two hooks. An event of the page gives each hook the events that it
-- causes there, in their order. React runs the effect of useNodes when the object `user` changes;
-- a sign-in always brings a new object, and clearing the session twice changes nothing.
pub mod Users
pub mod Expiry
pub mod Requests
use card_scope.Base.{
  ℕ, Bool, true, false, ◌&&◌, List, [], ◌∷◌, ◌++◌, Option, none, some, String, is_some, find,
  nat_eq, if◌then◌else◌,
}
use card_scope.Types.{User, Node}
use card_scope.Client.{Response, Result, value, failed, settle}
use card_scope.Session
use card_scope.Session.{Session, me, signed_in, expired, logout, cleanup}
use card_scope.Polling
use card_scope.Polling.{Pending, Store, user_changed, answered}

pub record Panel : Type 0 where
  pub session : Session
  pub store : Store

abbrev pub start : Panel
start = record { session = Session.first; store = Polling.first }

-- What happens: an event of the session; one of the page or the timer; the answer to a request for
-- the nodes, at the time `now`.
pub data Event : Type 0 where
  session_event : Session.Event → Event
  page_event : Polling.Event → Event
  nodes_answered : ℕ → Response (List Node) → ℕ → Event

-- Whether an event of the session calls `setUser`.
abbrev pub sets_user : Session → Session.Event → Bool
sets_user s (me (value u)) = s.active
sets_user s (me (failed e)) = false
sets_user s (signed_in u) = true
sets_user s expired = s.active
sets_user s (logout (value _)) = true
sets_user s (logout (failed e)) = false
sets_user s cleanup = false

abbrev pub changes : Bool → Option User → Option User → List Polling.Event
changes false old new = []
changes true none none = []
changes true none (some u) = user_changed (some u) ∷ []
changes true (some v) none = user_changed none ∷ []
changes true (some v) (some u) = user_changed (some u) ∷ []

abbrev pub followed : Session → Session.Event → List Polling.Event
followed s e = changes (sets_user s e) s.user (Session.step s e).user

-- Only a request under way is answered.
abbrev pub is_asked : ℕ → Store → Bool
is_asked r s = is_some (find (λ (p : Pending). nat_eq p.request r) s.pending)

-- A page or timer event that is none of the session's: the user changes by the session alone.
abbrev pub own_events : Polling.Event → List Polling.Event
own_events (user_changed u) = []
own_events (answered r result now) = []
own_events e = e ∷ []

abbrev pub is_expiring : ℕ → Response (List Node) → Store → Bool
is_expiring r response s = is_asked r s && (settle "/nodes" response).1

unfoldable pub session_events : Panel → Event → List Session.Event
session_events p (session_event e) = e ∷ []
session_events p (page_event e) = []
session_events p (nodes_answered r response now) =
    if is_expiring r response p.store then expired ∷ [] else []

-- The rejection reaches the `catch` of `refresh` before React runs the effect of the new user.
unfoldable pub store_events : Panel → Event → List Polling.Event
store_events p (session_event e) = followed p.session e
store_events p (page_event e) = own_events e
store_events p (nodes_answered r response now) =
    answered r (settle "/nodes" response).0 now
    ∷ (if is_expiring r response p.store then followed p.session expired else [])

unfoldable pub step : Panel → Event → Panel
step p e = record {
  session = Session.run p.session (session_events p e);
  store = Polling.run p.store (store_events p e);
}

unfoldable pub run : Panel → List Event → Panel
run p [] = p
run p (e ∷ es) = run (step p e) es
