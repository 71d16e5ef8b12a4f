-- ===== src/Session.antt =====
-- web/src/features/auth/useSession.ts: who is signed in, and the token that goes with it.
--
-- The hook's state and the token of the client, as the answers and the events change them. An
-- answer that comes after the hook's cleanup is dropped by its flag `active`.
pub mod Tokens
use card_scope.Base.{Bool, true, false, List, [], ◌∷◌, Option, none, some, String, if◌then◌else◌}
use card_scope.Types.{User}
use card_scope.Client.{Result, value, failed}

pub record Session : Type 0 where
  pub user : Option User
  pub ready : Bool
  pub csrf : String
  pub active : Bool

abbrev pub first : Session
first = record { user = none; ready = false; csrf = ""; active = true }

abbrev pub sign_in : User → Session → Session
sign_in u s = record s { csrf = u.csrf; user = some u }

abbrev pub clear_session : Session → Session
clear_session s = record s { csrf = ""; user = none }

-- What happens: the answer to GET /me, a sign-in by the form, the event "auth-expired", the answer
-- to POST /logout, and the cleanup of the effect.
pub data Event : Type 0 where
  me : Result User → Event
  signed_in : User → Event
  expired : Event
  logout : Result (Unit {0}) → Event
  cleanup : Event

abbrev pub on_me : Result User → Session → Session
on_me (value u) s = sign_in u s
on_me (failed e) s = s

-- A rejected logout leaves the session as it was.
abbrev pub on_logout : Result (Unit {0}) → Session → Session
on_logout (value _) s = clear_session s
on_logout (failed e) s = s

-- After the cleanup the listener for "auth-expired" is gone.
unfoldable pub step : Session → Event → Session
step s (me r) = if s.active then record (on_me r s) { ready = true } else s
step s (signed_in u) = sign_in u s
step s expired = if s.active then clear_session s else s
step s (logout r) = on_logout r s
step s cleanup = record s { active = false }

unfoldable pub run : Session → List Event → Session
run s [] = s
run s (e ∷ es) = run (step s e) es
