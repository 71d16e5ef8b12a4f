-- ===== src/Session/Tokens.antt =====
-- The token of web/src/features/auth/useSession.ts belongs to the user who is signed in.
use card_scope.Base.{◌≡◌, refl, List, [], ◌∷◌, Option, none, some, String, arith}
use card_scope.Types.{User}
use card_scope.Client.{value, failed}
use card_scope.Session.{Session, first, Event, me, signed_in, expired, logout, cleanup, step, run}

abbrev pub token_of : Option User → String
token_of none = ""
token_of (some u) = u.csrf

abbrev pub IsBound : Session → Type 0
IsBound s = s.csrf ≡ token_of s.user

step-IsBound : (s : Session) (e : Event) → IsBound s → IsBound (step s e)
unfolding step
step-IsBound s (me (value u)) h = ground arith
step-IsBound s (me (failed _)) h = ground arith
step-IsBound s (signed_in u) h = refl
step-IsBound s expired h = ground arith
step-IsBound s (logout (value _)) h = refl
step-IsBound s (logout (failed _)) h = h
step-IsBound s cleanup h = h

pub run_from-IsBound : (s : Session) (es : List Event) → IsBound s → IsBound (run s es)
unfolding run
run_from-IsBound s [] h = h
run_from-IsBound s (e ∷ es) h = run_from-IsBound (step s e) es (step-IsBound s e h)

-- Whatever happens, and in whatever order, the token that the client holds is that of the user who
-- is signed in, and it is empty when nobody is.
pub run-IsBound : (es : List Event) → IsBound (run first es)
run-IsBound es = run_from-IsBound first es refl
