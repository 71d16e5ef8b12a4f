-- ===== src/Panel/Requests.antt =====
-- The requests of the whole page: web/src/api/client.ts with the session of useSession.ts.
use card_scope.Base.{
  ◌≡◌, refl, ◌∙◌, ap, List, [], ◌∷◌, Option, none, some, String, lookup, ◌==◌, if◌then◌else◌,
}
use card_scope.Types.{User}
use card_scope.Client.{request}
use card_scope.Client.Laws.{request-token}
use card_scope.Session.Tokens.{token_of, IsBound, run_from-IsBound}
use card_scope.Panel.{Panel, Event, start, session_events, step, run}

-- The token of a user, if the user has one.
abbrev pub header_of : Option User → Option String
header_of none = none
header_of (some u) = if u.csrf == "" then none else some u.csrf

header_of-token :
    (o : Option User) → (if token_of o == "" then none else some (token_of o)) ≡ header_of o
header_of-token none = refl
header_of-token (some u) = refl

run_panel-IsBound : (p : Panel) (es : List Event) → IsBound p.session → IsBound (run p es).session
unfolding run step
run_panel-IsBound p [] h = h
run_panel-IsBound p (e ∷ es) h =
    run_panel-IsBound (step p e) es (run_from-IsBound p.session (session_events p e) h)

-- Whatever happened on the page, each request carries the token of the user who is signed in then,
-- and none when nobody is or the user has no token.
pub request-user {ℓ} :
    {B : Type ℓ} (es : List Event) (path method : String) (body : Option B)
    → let s = (run start es).session in
      lookup "X-CSRF-Token" (request s.csrf path method body).headers ≡ header_of s.user
request-user es path method body =
    let s = (run start es).session in
    request-token s.csrf path method body
    ∙ ap (λ (t : String). if t == "" then none else some t) (run_panel-IsBound start es refl)
    ∙ header_of-token s.user
