-- ===== src/Login/Laws.antt =====
-- The sign-in form of web/src/features/auth/Login.tsx with the session behind it.
use card_scope.Base.{◌≡◌, refl, true, false, List, [], ◌∷◌, some, if_both}
use card_scope.Types.{User}
use card_scope.Client.{Result, value, failed}
use card_scope.Session
use card_scope.Session.{Session}
use card_scope.Login.{
  Form, first, Event, copy_answered, submitted, login_answered, step, run, session_events,
}

-- No error is shown while a sign-in is under way.
abbrev IsQuiet : Form → Type 0
IsQuiet f = f.busy ≡ true → f.error ≡ ""

step-IsQuiet : (f : Form) (e : Event) → IsQuiet f → IsQuiet (step f e)
unfolding step
step-IsQuiet f (copy_answered (value c)) h = h
step-IsQuiet f (copy_answered (failed m)) h = h
step-IsQuiet f submitted h = if_both IsQuiet f.busy _ _ (λ again. h) (λ new. λ busy. refl)
step-IsQuiet f (login_answered r) h = if_both IsQuiet f.busy _ _ (λ waits. λ busy. cc) (λ late. h)

run-IsQuiet : (f : Form) (es : List Event) → IsQuiet f → IsQuiet (run f es)
unfolding run
run-IsQuiet f [] h = h
run-IsQuiet f (e ∷ es) h = run-IsQuiet (step f e) es (step-IsQuiet f e h)

-- What the answer to a sign-in leaves of the form and of the session.
abbrev pub IsLeft : Result User → Form → Session → Session → Type 0
IsLeft (value u) f old new =
    (new.user ≡ some u) × (new.csrf ≡ u.csrf) × (f.error ≡ "") × (f.busy ≡ false)
IsLeft (failed m) f old new = (new ≡ old) × (f.error ≡ m) × (f.busy ≡ false)

answer-IsLeft :
    (f : Form) (s : Session) (r : Result User)
    → IsQuiet f
    → f.busy ≡ true
    → IsLeft r (step f (login_answered r)) s (Session.run s (session_events f (login_answered r)))
unfolding step session_events Session.run Session.step
answer-IsLeft f s (value u) h busy = rw busy (refl, refl, h busy, refl)
answer-IsLeft f s (failed m) h busy = rw busy (refl, refl, refl)

-- A sign-in under way that is kept brings its user and its token into the session and leaves no
-- error; one that is rejected shows its message and leaves the session as it was. Either way the
-- button is free again.
pub login_lem :
    (es : List Event) (s : Session) (r : Result User)
    → (run first es).busy ≡ true
    → IsLeft r
        (step (run first es) (login_answered r))
        s
        (Session.run s (session_events (run first es) (login_answered r)))
login_lem es s r busy = answer-IsLeft (run first es) s r (run-IsQuiet first es (λ _. refl)) busy
