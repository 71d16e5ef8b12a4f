-- ===== src/Panel/Users.antt =====
-- The hooks of web/src/app/App.tsx agree on the user, and nothing is shown to nobody.
use card_scope.Base.{
  ℕ, ◌≡◌, refl, sym, ◌∙◌, ap, Bool, true, false, List, [], ◌∷◌, ◌++◌, Option, none, some, All,
  Bool-cases, inl, inr, arith, All-append, if_both, if◌then◌else◌,
}
use card_scope.Types.{User, Node}
use card_scope.Client.{Result, value, failed, settle}
use card_scope.Session
use card_scope.Session.{Session, me, signed_in, expired, logout, cleanup}
use card_scope.Session.Tokens.{token_of, run-IsBound}
use card_scope.Polling
use card_scope.Polling.{
  Pending, Store, refresh, refreshed, late_refresh, user_changed, answered, timer_fired, error_set,
  answer,
}
use card_scope.Polling.SignedOut.{IsPunctual, answered_user, signed_out_blank}
use card_scope.Panel.{
  Panel, start, Event, session_event, page_event, nodes_answered, sets_user, changes, followed,
  own_events, is_expiring, session_events, store_events, step, run,
}

-- The events of the two hooks, for a whole run.
pub session_trace : Panel → List Event → List Session.Event
session_trace p [] = []
session_trace p (e ∷ es) = session_events p e ++ session_trace (step p e) es

pub store_trace : Panel → List Event → List Polling.Event
store_trace p [] = []
store_trace p (e ∷ es) = store_events p e ++ store_trace (step p e) es

session_run-append :
    (s : Session) (es fs : List Session.Event)
    → Session.run s (es ++ fs) ≡ Session.run (Session.run s es) fs
unfolding Session.run
session_run-append s [] fs = refl
session_run-append s (e ∷ es) fs = session_run-append (Session.step s e) es fs

store_run-append :
    (s : Store) (es fs : List Polling.Event)
    → Polling.run s (es ++ fs) ≡ Polling.run (Polling.run s es) fs
unfolding Polling.run
store_run-append s [] fs = refl
store_run-append s (e ∷ es) fs = store_run-append (Polling.step s e) es fs

-- Each hook runs as it does alone, on its own events of the run.
pub run-traces :
    (p : Panel) (es : List Event)
    → ((run p es).session ≡ Session.run p.session (session_trace p es))
      × ((run p es).store ≡ Polling.run p.store (store_trace p es))
unfolding run session_trace store_trace Session.run Polling.run
run-traces p [] = (refl, refl)
run-traces p (e ∷ es) =
    let (sessions, stores) = run-traces (step p e) es in
    (
      sessions ∙ unfold step in sym (session_run-append p.session (session_events p e) _),
      stores ∙ unfold step in sym (store_run-append p.store (store_events p e) _),
    )

refresh_user : (u : Option User) (polled : Bool) (s : Store) → (refresh u polled s).user ≡ s.user
unfolding refresh Polling.send
refresh_user none polled s = refl
refresh_user (some u) polled s = refl

effect_user : (u : Option User) (s : Store) → (Polling.effect u s).user ≡ u
unfolding Polling.effect Polling.send
effect_user none s = refl
effect_user (some u) s = refl

-- The events of the page leave the user alone.
own_user : (e : Polling.Event) (s : Store) → (Polling.run s (own_events e)).user ≡ s.user
unfolding Polling.run Polling.step
own_user (user_changed u) s = refl
own_user refreshed s = refresh_user s.user false s
own_user (late_refresh u) s = refresh_user u false s
own_user (answered r result now) s = refl
own_user timer_fired s = elim (Bool-cases s.timer) [
  | inl set ↦ rw set (refresh_user s.user true (record s { timer = false }))
  | inr unset ↦ rw unset
]
own_user (error_set m) s = refl

-- An event of the session brings the same user to both hooks.
changed_user :
    (sets : Bool) (old new : Option User) (s : Store)
    → s.user ≡ old
    → (sets ≡ false → new ≡ old)
    → (Polling.run s (changes sets old new)).user ≡ new
unfolding Polling.run Polling.step
changed_user false old new s same kept = same ∙ sym (kept refl)
changed_user true none none s same kept = same
changed_user true none (some u) s same kept = effect_user (some u) (Polling.dispose s)
changed_user true (some v) none s same kept = effect_user none (Polling.dispose s)
changed_user true (some v) (some u) s same kept = effect_user (some u) (Polling.dispose s)

sets_user_kept :
    (s : Session) (e : Session.Event) → sets_user s e ≡ false → (Session.step s e).user ≡ s.user
unfolding Session.step
sets_user_kept s (me (value u)) h = ground arith
sets_user_kept s (me (failed m)) h = ground arith
sets_user_kept s (signed_in u) h = cc
sets_user_kept s expired h = ground arith
sets_user_kept s (logout (value _)) h = cc
sets_user_kept s (logout (failed m)) h = refl
sets_user_kept s cleanup h = refl

followed_user :
    (p : Session) (e : Session.Event) (s : Store)
    → s.user ≡ p.user
    → (Polling.run s (followed p e)).user ≡ (Session.step p e).user
followed_user p e s same =
    changed_user (sets_user p e) p.user (Session.step p e).user s same (sets_user_kept p e)

answered_both :
    (p : Panel) (r : ℕ) (result : Result (List Node)) (now : ℕ) (expires : Bool)
    → p.store.user ≡ p.session.user
    → (Polling.run p.store
        (answered r result now ∷ (if expires then followed p.session expired else []))).user
      ≡ (Session.run p.session (if expires then expired ∷ [] else [])).user
unfolding Polling.run Session.run
answered_both p r result now true same =
    followed_user p.session expired _ (answered_user r result now p.store ∙ same)
answered_both p r result now false same = answered_user r result now p.store ∙ same

step_user :
    (p : Panel) (e : Event)
    → p.store.user ≡ p.session.user
    → (step p e).store.user ≡ (step p e).session.user
unfolding step session_events store_events Session.run
step_user p (session_event e) same = followed_user p.session e p.store same
step_user p (page_event e) same = own_user e p.store ∙ same
step_user p (nodes_answered r response now) same =
    answered_both p r (settle "/nodes" response).0 now (is_expiring r response p.store) same

run_user :
    (p : Panel) (es : List Event)
    → p.store.user ≡ p.session.user
    → (run p es).store.user ≡ (run p es).session.user
unfolding run
run_user p [] same = same
run_user p (e ∷ es) same = run_user (step p e) es (step_user p e same)

-- No closure of an earlier render calls `refresh` after its user is gone.
abbrev pub IsTimely : Event → Type 0
IsTimely (page_event e) = IsPunctual e
IsTimely _ = Unit

own-IsPunctual : (e : Polling.Event) → IsPunctual e → All IsPunctual (own_events e)
own-IsPunctual (user_changed u) h = tt
own-IsPunctual refreshed h = (tt, tt)
own-IsPunctual (late_refresh u) h = (h, tt)
own-IsPunctual (answered r result now) h = tt
own-IsPunctual timer_fired h = (tt, tt)
own-IsPunctual (error_set m) h = (tt, tt)

changes-IsPunctual : (sets : Bool) (old new : Option User) → All IsPunctual (changes sets old new)
changes-IsPunctual false old new = tt
changes-IsPunctual true none none = tt
changes-IsPunctual true none (some u) = (tt, tt)
changes-IsPunctual true (some v) none = (tt, tt)
changes-IsPunctual true (some v) (some u) = (tt, tt)

events-IsPunctual : (p : Panel) (e : Event) → IsTimely e → All IsPunctual (store_events p e)
unfolding store_events
events-IsPunctual p (session_event e) h = changes-IsPunctual _ _ _
events-IsPunctual p (page_event e) h = own-IsPunctual e h
events-IsPunctual p (nodes_answered r response now) h = (
  tt,
  if_both (All IsPunctual) (is_expiring r response p.store) _ _ (λ _. changes-IsPunctual _ _ _)
      (λ _. tt),
)

trace-IsPunctual :
    (p : Panel) (es : List Event) → All IsTimely es → All IsPunctual (store_trace p es)
unfolding store_trace
trace-IsPunctual p [] h = tt
trace-IsPunctual p (e ∷ es) h =
    All-append IsPunctual (store_events p e) _ (events-IsPunctual p e h.0)
      (trace-IsPunctual (step p e) es h.1)

-- After any run of the panel its two hooks agree on who is signed in.
pub run_agrees : (es : List Event) → (run start es).store.user ≡ (run start es).session.user
run_agrees es = run_user start es refl

-- While nobody is signed in no node is shown, no time of an update and no token is kept, after any
-- run of the panel in which no closure of an earlier render calls `refresh` late.
pub run-blank :
    (es : List Event)
    → All IsTimely es
    → (run start es).session.user ≡ none
    → ((run start es).store.nodes ≡ [])
      × ((run start es).store.updated ≡ 0)
      × ((run start es).session.csrf ≡ "")
run-blank es timely nobody =
    let (sessions, stores) = run-traces start es in
    let blank =
      signed_out_blank (store_trace start es) (trace-IsPunctual start es timely)
        (sym (ap (λ (s : Store). s.user) stores) ∙ run_agrees es ∙ nobody) in
    let bound = run-IsBound (session_trace start es) in
    (
      ap (λ (s : Store). s.nodes) stores ∙ blank.0,
      ap (λ (s : Store). s.updated) stores ∙ blank.1,
      rw sessions (bound ∙ ap token_of (sym (ap (λ (s : Session). s.user) sessions) ∙ nobody)),
    )
