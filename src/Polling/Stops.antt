-- ===== src/Polling/Stops.antt =====
-- The polling of web/src/features/nodes/useNodes.ts ends after a sign-out.
use mathlib.Core.List.{Memᴰ}
use card_scope.Base.{
  map, nat_eq-eq, All-find, All-of_mem, ℕ, ◌≡◌, refl, sym, ◌∙◌, ap, true, false, List, [], ◌∷◌,
  Option, none, some, All, Bool-cases, inl, inr, find, nat_eq, arith,
}
use card_scope.Types.{Node}
use card_scope.Client.{Result}
use card_scope.Polling.{
  Pending, Store, first, Event, answered, timer_fired, without, answer, step, run,
}
use card_scope.Polling.Pendings.{is_request}
use card_scope.Polling.SignedOut.{
  IsPunctual, run-IsCleared, first-IsCleared, answered_user, settled_frame,
}

-- An answer that comes: the request that it names, its outcome, and the time.
pub record Answer : Type 0 where
  pub request : ℕ
  pub result : Result (List Node)
  pub now : ℕ

abbrev pub coming : List Answer → List Event
coming = map (λ (a : Answer). answered a.request a.result a.now)

-- Some answer is to this request.
abbrev pub IsAnswered : List Answer → Pending → Type 0
IsAnswered answers p = (a : Answer) × Memᴰ a answers × (a.request ≡ p.request)

without_absent : (r : ℕ) (ps : List Pending) → find (is_request r) ps ≡ none → without r ps ≡ ps
without_absent r [] h = refl
without_absent r (p ∷ ps) h = ground (arith, without_absent r ps)

answer-pending :
    (r : ℕ) (o : Option Pending) (result : Result (List Node)) (now : ℕ) (s : Store)
    → find (is_request r) s.pending ≡ o
    → (answer o result now s).pending ≡ without r s.pending
answer-pending r none result now s h = sym (without_absent r s.pending h)
answer-pending r (some p) result now s h =
    let own =
      (All-find (λ _. Unit {0}) (is_request r) s.pending (All-of_mem _ s.pending (λ _ _. tt))
        h).1 in
    (settled_frame p result now (record s { pending = without p.request s.pending })).1
    ∙ ap (λ k. without k s.pending) (nat_eq-eq p.request r own)

answered-pending :
    (s : Store) (r : ℕ) (result : Result (List Node)) (now : ℕ)
    → (step s (answered r result now)).pending ≡ without r s.pending
unfolding step
answered-pending s r result now = answer-pending r (find (is_request r) s.pending) result now s refl

-- What an answer leaves waits for one of the others.
others_left :
    (a : Answer) (answers : List Answer) (ps : List Pending)
    → All (IsAnswered (a ∷ answers)) ps
    → All (IsAnswered answers) (without a.request ps)
others_left a answers [] h = tt
others_left a answers (p ∷ ps) ((b, Memᴰ.tail there, its), h) =
    elim (Bool-cases (nat_eq p.request a.request)) [
      | inl own ↦ rw own (others_left a answers ps h)
      | inr other ↦ rw other ((b, there, its), others_left a answers ps h)
    ]
others_left a answers (p ∷ ps) ((b, Memᴰ.head e, its), h) =
    let own : nat_eq p.request a.request ≡ true =
      ground (arith, its, ap (λ (c : Answer). c.request) e) in
    rw own (others_left a answers ps h)

none_waits : (ps : List Pending) → All (IsAnswered []) ps → ps ≡ []
none_waits [] h = refl
none_waits (p ∷ ps) ((a, there, its), h) = elim there [ ]

none_left :
    (s : Store) (answers : List Answer)
    → All (IsAnswered answers) s.pending
    → (run s (coming answers)).pending ≡ []
unfolding run
none_left s [] h = none_waits s.pending h
none_left s (a ∷ answers) h =
    none_left (step s (answered a.request a.result a.now)) answers
      (rw (answered-pending s a.request a.result a.now) (others_left a answers s.pending h))

coming-IsPunctual : (answers : List Answer) → All IsPunctual (coming answers)
coming-IsPunctual [] = tt
coming-IsPunctual (a ∷ answers) = (tt, coming-IsPunctual answers)

coming_user : (s : Store) (answers : List Answer) → (run s (coming answers)).user ≡ s.user
unfolding run
coming_user s [] = refl
coming_user s (a ∷ answers) =
    coming_user (step s (answered a.request a.result a.now)) answers
    ∙ answered_user a.request a.result a.now s

-- A state in which neither the timer nor an answer changes anything.
abbrev pub IsAtRest : Store → Type 0
IsAtRest t =
    (t.pending ≡ [])
    × (t.timer ≡ false)
    × (step t timer_fired ≡ t)
    × ((r : ℕ) (result : Result (List Node)) (now : ℕ) → step t (answered r result now) ≡ t)

at_rest : (t : Store) → t.pending ≡ [] → t.timer ≡ false → IsAtRest t
unfolding step
at_rest t empty unset = (empty, unset, rw unset refl, λ r result now. rw empty refl)

-- After a sign-out the polling terminates: once the requests that were under way are answered, in
-- any order and with any outcome, nothing is under way, the timer is not set, and neither a timer
-- nor an answer starts anything again, if no closure of an earlier render calls `refresh` late.
pub coming-IsAtRest :
    (es : List Event) (answers : List Answer)
    → All IsPunctual es
    → (run first es).user ≡ none
    → All (IsAnswered answers) (run first es).pending
    → IsAtRest (run (run first es) (coming answers))
coming-IsAtRest es answers punctual nobody answered_all =
    let s = run first es in
    let t = run s (coming answers) in
    let cleared =
      run-IsCleared s (coming answers) (coming-IsPunctual answers)
        (run-IsCleared first es punctual first-IsCleared) in
    at_rest t (none_left s answers answered_all) (cleared.1 (coming_user s answers ∙ nobody)).3
