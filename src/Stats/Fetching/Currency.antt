-- ===== src/Stats/Fetching/Currency.antt =====
-- The effect of web/src/features/statistics/UserStats.tsx shows no answer to an earlier query, and
-- does not wait for nothing.
use mathlib.Core.Path.{subst}
use mathlib.Core.List.{Memᴰ}
use card_scope.Base.{
  ℕ, ◌+◌, ◌≡◌, refl, ◌≤◌, Option, none, some, nat_eq, All, All-kept, All-mono, All-mem, arith,
  some_inj, if_both,
}
use card_scope.Client.{Result, value, failed}
use card_scope.Stats.Fetching.{
  Query, Answer, Request, Page, unfetched, begin, send, settle, open_row, Step, chosen, fired,
  answered, refused, clicked, Reach, opened, next,
}

-- A request of the present run was sent for the query on display; no request is of a later run.
pub record IsOwn (query : Option Query) (run : ℕ) (r : Request) : Type 0 where
  pub past : r.run ≤ run
  pub same : r.run ≡ run → query ≡ some r.query

value_inj : {a b : Answer} → value a ≡ value b → a ≡ b
value_inj e = cc

IsOwn-next :
    (q : Option Query) (s : Page)
    → All (IsOwn s.query s.run) s.pending
    → All (IsOwn q (s.run + 1)) s.pending
IsOwn-next q s h =
    All-mono _ _ s.pending
      (λ r own. record {
        past = omega (arith, own.past);
        same = λ e. absurd (omega (arith, own.past));
      })
      h

module _ (Answers : Query → Answer → Type 0) where
  -- What is on display was answered to the query on display.
  abbrev IsShown : Option Query → Option Answer → Type 0
  IsShown query result =
      (a : Answer) → result ≡ some a → (q : Query) × (query ≡ some q) × Answers q a

  abbrev IsCurrent : Page → Type 0
  IsCurrent s = All (IsOwn s.query s.run) s.pending × IsShown s.query s.result

  begin-IsCurrent : (q : Option Query) (s : Page) → IsCurrent s → IsCurrent (begin q s)
  unfolding begin
  begin-IsCurrent none s h = (IsOwn-next none s h.0, λ a e. cc)
  begin-IsCurrent (some q) s h = (IsOwn-next (some q) s h.0, λ a e. cc)

  settle-IsCurrent :
      (r : Request) (s : Page) (answer : Result Answer)
      → Memᴰ r s.pending
      → ((a : Answer) → answer ≡ value a → Answers r.query a)
      → IsCurrent s
      → IsCurrent (settle r answer s)
  unfolding settle
  settle-IsCurrent r s (value a) i right h =
      if_both IsCurrent (nat_eq r.run s.run) _ _
        (λ active. (
          All-kept _ _ s.pending h.0,
          λ b e. (
            r.query,
            (All-mem _ s.pending r h.0 i).same (ground arith),
            subst (Answers r.query) (some_inj e) (right a refl),
          ),
        ))
        (λ late. (All-kept _ _ s.pending h.0, h.1))
  settle-IsCurrent r s (failed m) i right h =
      if_both IsCurrent (nat_eq r.run s.run) _ _ (λ active. (All-kept _ _ s.pending h.0, h.1))
        (λ late. (All-kept _ _ s.pending h.0, h.1))

  Step-IsCurrent : {s t : Page} → Step Answers s t → IsCurrent s → IsCurrent t
  unfolding send open_row
  Step-IsCurrent (chosen q s) h = begin-IsCurrent q s h
  Step-IsCurrent (fired q s set asked) h =
      ((record { past = omega arith; same = λ e. asked }, h.0), h.1)
  Step-IsCurrent (answered r a s i right) h =
      settle-IsCurrent r s (value a) i (λ b e. subst (Answers r.query) (value_inj e) right) h
  Step-IsCurrent (refused r m s i) h = settle-IsCurrent r s (failed m) i (λ b e. cc) h
  Step-IsCurrent (clicked key s) h = h

  Reach-IsCurrent : {first : Option Query} {s : Page} → Reach Answers first s → IsCurrent s
  Reach-IsCurrent {first = first} opened = begin-IsCurrent first unfetched (tt, λ a e. cc)
  Reach-IsCurrent (next before step) = Step-IsCurrent step (Reach-IsCurrent before)

  -- The answer on display is one that the hub may give to the query on display, in whatever order
  -- the choices change and the answers come: none to an earlier query is ever shown.
  pub shown_current :
      {first : Option Query} {s : Page} {a : Answer}
      → Reach Answers first s
      → s.result ≡ some a
      → (q : Query) × (s.query ≡ some q) × Answers q a
  shown_current {a = a} way e = (Reach-IsCurrent way).1 a e
