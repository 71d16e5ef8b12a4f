-- ===== src/Stats/Fetching/Waiting.antt =====
-- The effect of web/src/features/statistics/UserStats.tsx says that it is busy exactly as long as
-- its timer is set or its request is under way.
use mathlib.Core.List.{Memᴰ}
use card_scope.Base.{
  ℕ, ◌+◌, ◌≡◌, refl, ◌≤◌, ◌<◌, Bool, true, false, List, [], ◌∷◌, Option, none, some, nat_eq, count,
  indicator, All, All-kept, All-mono, arith, if_both,
}
use card_scope.Client.{Result, value, failed}
use card_scope.Stats.Fetching.{
  Query, Answer, Request, Page, unfetched, begin, send, settle, open_row, without, Step, chosen,
  fired, answered, refused, clicked, Reach, opened, next,
}

abbrev pub is_of : ℕ → Request → Bool
is_of k r = nat_eq r.run k

-- What the present run waits for: its timer, and its requests.
abbrev pub awaited : Page → ℕ
awaited s = indicator s.timer + count (is_of s.run) s.pending

abbrev IsWaiting : Page → Type 0
IsWaiting s = All (λ (r : Request). r.run ≤ s.run) s.pending × (awaited s ≡ indicator s.busy)

none_later :
    (k : ℕ) (rs : List Request) → All (λ (r : Request). r.run ≤ k) rs → count (is_of (k + 1)) rs ≡ 0
none_later k [] h = refl
none_later k (r ∷ rs) h = ground (arith, none_later k rs)

count-without_same : (k : ℕ) (rs : List Request) → count (is_of k) (without k rs) ≡ 0
count-without_same k [] = refl
count-without_same k (r ∷ rs) = ground (arith, count-without_same k rs)

count-without_other :
    (k n : ℕ) (rs : List Request)
    → nat_eq k n ≡ false
    → count (is_of n) (without k rs) ≡ count (is_of n) rs
count-without_other k n [] h = refl
count-without_other k n (r ∷ rs) h = ground (arith, count-without_other k n rs)

some_waits :
    (r : Request) (k : ℕ) (rs : List Request)
    → Memᴰ r rs
    → nat_eq r.run k ≡ true
    → 0 < count (is_of k) rs
some_waits r k (x ∷ xs) (Memᴰ.head e) h = ground (arith, e)
some_waits r k (x ∷ xs) (Memᴰ.tail i) h = ground (arith, some_waits r k xs i)
some_waits r k [] i h = elim i [ ]

begin-IsWaiting :
    (q : Option Query) (s : Page)
    → All (λ (r : Request). r.run ≤ s.run) s.pending
    → IsWaiting (begin q s)
unfolding begin
begin-IsWaiting none s h = (
  All-mono _ _ s.pending (λ r past. omega (arith, past)) h,
  omega (arith, none_later s.run s.pending h),
)
begin-IsWaiting (some q) s h = (
  All-mono _ _ s.pending (λ r past. omega (arith, past)) h,
  omega (arith, none_later s.run s.pending h),
)

-- The answer to the request of the present run is all that it waited for.
waited :
    (r : Request) (s : Page)
    → Memᴰ r s.pending
    → nat_eq r.run s.run ≡ true
    → IsWaiting s
    → s.timer ≡ false
waited r s i active h = ground (arith, some_waits r s.run s.pending i active)

settle-IsWaiting :
    (r : Request) (s : Page) (answer : Result Answer)
    → Memᴰ r s.pending
    → IsWaiting s
    → IsWaiting (settle r answer s)
unfolding settle
settle-IsWaiting r s (value a) i h =
    if_both IsWaiting (nat_eq r.run s.run) _ _
      (λ active. (
        All-kept _ _ s.pending h.0,
        ground (arith, waited r s i active h, count-without_same r.run s.pending),
      ))
      (λ late. (
        All-kept _ _ s.pending h.0,
        omega (arith, h.1, count-without_other r.run s.run s.pending late),
      ))
settle-IsWaiting r s (failed m) i h =
    if_both IsWaiting (nat_eq r.run s.run) _ _
      (λ active. (
        All-kept _ _ s.pending h.0,
        ground (arith, waited r s i active h, count-without_same r.run s.pending),
      ))
      (λ late. (
        All-kept _ _ s.pending h.0,
        omega (arith, h.1, count-without_other r.run s.run s.pending late),
      ))

module _ (Answers : Query → Answer → Type 0) where
  step-IsWaiting : {s t : Page} → Step Answers s t → IsWaiting s → IsWaiting t
  unfolding send open_row
  step-IsWaiting (chosen q s) h = begin-IsWaiting q s h.0
  step-IsWaiting (fired q s set asked) h = ((omega arith, h.0), ground (arith, set, h.1))
  step-IsWaiting (answered r a s i right) h = settle-IsWaiting r s (value a) i h
  step-IsWaiting (refused r m s i) h = settle-IsWaiting r s (failed m) i h
  step-IsWaiting (clicked key s) h = h

  Reach-IsWaiting : {first : Option Query} {s : Page} → Reach Answers first s → IsWaiting s
  Reach-IsWaiting {first = first} opened = begin-IsWaiting first unfetched tt
  Reach-IsWaiting (next before step) = step-IsWaiting step (Reach-IsWaiting before)

  -- The table says that it is loading exactly as long as the present query waits for its timer or
  -- for one answer, so it never waits for nothing, however the choices and the answers interleave.
  pub busy_awaited :
      {first : Option Query} {s : Page} → Reach Answers first s → awaited s ≡ indicator s.busy
  busy_awaited way = (Reach-IsWaiting way).1
