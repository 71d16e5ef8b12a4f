-- ===== src/Trend/Alive.antt =====
-- The effect of ClusterTrend in web/src/features/dashboard/Dashboard.tsx goes on for ever, once.
use card_scope.Base.{
  ℕ, ◌+◌, ◌≡◌, refl, ◌≤◌, false, List, [], ◌∷◌, nat_eq, count, indicator, All, All-kept, All-mono,
  arith, if_both, is_zero,
}
use card_scope.Client.{Result, value, failed}
use card_scope.Trend.{
  Point, Trend, begin, mounted, without, settle, Event, answered, timer_fired, retried, step, run,
}

-- The timer of the present run, and its requests.
abbrev pub fetchers : Trend → ℕ
fetchers s = indicator s.timer + count (λ j. nat_eq j s.run) s.pending

abbrev IsAlive : Trend → Type 0
IsAlive s = All (λ (j : ℕ). j ≤ s.run) s.pending × (fetchers s ≡ 1)

none_later :
    (k : ℕ) (js : List ℕ) → All (λ (j : ℕ). j ≤ k) js → count (λ j. nat_eq j (k + 1)) js ≡ 0
none_later k [] h = refl
none_later k (j ∷ js) h = ground (arith, none_later k js)

count-without_same : (k : ℕ) (js : List ℕ) → count (λ j. nat_eq j k) (without k js) ≡ 0
count-without_same k [] = refl
count-without_same k (j ∷ js) = ground (arith, count-without_same k js)

count-without_other :
    (k n : ℕ) (js : List ℕ)
    → nat_eq k n ≡ false
    → count (λ j. nat_eq j n) (without k js) ≡ count (λ j. nat_eq j n) js
count-without_other k n [] h = refl
count-without_other k n (j ∷ js) h = ground (arith, count-without_other k n js)

begin-IsAlive : (s : Trend) → All (λ (j : ℕ). j ≤ s.run) s.pending → IsAlive (begin s)
unfolding begin
begin-IsAlive s h = (
  (omega arith, All-mono _ _ s.pending (λ j past. omega (arith, past)) h),
  ground (arith, none_later s.run s.pending h),
)

settle-IsAlive :
    (k : ℕ) (answer : Result (List Point)) (s : Trend)
    → is_zero (count (λ j. nat_eq j k) s.pending) ≡ false
    → IsAlive s
    → IsAlive (settle k answer (record s { pending = without k s.pending }))
unfolding settle
settle-IsAlive k (value ps) s some_own h =
    if_both IsAlive (nat_eq k s.run) _ _
      (λ own. (All-kept _ _ s.pending h.0, ground (arith, count-without_same k s.pending)))
      (λ late. (
        All-kept _ _ s.pending h.0,
        omega (arith, h.1, count-without_other k s.run s.pending late),
      ))
settle-IsAlive k (failed m) s some_own h =
    if_both IsAlive (nat_eq k s.run) _ _
      (λ own. (All-kept _ _ s.pending h.0, ground (arith, count-without_same k s.pending)))
      (λ late. (
        All-kept _ _ s.pending h.0,
        omega (arith, h.1, count-without_other k s.run s.pending late),
      ))

step-IsAlive : (s : Trend) (e : Event) → IsAlive s → IsAlive (step s e)
unfolding step
step-IsAlive s (answered k answer) h =
    if_both IsAlive (is_zero (count (λ j. nat_eq j k) s.pending)) _ _ (λ gone. h)
      (λ there. settle-IsAlive k answer s there h)
step-IsAlive s timer_fired h =
    if_both IsAlive s.timer _ _ (λ set. ((omega arith, h.0), ground (arith, set, h.1))) (λ unset. h)
step-IsAlive s retried h = begin-IsAlive (record s { attempt = s.attempt + 1 }) h.0

run-IsAlive : (s : Trend) (es : List Event) → IsAlive s → IsAlive (run s es)
unfolding run
run-IsAlive s [] h = h
run-IsAlive s (e ∷ es) h = run-IsAlive (step s e) es (step-IsAlive s e h)

-- While it is on the page the trend goes on being fetched, errors and retries included: the present
-- run either waits for exactly one answer or has its timer set, and never both.
pub trend_alive : (es : List Event) → fetchers (run mounted es) ≡ 1
trend_alive es = (run-IsAlive mounted es (begin-IsAlive _ tt)).1
