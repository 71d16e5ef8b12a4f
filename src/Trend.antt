-- ===== src/Trend.antt =====
-- web/src/features/dashboard/Dashboard.tsx: the effect of ClusterTrend, which fetches the history of
-- the cluster every minute, and what it shows.
--
-- Each run of the effect has a number; `active` says that no later one has begun. A request under
-- way is named by the run that sent it.
pub mod Alive
pub mod Chart
use card_scope.Base.{
  ℕ, ◌+◌, Bool, true, false, not, List, [], ◌∷◌, Option, none, some, String, nat_eq, keep, is_some,
  is_empty, count, ◌==◌, if◌then◌else◌, is_zero,
}
use card_scope.Types.{Metric}
use card_scope.Client.{Result, value, failed}

pub record Point : Type 0 where
  pub at : ℕ
  pub util : Metric

pub record Trend : Type 0 where
  pub points : List Point
  pub error : String
  pub loaded : Bool
  pub attempt : ℕ
  pub run : ℕ
  pub timer : Bool
  pub pending : List ℕ

-- A run of the effect, after the cleanup of the one before: it calls `refresh` at once.
unfoldable pub begin : Trend → Trend
begin s = record s { run = s.run + 1; timer = false; pending = (s.run + 1) ∷ s.pending }

abbrev pub mounted : Trend
mounted = begin (record {
  points = [];
  error = "";
  loaded = false;
  attempt = 0;
  run = 0;
  timer = false;
  pending = [];
})

abbrev pub outcome : Result (List Point) → Trend → Trend
outcome (value points) s = record s { points = points; error = "" }
outcome (failed message) s = record s { error = message }

abbrev pub without : ℕ → List ℕ → List ℕ
without k = keep (λ j. not (nat_eq j k))

-- The rest of `refresh`, after its `await`: nothing is set where the run is over.
unfoldable pub settle : ℕ → Result (List Point) → Trend → Trend
settle k answer s =
    if nat_eq k s.run then record (outcome answer s) { loaded = true; timer = true } else s

pub data Event : Type 0 where
  answered : ℕ → Result (List Point) → Event
  timer_fired : Event
  retried : Event

-- The button "重新加载" changes `attempt`, on which the effect depends.
unfoldable pub step : Trend → Event → Trend
step s (answered k answer) =
    if is_zero (count (λ j. nat_eq j k) s.pending)
    then s
    else settle k answer (record s { pending = without k s.pending })
step s timer_fired = if s.timer then record s { timer = false; pending = s.run ∷ s.pending } else s
step s retried = begin (record s { attempt = s.attempt + 1 })

unfoldable pub run : Trend → List Event → Trend
run s [] = s
run s (e ∷ es) = run (step s e) es

-- What stands in place of the chart, or the chart.
pub data Content : Type 0 where
  trouble : String → Content
  chart : List Point → Content
  empty : String → Content

abbrev pub some_util : List Point → Bool
some_util [] = false
some_util (p ∷ ps) = if is_some p.util then true else some_util ps

unfoldable pub content : Trend → Content
content s =
    if not (s.error == "")
    then trouble s.error
    else if some_util s.points
    then chart s.points
    else empty (if s.loaded then "暂无历史数据" else "正在加载趋势…")
