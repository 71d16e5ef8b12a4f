-- ===== src/Detail.antt =====
-- web/src/features/gpu/GPUDetail.tsx: the effect that fetches the history and the events of a card.
--
-- Each run of the effect has a number; `active` says that no later one has begun. A run sends two
-- requests, whose answers `Promise.all` puts together: Round is a run that still waits for one. The
-- effect runs again when a value that it depends on changes.
pub mod Rounds
pub mod Outcome
pub mod Content
use card_scope.Base.{
  ℕ, ◌+◌, ◌-◌, ◌*◌, Bool, true, false, not, ◌&&◌, List, [], ◌∷◌, Option, none, some, String, nat_eq,
  keep, find, is_some, show, ◌==◌, if◌then◌else◌,
}
use card_scope.Base.Decimal.{read_from}
use card_scope.Types.{Metric}
use card_scope.Client.{Result, value, failed}

pub record Point : Type 0 where
  pub at : ℕ
  pub util : Metric
  pub memory : Metric

pub record Occurrence : Type 0 where
  pub at : ℕ
  pub kind : String
  pub status : String
  pub process_status : String

-- A run whose promise is open: its query, and those of its answers that have come.
pub record Round : Type 0 where
  pub run : ℕ
  pub query : List (String × String)
  pub points : Option (List Point)
  pub occurrences : Option (List Occurrence)

-- The card that is shown, the choice of the range, what was fetched, and the open promises.
pub record GpuDetail : Type 0 where
  pub node : String
  pub gpu : String
  pub sample_at : ℕ
  pub hours : String
  pub history : List Point
  pub events : List Occurrence
  pub error : String
  pub run : ℕ
  pub pending : List Round

abbrev pub hour : ℕ
hour = 3600000

-- The parameters of both requests; the time now is more than any choice of hours after 1970.
unfoldable pub query : ℕ → GpuDetail → List (String × String)
query now s =
    ("node", s.node) ∷ ("gpu", s.gpu) ∷ ("from", show (now - read_from 0 s.hours * hour)) ∷ []

unfoldable pub begin : ℕ → GpuDetail → GpuDetail
begin now s = record s {
  run = s.run + 1;
  pending =
      record { run = s.run + 1; query = query now s; points = none; occurrences = none }
      ∷ s.pending;
}

unfoldable pub mounted : String → String → ℕ → ℕ → GpuDetail
mounted node gpu sample_at now = begin now (record {
  node = node;
  gpu = gpu;
  sample_at = sample_at;
  hours = "24";
  history = [];
  events = [];
  error = "";
  run = 0;
  pending = [];
})

abbrev pub is_run : ℕ → Round → Bool
is_run k p = nat_eq p.run k

abbrev pub without : ℕ → List Round → List Round
without k = keep (λ p. not (is_run k p))

-- The promise of a run is kept or rejected; nothing is set where the run is over.
unfoldable pub settle : ℕ → Result (List Point × List Occurrence) → GpuDetail → GpuDetail
settle k (value (h, e)) s =
    if nat_eq k s.run then record s { history = h; events = e; error = "" } else s
settle k (failed m) s = if nat_eq k s.run then record s { error = m } else s

-- `Promise.all` waits until both answers are there.
unfoldable pub put_together :
    Round → Option (List Point) → Option (List Occurrence) → GpuDetail → GpuDetail
put_together p (some h) (some e) s =
    settle p.run (value (h, e)) (record s { pending = without p.run s.pending })
put_together p h e s = record s {
  pending = record p { points = h; occurrences = e } ∷ without p.run s.pending;
}

-- The first rejection is that of the promise.
abbrev pub reject : Round → String → GpuDetail → GpuDetail
reject p m s = settle p.run (failed m) (record s { pending = without p.run s.pending })

unfoldable pub on_history : Option Round → Result (List Point) → GpuDetail → GpuDetail
on_history none r s = s
on_history (some p) (value h) s =
    if is_some p.points then s else put_together p (some h) p.occurrences s
on_history (some p) (failed m) s = if is_some p.points then s else reject p m s

unfoldable pub on_events : Option Round → Result (List Occurrence) → GpuDetail → GpuDetail
on_events none r s = s
on_events (some p) (value e) s =
    if is_some p.occurrences then s else put_together p p.points (some e) s
on_events (some p) (failed m) s = if is_some p.occurrences then s else reject p m s

-- What happens: the panel shows another card or a newer sample, another range is chosen, or the
-- answer to one of the two requests of a run comes; the first two at a time.
pub data Event : Type 0 where
  rendered : String → String → ℕ → ℕ → Event
  hours_chosen : String → ℕ → Event
  history_answered : ℕ → Result (List Point) → Event
  events_answered : ℕ → Result (List Occurrence) → Event

unfoldable pub step : GpuDetail → Event → GpuDetail
step s (rendered node gpu sample_at now) =
    if node == s.node && gpu == s.gpu && nat_eq sample_at s.sample_at
    then s
    else begin now (record s { node = node; gpu = gpu; sample_at = sample_at })
step s (hours_chosen hours now) =
    if hours == s.hours then s else begin now (record s { hours = hours })
step s (history_answered k r) = on_history (find (is_run k) s.pending) r s
step s (events_answered k r) = on_events (find (is_run k) s.pending) r s

unfoldable pub run : GpuDetail → List Event → GpuDetail
run s [] = s
run s (e ∷ es) = run (step s e) es
