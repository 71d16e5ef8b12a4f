-- ===== src/Detail/Outcome.antt =====
-- What web/src/features/gpu/GPUDetail.tsx shows is the outcome of one run of its effect.
use mathlib.Core.List.{Memᴰ}
use card_scope.Base.{ℕ, ◌≡◌, ◌⊎◌, inl, inr, false, List, String, All-of_mem}
use card_scope.Client.{value, failed}
use card_scope.Detail.{
  Point, Occurrence, Event, rendered, hours_chosen, history_answered, events_answered, mounted, run,
}
use card_scope.Detail.Rounds.{
  is_awaited, Answers, IsOutcome, IsTogether, IsSound, run-IsSound, mounted-IsSound,
}

-- What came to a run of the effect, among the events.
abbrev pub HistoryCame : List Event → ℕ → List Point → Type 0
HistoryCame es k h = Memᴰ (history_answered k (value h)) es

abbrev pub EventsCame : List Event → ℕ → List Occurrence → Type 0
EventsCame es k e = Memᴰ (events_answered k (value e)) es

abbrev pub ErrorCame : List Event → ℕ → String → Type 0
ErrorCame es k m = Memᴰ (history_answered k (failed m)) es ⊎ Memᴰ (events_answered k (failed m)) es

came :
    (es : List Event) (e : Event)
    → Memᴰ e es
    → Answers (HistoryCame es) (EventsCame es) (ErrorCame es) e
came es (rendered node gpu sample_at now) i = tt
came es (hours_chosen hours now) i = tt
came es (history_answered k (value h)) i = i
came es (history_answered k (failed m)) i = inl i
came es (events_answered k (value e)) i = i
came es (events_answered k (failed m)) i = inr i

trace-IsSound :
    (node gpu : String) (sample_at now : ℕ) (es : List Event)
    → IsSound
        (HistoryCame es)
        (EventsCame es)
        (ErrorCame es)
        (run (mounted node gpu sample_at now) es)
trace-IsSound node gpu sample_at now es =
    run-IsSound (HistoryCame es) (EventsCame es) (ErrorCame es) _ es
      (mounted-IsSound (HistoryCame es) (EventsCame es) (ErrorCame es) node gpu sample_at now)
      (All-of_mem _ es (came es))

-- The chart and the list of events belong together: either neither is filled yet, or both are the
-- answers to the two requests of one and the same run of the effect.
pub run-IsTogether :
    (node gpu : String) (sample_at now : ℕ) (es : List Event)
    → IsTogether
        (HistoryCame es)
        (EventsCame es)
        (ErrorCame es)
        (run (mounted node gpu sample_at now) es)
run-IsTogether node gpu sample_at now es = (trace-IsSound node gpu sample_at now es).2

-- Once the present run of the effect waits for no answer, the page shows its outcome: the error of
-- one of its answers, or both of its answers and no error.
pub run-IsOutcome :
    (node gpu : String) (sample_at now : ℕ) (es : List Event)
    → is_awaited (run (mounted node gpu sample_at now) es) ≡ false
    → IsOutcome
        (HistoryCame es)
        (EventsCame es)
        (ErrorCame es)
        (run (mounted node gpu sample_at now) es)
run-IsOutcome node gpu sample_at now es over = elim (trace-IsSound node gpu sample_at now es).1 [
  | inl waits ↦ absurd (cc (waits, over))
  | inr outcome ↦ outcome
]
