-- ===== src/Shell/Tasks.antt =====
-- `perform` of web/src/app/App.tsx gives the buttons free again.
use card_scope.Base.{◌≡◌, refl, false, List, [], ◌∷◌, Option-cases, inl, inr}
use card_scope.Client.{value, failed}
use card_scope.Shell.{
  Task, creating, ending, other, Frame, at_first, take_out, Ending, well, rejected, handled,
  on_ended, Event, page_opened, queried, gpu_opened, gpu_closed, add_clicked, first_add_clicked,
  dialog_changed, name_typed, submitted, created, refreshed, task_started, task_ended, code_issued,
  error_closed, step, run,
}

-- The page is marked as busy only while a task is under way.
abbrev IsReleased : Frame → Type 0
IsReleased s = s.tasks ≡ [] → s.pending ≡ false

ended-IsReleased : (m : Ending) (rest : List Task) (s : Frame) → IsReleased (on_ended m rest s)
ended-IsReleased well rest s e = refl
ended-IsReleased (rejected m) rest s e = refl
ended-IsReleased (handled m) rest s e = refl

step-IsReleased : (s : Frame) (e : Event) → IsReleased s → IsReleased (step s e)
unfolding step
step-IsReleased s (page_opened page) h = h
step-IsReleased s (queried o) h = h
step-IsReleased s (gpu_opened node gpu) h = h
step-IsReleased s gpu_closed h = h
step-IsReleased s add_clicked h = h
step-IsReleased s first_add_clicked h = h
step-IsReleased s (dialog_changed visible) h = h
step-IsReleased s name_typed h = h
step-IsReleased s submitted h = λ e. cc
step-IsReleased s (created (value code)) h = elim (Option-cases (take_out creating s.tasks)) [
  | inl gone ↦ rw gone h
  | inr (rest, found) ↦ rw found (λ e. cc)
]
step-IsReleased s (created (failed message)) h = elim (Option-cases (take_out creating s.tasks)) [
  | inl gone ↦ rw gone h
  | inr (rest, found) ↦ rw found (λ e. refl)
]
step-IsReleased s refreshed h = elim (Option-cases (take_out ending s.tasks)) [
  | inl gone ↦ rw gone h
  | inr (rest, found) ↦ rw found (λ e. refl)
]
step-IsReleased s task_started h = λ e. cc
step-IsReleased s (task_ended m) h = elim (Option-cases (take_out other s.tasks)) [
  | inl gone ↦ rw gone h
  | inr (rest, found) ↦ rw found (ended-IsReleased m rest s)
]
step-IsReleased s (code_issued code) h = h
step-IsReleased s error_closed h = h

run-IsReleased_from : (s : Frame) (es : List Event) → IsReleased s → IsReleased (run s es)
unfolding run
run-IsReleased_from s [] h = h
run-IsReleased_from s (e ∷ es) h = run-IsReleased_from (step s e) es (step-IsReleased s e h)

-- Once every task is over, the page is not marked as busy, whatever the tasks were, however they
-- ended and overlapped: no button stays disabled.
pub run_released :
    (es : List Event) → (run at_first es).tasks ≡ [] → (run at_first es).pending ≡ false
run_released es = run-IsReleased_from at_first es (λ e. refl)
