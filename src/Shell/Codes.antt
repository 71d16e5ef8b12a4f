-- ===== src/Shell/Codes.antt =====
-- Which enrollment code web/src/app/App.tsx may show.
use mathlib.Core.Path.{subst}
use card_scope.Base.{
  ◌≡◌, refl, sym, ◌∙◌, ◌≢◌, ◌⊎◌, inl, inr, true, false, List, [], ◌∷◌, String, has, Option-cases,
  arith, eq_iff, if◌then◌else◌,
}
use card_scope.Client.{Result, value, failed}
use card_scope.Shell.{
  Task, creating, ending, other, Frame, at_first, take_out, Ending, on_ended, well, rejected,
  handled, Event, page_opened, queried, gpu_opened, gpu_closed, add_clicked, first_add_clicked,
  dialog_changed, name_typed, submitted, created, refreshed, task_started, task_ended, code_issued,
  error_closed, step, run, enrollment, dialog,
}

-- The codes that came since the code was last put away, by the dialog's closing or the button
-- "添加节点"; `known` holds those that came before.
abbrev pub codes_after : List String → Event → List String
codes_after known add_clicked = []
codes_after known (dialog_changed visible) = if visible then known else []
codes_after known (created (value code)) = code ∷ known
codes_after known (code_issued code) = code ∷ known
codes_after known _ = known

unfoldable pub recent_codes : List String → List Event → List String
recent_codes known [] = known
recent_codes known (e ∷ es) = recent_codes (codes_after known e) es

abbrev IsRecent : List String → Frame → Type 0
IsRecent known s = (s.code ≡ "") ⊎ (has known s.code ≡ true)

-- A further code does not take the others away.
IsRecent-more :
    (c : String) (known : List String) (s : Frame) → IsRecent known s → IsRecent (c ∷ known) s
IsRecent-more c known s (inl e) = inl e
IsRecent-more c known s (inr h) = inr (ground arith)

shown-IsRecent : (c : String) (known : List String) → has (c ∷ known) c ≡ true
shown-IsRecent c known = ground (arith, eq_iff c c)

created-IsRecent :
    (r : Result String) (known : List String) (s : Frame)
    → IsRecent known s
    → IsRecent (codes_after known (created r)) (step s (created r))
unfolding step
created-IsRecent (value code) known s h = elim (Option-cases (take_out creating s.tasks)) [
  | inl gone ↦ rw gone (IsRecent-more code known s h)
  | inr (rest, found) ↦ rw found (inr (shown-IsRecent code known))
]
created-IsRecent (failed message) known s h = elim (Option-cases (take_out creating s.tasks)) [
  | inl gone ↦ rw gone h
  | inr (rest, found) ↦ rw found h
]

ended-IsRecent :
    (m : Ending) (rest : List Task) (known : List String) (s : Frame)
    → IsRecent known s
    → IsRecent known (on_ended m rest s)
ended-IsRecent well rest known s h = h
ended-IsRecent (rejected m) rest known s h = h
ended-IsRecent (handled m) rest known s h = h

step-IsRecent :
    (known : List String) (s : Frame) (e : Event)
    → IsRecent known s
    → IsRecent (codes_after known e) (step s e)
unfolding step
step-IsRecent known s (page_opened page) h = h
step-IsRecent known s (queried o) h = h
step-IsRecent known s (gpu_opened node gpu) h = h
step-IsRecent known s gpu_closed h = h
step-IsRecent known s add_clicked h = inl refl
step-IsRecent known s first_add_clicked h = h
step-IsRecent known s (dialog_changed true) h = h
step-IsRecent known s (dialog_changed false) h = inl refl
step-IsRecent known s name_typed h = h
step-IsRecent known s submitted h = h
step-IsRecent known s (created r) h = created-IsRecent r known s h
step-IsRecent known s refreshed h = elim (Option-cases (take_out ending s.tasks)) [
  | inl gone ↦ rw gone h
  | inr (rest, found) ↦ rw found h
]
step-IsRecent known s task_started h = h
step-IsRecent known s (task_ended m) h = elim (Option-cases (take_out other s.tasks)) [
  | inl gone ↦ rw gone h
  | inr (rest, found) ↦ rw found (ended-IsRecent m rest known s h)
]
step-IsRecent known s (code_issued code) h = inr (shown-IsRecent code known)
step-IsRecent known s error_closed h = h

run-IsRecent :
    (known : List String) (s : Frame) (es : List Event)
    → IsRecent known s
    → IsRecent (recent_codes known es) (run s es)
unfolding run recent_codes
run-IsRecent known s [] h = h
run-IsRecent known s (e ∷ es) h =
    run-IsRecent (codes_after known e) (step s e) es (step-IsRecent known s e h)

dialog-code : (s : Frame) (c : String) → dialog s ≡ enrollment c → (s.code ≡ c) × (c ≢ "")
unfolding dialog
dialog-code s c h = ground (arith, eq_iff s.code "")

-- An enrollment code on display is one that came since the dialog was last closed or opened by
-- "添加节点" in the heading: what was put away then is not shown again unless it comes anew.
pub dialog_recent :
    (es : List Event) {c : String}
    → dialog (run at_first es) ≡ enrollment c
    → has (recent_codes [] es) c ≡ true
dialog_recent es {c} h =
    let (same, some_text) = dialog-code (run at_first es) c h in
    elim (run-IsRecent [] at_first es (inl refl)) [
      | inl empty ↦ absurd (some_text (sym same ∙ empty))
      | inr recent ↦ subst (λ x. has (recent_codes [] es) x ≡ true) same recent
    ]
