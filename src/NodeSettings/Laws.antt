-- ===== src/NodeSettings/Laws.antt =====
-- The form of web/src/features/nodes/NodeSettings.tsx on the page of web/src/app/App.tsx.
use card_scope.Base.{
  ℕ, ◌≡◌, ◌≢◌, refl, ◌∙◌, Bool, All, true, false, ◌||◌, List, [], ◌∷◌, Option, none, some, String,
  Bool-cases, eq_iff, inl, inr, arith, if_both, is_zero, indicator, ◌==◌,
}
use card_scope.Types.{Node}
use card_scope.Client.{Result, value, failed}
use card_scope.Tags.{Editor, Patch, submit}
use card_scope.Shell
use card_scope.Shell.{
  Frame, Task, other, take_out, Ending, well, rejected, handled, task_started, task_ended,
  code_issued, dialog, enrollment,
}
use card_scope.Shell.Forms.{IsOne, same_count, started, ended}
use card_scope.NodeSettings.{
  Page, first, Event, submitted, saved, asked, closed, confirmed, answered, refreshed, name_typed,
  tag_entered, tag_removed, tag_typed, net_chosen, elsewhere, under_way, on_submit, on_saved, issue,
  on_answered, step, run,
}

-- An event of the form.
abbrev pub is_own : Event → Bool
is_own (elsewhere e) = false
is_own _ = true

abbrev pub IsOwn : Event → Type 0
IsOwn e = is_own e ≡ true

issue-IsOne : (code : String) (f : Frame) (k : ℕ) → IsOne f k → IsOne (issue code f) k
unfolding Shell.step
issue-IsOne code f k h = if_both (λ g. IsOne g k) (code == "") _ _ (λ empty. h) (λ there. h)

abbrev IsSound : Page → Type 0
IsSound p = IsOne p.frame (under_way p.form)

on_submit-IsSound :
    (r : Editor × Option Patch) (p : Page)
    → p.frame.pending ≡ false
    → IsSound p
    → IsSound (on_submit r p)
on_submit-IsSound (e, none) p free h = h
on_submit-IsSound (e, some patch) p free h =
    same_count (Shell.step p.frame task_started) _ _ (omega arith)
      (started p.frame (under_way p.form) h free)

on_saved-IsSound :
    (r : Result (Unit {0})) (p : Page)
    → is_zero p.form.saving ≡ false
    → IsSound p
    → IsSound (on_saved r p)
on_saved-IsSound (value _) p some_way h = same_count p.frame _ _ (ground arith) h
on_saved-IsSound (failed m) p some_way h =
    same_count (Shell.step p.frame (task_ended (handled m))) _ _ (ground arith)
      (ended (handled m) p.frame (under_way p.form) h (ground arith))

on_answered-IsSound :
    (r : Result String) (p : Page)
    → is_zero p.form.confirming ≡ false
    → IsSound p
    → IsSound (on_answered r p)
on_answered-IsSound (value code) p some_way h =
    same_count (issue code p.frame) _ _ (ground arith)
      (issue-IsOne code p.frame (under_way p.form) h)
on_answered-IsSound (failed m) p some_way h =
    same_count (Shell.step p.frame (task_ended (rejected m))) _ _ (ground arith)
      (ended (rejected m) p.frame (under_way p.form) h (ground arith))

step-IsSound : (p : Page) (e : Event) → IsOwn e → IsSound p → IsSound (step p e)
unfolding step
step-IsSound p (submitted name expected) own h =
    if_both IsSound p.frame.pending _ _ (λ busy. h)
      (λ free. on_submit-IsSound (submit name expected p.form.nets p.form.editor) p free h)
step-IsSound p (saved r) own h =
    if_both IsSound (is_zero p.form.saving) _ _ (λ gone. h) (λ there. on_saved-IsSound r p there h)
step-IsSound p (asked action) own h = if_both IsSound p.frame.pending _ _ (λ busy. h) (λ free. h)
step-IsSound p closed own h = h
step-IsSound p confirmed own h =
    if_both IsSound (p.frame.pending || p.form.confirm == "") _ _ (λ no. h)
      (λ yes.
        same_count (Shell.step p.frame task_started) _ _ (omega arith)
          (started p.frame (under_way p.form) h (ground arith)))
step-IsSound p (answered r) own h =
    if_both IsSound (is_zero p.form.confirming) _ _ (λ gone. h)
      (λ there. on_answered-IsSound r p there h)
step-IsSound p refreshed own h =
    if_both IsSound (is_zero p.form.refreshing) _ _ (λ gone. h)
      (λ there.
        same_count (Shell.step p.frame (task_ended well)) _ _ (ground arith)
          (ended well p.frame (under_way p.form) h (ground arith)))
step-IsSound p name_typed own h = h
step-IsSound p tag_entered own h = if_both IsSound p.frame.pending _ _ (λ busy. h) (λ free. h)
step-IsSound p (tag_removed tag) own h = if_both IsSound p.frame.pending _ _ (λ busy. h) (λ free. h)
step-IsSound p (tag_typed text) own h = if_both IsSound p.frame.pending _ _ (λ busy. h) (λ free. h)
step-IsSound p (net_chosen checked name) own h = h
step-IsSound p (elsewhere e) own h = absurd (cc own)

run-IsSound : (p : Page) (es : List Event) → All IsOwn es → IsSound p → IsSound (run p es)
unfolding run
run-IsSound p [] own h = h
run-IsSound p (e ∷ es) own h = run-IsSound (step p e) es own.1 (step-IsSound p e own.0 h)

abbrev pub opened : Node → Page
opened n = record { frame = Shell.at_first; form = first n }

counted : (p : Page) → IsSound p → under_way p.form ≡ indicator p.frame.pending
counted p (inl (free, _, zero)) = rw free zero
counted p (inr (busy, _, one)) = rw busy one

-- A task from elsewhere that is over before another event of the form.
abbrev pub interlude : Ending → List Event
interlude m = elsewhere task_started ∷ elsewhere (task_ended m) ∷ []

interlude_lem :
    (m : Ending) (p : Page)
    → IsSound p
    → ((run p (interlude m)).frame.pending ≡ false) × ((run p (interlude m)).form ≡ p.form)
unfolding run step Shell.step Shell.perform
interlude_lem well p (inl (free, empty, zero)) = rw (empty, zero) (refl, refl)
interlude_lem (rejected m) p (inl (free, empty, zero)) = rw (empty, zero) (refl, refl)
interlude_lem (handled m) p (inl (free, empty, zero)) = rw (empty, zero) (refl, refl)
interlude_lem well p (inr (busy, one, same)) = rw (one, same) (refl, refl)
interlude_lem (rejected m) p (inr (busy, one, same)) = rw (one, same) (refl, refl)
interlude_lem (handled m) p (inr (busy, one, same)) = rw (one, same) (refl, refl)

-- After any events of one form on a fresh page, with no task from elsewhere, the form has at most
-- one request under way, and the buttons are disabled exactly while it has one, however its
-- requests end. A task from elsewhere that then starts and ends, well or not, such as a sign-out
-- that is rejected, frees the buttons, whatever the form has under way, and leaves the form as it was.
pub run-indicator :
    (n : Node) (es : List Event) (m : Ending)
    → All IsOwn es
    → let p = run (opened n) es in
      let q = run p (interlude m) in
      (under_way p.form ≡ indicator p.frame.pending) × (q.frame.pending ≡ false) × (q.form ≡ p.form)
run-indicator n es m own =
    let sound = run-IsSound (opened n) es own (inl (refl, refl, refl)) in
    let (free, same) = interlude_lem m (run (opened n) es) sound in
    (counted (run (opened n) es) sound, free, same)

-- What the answer to a confirmed action leaves: the dialog of the form, that of the page, its error,
-- and whether the buttons are disabled.
abbrev pub IsAnswered : Result String → Page → Page → Type 0
IsAnswered (value code) p q =
    (q.form.confirm ≡ "")
    × (code ≢ "" → dialog q.frame ≡ enrollment code)
    × (code ≡ "" → q.frame ≡ p.frame)
    × (q.frame.pending ≡ true)
IsAnswered (failed m) p q =
    (q.form.confirm ≡ p.form.confirm)
    × (q.frame.reported ≡ m)
    × (q.frame.code ≡ p.frame.code)
    × (q.frame.pending ≡ false)

issue-dialog :
    (code : String) (f : Frame)
    → (code ≢ "" → dialog (issue code f) ≡ enrollment code) × (code ≡ "" → issue code f ≡ f)
unfolding Shell.step dialog
issue-dialog code f = elim (Bool-cases (code == "")) [
  | inl empty ↦ (λ there. absurd (there (ground (arith, eq_iff code ""))), λ e. rw empty refl)
  | inr there ↦ (λ e. rw (there, there) refl, λ e. absurd (ground (arith, eq_iff code "")))
]

issue-pending : (code : String) (f : Frame) → (issue code f).pending ≡ f.pending
unfolding Shell.step
issue-pending code f =
    if_both (λ (g : Frame). g.pending ≡ f.pending) (code == "") _ _ (λ _. refl) (λ _. refl)

is_under_way :
    (p : Page)
    → IsSound p
    → is_zero p.form.confirming ≡ false
    → (p.frame.pending ≡ true) × (p.frame.tasks ≡ other ∷ [])
is_under_way p (inl (_, _, none_runs)) there = absurd (ground (arith, none_runs))
is_under_way p (inr (busy, one, _)) there = (busy, one)

on_answered-IsAnswered :
    (r : Result String) (p : Page)
    → IsSound p
    → is_zero p.form.confirming ≡ false
    → IsAnswered r p (on_answered r p)
unfolding Shell.step
on_answered-IsAnswered (value code) p sound there = (
  refl,
  (issue-dialog code p.frame).0,
  (issue-dialog code p.frame).1,
  issue-pending code p.frame ∙ (is_under_way p sound there).0,
)
on_answered-IsAnswered (failed m) p sound there =
    rw (is_under_way p sound there).1 (refl, refl, refl, refl)

-- After any events of one form on a fresh page, with no task from elsewhere: a confirmed action
-- whose answer is kept closes the form's dialog, and the page shows the code in its own dialog if
-- there is one, while the nodes are fetched again; one that is rejected leaves the dialog open and
-- the code as it was, shows its message on the page, and frees the buttons.
pub answered_lem :
    (n : Node) (es : List Event) (r : Result String)
    → All IsOwn es
    → is_zero (run (opened n) es).form.confirming ≡ false
    → IsAnswered r (run (opened n) es) (step (run (opened n) es) (answered r))
unfolding step
answered_lem n es r own there = rw there (
    on_answered-IsAnswered r (run (opened n) es)
      (run-IsSound (opened n) es own (inl (refl, refl, refl))) there)
