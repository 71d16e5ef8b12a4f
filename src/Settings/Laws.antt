-- ===== src/Settings/Laws.antt =====
-- The form for passwords in web/src/features/settings/Settings.tsx.
use card_scope.Base.{◌+◌, ◌≡◌, refl, true, false, List, [], ◌∷◌, inl, inr, arith, if_both, is_zero}
use card_scope.Client.{Result, value, failed}
use card_scope.Select
use card_scope.Shell
use card_scope.Shell.{Frame, other, well, rejected, task_started, task_ended}
use card_scope.Shell.Forms.{IsOne, same_count, started, ended}
use card_scope.Settings.{
  account_list, blank, Page, Event, filled, submitted, answered, refreshed, on_answered, step, run,
}

abbrev IsSound : Page → Type 0
IsSound p = IsOne p.frame (p.updating + p.refreshing)

on_answered-IsSound :
    (r : Result (Unit {0})) (p : Page)
    → is_zero p.updating ≡ false
    → IsSound p
    → IsSound (on_answered r p)
on_answered-IsSound (value _) p there h = same_count p.frame _ _ (ground arith) h
on_answered-IsSound (failed m) p there h =
    same_count (Shell.step p.frame (task_ended (rejected m))) _ _ (ground arith)
      (ended (rejected m) p.frame (p.updating + p.refreshing) h (ground arith))

step-IsSound : (p : Page) (e : Event) → IsSound p → IsSound (step p e)
unfolding step
step-IsSound p (filled f) h = h
step-IsSound p submitted h =
    if_both IsSound p.frame.pending _ _ (λ busy. h)
      (λ free.
        same_count (Shell.step p.frame task_started) _ _ (omega arith)
          (started p.frame (p.updating + p.refreshing) h free))
step-IsSound p (answered r) h =
    if_both IsSound (is_zero p.updating) _ _ (λ gone. h) (λ there. on_answered-IsSound r p there h)
step-IsSound p refreshed h =
    if_both IsSound (is_zero p.refreshing) _ _ (λ gone. h)
      (λ there.
        same_count (Shell.step p.frame (task_ended well)) _ _ (ground arith)
          (ended well p.frame (p.updating + p.refreshing) h (ground arith)))

run-IsSound : (p : Page) (es : List Event) → IsSound p → IsSound (run p es)
unfolding run
run-IsSound p [] h = h
run-IsSound p (e ∷ es) h = run-IsSound (step p e) es (step-IsSound p e h)

abbrev pub opened : Page
opened = record { frame = Shell.at_first; form = blank; updating = 0; refreshing = 0 }

-- A reset of the form leaves the account of the blank form in its list.
account_reset :
    (s : Select.Choice) → (Select.step account_list s Select.form_reset).internal ≡ blank.username
unfolding Select.step Select.on_reset Select.reset_value Select.options
account_reset s = refl

-- What the answer to a change of a password leaves of the form and of the page.
abbrev pub IsLeft : Result (Unit {0}) → Page → Page → Type 0
IsLeft (value _) p q =
    (q.form ≡ blank) × (q.frame.pending ≡ true) × (q.frame.reported ≡ p.frame.reported)
IsLeft (failed m) p q = (q.form ≡ p.form) × (q.frame.pending ≡ false) × (q.frame.reported ≡ m)

on_answered-IsLeft :
    (r : Result (Unit {0})) (p : Page)
    → IsSound p
    → is_zero p.updating ≡ false
    → IsLeft r p (on_answered r p)
unfolding Shell.step
on_answered-IsLeft r p (inl (_, _, none_runs)) there = absurd (ground (arith, none_runs))
on_answered-IsLeft (value _) p (inr (busy, one, _)) there = (refl, busy, refl)
on_answered-IsLeft (failed m) p (inr (busy, one, _)) there = rw one (refl, refl, refl)

-- A change of a password that is kept puts the form back to its first account and no text, while
-- the buttons wait for the nodes; one that is rejected keeps what was typed, shows its message on
-- the page, and frees the buttons.
pub answered-IsLeft :
    (es : List Event) (r : Result (Unit {0}))
    → is_zero (run opened es).updating ≡ false
    → IsLeft r (run opened es) (step (run opened es) (answered r))
unfolding step
answered-IsLeft es r there =
    rw there
      (on_answered-IsLeft r (run opened es) (run-IsSound opened es (inl (refl, refl, refl))) there)
