-- ===== src/App/Themes.antt =====
-- The theme of web/src/app/App.tsx is read back from the browser's storage.
use card_scope.Base.{
  ℕ, zero, suc, ◌≡◌, refl, ◌∙◌, Bool, true, false, Option, some, String, if◌then◌else◌,
}
use card_scope.App.{Theme, is_dark, apply_theme, opened, toggle}

abbrev pub toggle_times : ℕ → Theme → Theme
toggle_times zero t = t
toggle_times (suc n) t = toggle_times n (toggle t)

abbrev IsApplied : Theme → Type 0
IsApplied t = (is_dark t.stored ≡ t.dark) × (t.class_dark ≡ t.dark)

is_dark-text : (dark : Bool) → is_dark (some (if dark then "dark" else "light")) ≡ dark
is_dark-text true = refl
is_dark-text false = refl

apply_theme-IsApplied : (t : Theme) → IsApplied (apply_theme t)
unfolding apply_theme
apply_theme-IsApplied t = (is_dark-text t.dark, refl)

times-IsApplied : (n : ℕ) (t : Theme) → IsApplied t → IsApplied (toggle_times n t)
times-IsApplied zero t h = h
times-IsApplied (suc n) t h =
    times-IsApplied n (toggle t) (unfold toggle in apply_theme-IsApplied _)

opened-dark : (stored : Option String) → (opened stored).dark ≡ is_dark stored
unfolding opened apply_theme
opened-dark stored = refl

-- Whatever the storage held and however often the button is pressed, the document has the class of
-- the chosen theme, and the page that is opened next begins with that theme.
pub theme_lem :
    (stored : Option String) (n : ℕ)
    → let t = toggle_times n (opened stored) in
      (t.class_dark ≡ t.dark) × ((opened t.stored).dark ≡ t.dark)
theme_lem stored n =
    let t = toggle_times n (opened stored) in
    let applied = times-IsApplied n (opened stored) (unfold opened in apply_theme-IsApplied _) in
    (applied.1, opened-dark t.stored ∙ applied.0)
