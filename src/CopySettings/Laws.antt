-- ===== src/CopySettings/Laws.antt =====
-- What the form of web/src/features/settings/LoginCopySettings.tsx says of what is saved.
use card_scope.Base.{
  ◌≡◌, ◌≢◌, ◌∙◌, ap, refl, sym, true, false, List, [], ◌∷◌, Option, none, some, String, arith,
  if_both,
}
use card_scope.Types.{LoginCopy}
use card_scope.Client.{value, failed}
use card_scope.CopySettings.{
  Field, eyebrow, title, description, caption, Form, first, field, with_field, on_typed,
  on_submitted, Event, loaded, typed, submitted, answered, step, run,
}

-- Nobody types while a save is under way, and the texts are loaded before there is a form.
abbrev pub IsCalmAt : Form → Event → Type 0
IsCalmAt f (typed key text) = f.busy ≡ false
IsCalmAt f (loaded r) = f.copy ≡ none
IsCalmAt f _ = Unit

unfoldable pub IsCalm : Form → List Event → Type 0
IsCalm f [] = Unit
IsCalm f (e ∷ es) = IsCalmAt f e × IsCalm (step f e) es

abbrev IsTrue : Form → Type 0
IsTrue f =
    (f.busy ≡ true → f.sent ≡ f.copy)
    × (f.saved ≡ true → f.sent ≡ f.copy)
    × (f.copy ≡ none → (f.busy ≡ false) × (f.saved ≡ false))

typed-IsTrue :
    (o : Option LoginCopy) (f : Form) (key : Field) (text : String)
    → f.busy ≡ false
    → IsTrue f
    → IsTrue (on_typed o key text f)
typed-IsTrue none f key text idle h = h
typed-IsTrue (some c) f key text idle h =
    (λ busy. absurd (cc (idle, busy)), λ saved. absurd (cc saved), λ empty. absurd (cc empty))

submitted-IsTrue :
    (o : Option LoginCopy) (f : Form) → f.copy ≡ o → IsTrue f → IsTrue (on_submitted o f)
submitted-IsTrue none f there h = h
submitted-IsTrue (some c) f there h =
    if_both IsTrue f.busy _ _ (λ again. h)
      (λ new. (λ busy. sym there, λ saved. absurd (cc saved), λ empty. absurd (cc (there, empty))))

step-IsTrue : (f : Form) (e : Event) → IsTrue f → IsCalmAt f e → IsTrue (step f e)
unfolding step
step-IsTrue f (loaded (value c)) h early =
    let (idle, unsaved) = h.2 early in
    (
      λ busy. absurd (cc (idle, busy)),
      λ saved. absurd (cc (unsaved, saved)),
      λ empty. absurd (cc empty),
    )
step-IsTrue f (loaded (failed m)) h early = h
step-IsTrue f (typed key text) h idle = typed-IsTrue f.copy f key text idle h
step-IsTrue f submitted h calm = submitted-IsTrue f.copy f refl h
step-IsTrue f (answered (value _)) h calm =
    if_both IsTrue f.busy _ _
      (λ waits.
        (λ busy. absurd (cc busy), λ saved. h.0 waits, λ empty. absurd (cc (waits, (h.2 empty).0))))
      (λ late. h)
step-IsTrue f (answered (failed m)) h calm =
    if_both IsTrue f.busy _ _
      (λ waits. (λ busy. absurd (cc busy), h.1, λ empty. (refl, (h.2 empty).1))) (λ late. h)

run-IsTrue : (f : Form) (es : List Event) → IsTrue f → IsCalm f es → IsTrue (run f es)
unfolding run IsCalm
run-IsTrue f [] h calm = h
run-IsTrue f (e ∷ es) h calm = run-IsTrue (step f e) es (step-IsTrue f e h calm.0) calm.1

-- Where the form says "已保存", the texts that it shows are those that the last save sent, if nobody
-- types while a save is under way.
pub saved_lem :
    (es : List Event)
    → IsCalm first es
    → (run first es).saved ≡ true
    → (run first es).sent ≡ (run first es).copy
saved_lem es calm saved =
    (run-IsTrue first es
        (λ busy. absurd (cc busy), λ saved. absurd (cc saved), λ empty. (refl, refl)) calm).1
      saved

field-with_field :
    (key : Field) (text : String) (c : LoginCopy) → field key (with_field key text c) ≡ text
unfolding field with_field
field-with_field eyebrow text c = refl
field-with_field title text c = refl
field-with_field description text c = refl
field-with_field caption text c = refl

abbrev text_of : Field → Option LoginCopy → String
text_of key none = ""
text_of key (some c) = field key c

-- The texts with a new one in a field are others.
changed_lem :
    (c : LoginCopy) (key : Field) (text : String)
    → text ≢ field key c
    → some c ≢ some (with_field key text c)
changed_lem c key text new same =
    new (sym (field-with_field key text c) ∙ ap (text_of key) (sym same))

-- Who types while a save is under way, and makes the field another text than it was, is told
-- "已保存" when the answer comes, though the texts in the form are not those that were sent.
pub late_typing_saved :
    (f : Form) (c : LoginCopy) (key : Field) (text : String)
    → f.copy ≡ some c
    → f.busy ≡ false
    → text ≢ field key c
    → let g = run f (submitted ∷ typed key text ∷ answered (value tt) ∷ []) in
      (g.saved ≡ true)
      × (g.copy ≡ some (with_field key text c))
      × (g.sent ≡ some c)
      × (g.sent ≢ g.copy)
unfolding run step
late_typing_saved f c key text there idle new = (
  ground (arith, there, idle),
  ground (arith, there, idle),
  ground (arith, there, idle),
  rw (there, idle) (changed_lem c key text new),
)
