-- ===== src/CopySettings.antt =====
-- web/src/features/settings/LoginCopySettings.tsx: the form for the texts of the sign-in page.
--
-- The button is disabled while a save is under way; the fields are not. A save under way keeps the
-- texts that it sent, as the body of its request does.
pub mod Laws
use card_scope.Base.{ℕ, Bool, true, false, List, [], ◌∷◌, Option, none, some, String, if◌then◌else◌}
use card_scope.Types.{LoginCopy}
use card_scope.Client.{Result, value, failed}

pub data Field : Type 0 where
  eyebrow title description caption : Field

-- The fields in their order, with the label and the longest text of each.
unfoldable pub fields : List (Field × String × ℕ)
fields =
    (eyebrow, "顶部标语", 80)
    ∷ (title, "主标题", 120)
    ∷ (description, "说明文字", 1000)
    ∷ (caption, "底部文字", 200)
    ∷ []

abbrev pub rows : Field → ℕ
rows description = 4
rows _ = 2

pub record Form : Type 0 where
  pub copy : Option LoginCopy
  pub error : String
  pub saved : Bool
  pub busy : Bool
  pub sent : Option LoginCopy

abbrev pub first : Form
first = record { copy = none; error = ""; saved = false; busy = false; sent = none }

-- `{ ...copy, [key]: text }`.
unfoldable pub with_field : Field → String → LoginCopy → LoginCopy
with_field eyebrow text c = record c { eyebrow = text }
with_field title text c = record c { title = text }
with_field description text c = record c { description = text }
with_field caption text c = record c { caption = text }

unfoldable pub field : Field → LoginCopy → String
field eyebrow c = c.eyebrow
field title c = c.title
field description c = c.description
field caption c = c.caption

-- What happens: the answer to GET /login-copy, typing in a field, a submission, and the answer to
-- PUT /login-copy.
pub data Event : Type 0 where
  loaded : Result LoginCopy → Event
  typed : Field → String → Event
  submitted : Event
  answered : Result (Unit {0}) → Event

abbrev on_loaded : Result LoginCopy → Form → Form
on_loaded (value c) f = record f { copy = some c }
on_loaded (failed m) f = record f { error = m }

-- There is no form before the texts are there.
abbrev pub on_typed : Option LoginCopy → Field → String → Form → Form
on_typed none key text f = f
on_typed (some c) key text f = record f { copy = some (with_field key text c); saved = false }

abbrev pub on_submitted : Option LoginCopy → Form → Form
on_submitted none f = f
on_submitted (some c) f =
    if f.busy then f else record f { busy = true; saved = false; error = ""; sent = some c }

abbrev on_answered : Result (Unit {0}) → Form → Form
on_answered (value _) f = record f { saved = true }
on_answered (failed m) f = record f { error = m }

unfoldable pub step : Form → Event → Form
step f (loaded r) = on_loaded r f
step f (typed key text) = on_typed f.copy key text f
step f submitted = on_submitted f.copy f
step f (answered r) = if f.busy then record (on_answered r f) { busy = false } else f

unfoldable pub run : Form → List Event → Form
run f [] = f
run f (e ∷ es) = run (step f e) es
