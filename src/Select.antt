-- ===== src/Select.antt =====
-- web/src/components/ui/select.tsx: the choice of a list. The underlying list, which is a library's,
-- keeps the empty text for itself, so each value is given to it behind a prefix.
pub mod Laws
pub mod Shown
use card_scope.Base.{
  ℕ, zero, suc, Bool, true, false, not, ◌&&◌, ◌||◌, Option, none, some, String, List, [], ◌∷◌,
  is_some, ◌&◌, ◌==◌, if◌then◌else◌,
}

abbrev pub encode : String → String
encode value = "option:" & value

-- `s.slice(n)`.
unfoldable pub slice_from : ℕ → String → String
slice_from zero s = s
slice_from (suc n) String.[] = ""
slice_from (suc n) (String.◌∷◌ c s) = slice_from n s

abbrev pub or_else {ℓ} : {A : Type ℓ} → Option A → A → A
or_else none b = b
or_else (some a) b = a

-- A child of the list: an `option` with its value, if it has one, its text, and whether it is
-- disabled; or something that is no element, such as `false`.
pub data Child : Type 0 where
  element : Option String → String → Bool → Child
  no_element : Child

pub record Entry : Type 0 where
  pub value : String
  pub label : String
  pub disabled : Bool

unfoldable pub options : List Child → List Entry
options [] = []
options (element value text disabled ∷ cs) =
    record { value = or_else value text; label = text; disabled = disabled } ∷ options cs
options (no_element ∷ cs) = options cs

-- The props that matter, with the empty text for no name, and whether a form holds the list.
pub record Props : Type 0 where
  pub children : List Child
  pub value : Option String
  pub default_value : Option String
  pub name : String
  pub disabled : Bool
  pub in_form : Bool

abbrev pub first_value : List Entry → String
first_value [] = ""
first_value (o ∷ os) = o.value

-- `defaultValue ?? options[0]?.value ?? ''`: the state at first, and after a reset of the form.
unfoldable pub reset_value : Props → String
reset_value p = or_else p.default_value (first_value (options p.children))

-- The value that is shown.
unfoldable pub selected : Props → String → String
selected p internal = or_else p.value internal

-- The hidden input, which a list with a name has, is what the form sends; a disabled one is not
-- sent.
unfoldable pub form_data : Props → String → List (String × String)
unfolding selected
form_data p internal = if p.name == "" || p.disabled then [] else (p.name, selected p internal) ∷ []

-- The items of the underlying list: the value, the text, and whether it can be chosen.
abbrev pub items_of : List Entry → List (String × String × Bool)
items_of [] = []
items_of (o ∷ os) = (encode o.value, o.label, not o.disabled) ∷ items_of os

unfoldable pub items : Props → List (String × String × Bool)
items p = items_of (options p.children)

-- The state `internal`, and the values that `onChange` was given, the last one first.
pub record Choice : Type 0 where
  pub internal : String
  pub handed : List String

unfoldable pub first : Props → Choice
first p = record { internal = reset_value p; handed = [] }

-- `onValueChange`.
unfoldable pub on_value_change : String → Choice → Choice
on_value_change encoded s =
    let next = slice_from 7 encoded in record { internal = next; handed = next ∷ s.handed }

-- The effect listens for a reset of the form that holds the hidden input, unless the value is given.
abbrev pub listens : Props → Bool
listens p = not (p.name == "") && p.in_form && not (is_some p.value)

unfoldable pub on_reset : Props → Choice → Choice
on_reset p s = if listens p then record s { internal = reset_value p } else s

-- What happens: the underlying list reports a choice; the form is reset.
pub data Event : Type 0 where
  value_changed : String → Event
  form_reset : Event

unfoldable pub step : Props → Choice → Event → Choice
step p s (value_changed encoded) = on_value_change encoded s
step p s form_reset = on_reset p s

unfoldable pub run : Props → Choice → List Event → Choice
run p s [] = s
run p s (e ∷ es) = run p (step p s e) es
