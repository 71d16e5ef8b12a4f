-- ===== src/Select/Shown.antt =====
-- What web/src/components/ui/select.tsx shows, hands on and sends.
use mathlib.Core.Path.{subst}
use mathlib.Core.List.{Memᴰ}
use card_scope.Base.{
  ◌≡◌, refl, sym, ◌∙◌, ap, Bool, true, arith, ◌||◌, ◌&&◌, not, if◌then◌else◌, Option, ◌==◌, List,
  [], ◌∷◌, none, some, String, All, if_both,
}
use card_scope.Select.{
  Props, Choice, Entry, encode, slice_from, or_else, options, reset_value, selected, form_data,
  items, items_of, first, on_value_change, listens, on_reset, Event, value_changed, form_reset,
  step, run,
}
use card_scope.Select.Laws.{slice_from-encode}

-- The underlying list reports an item of its own that can be chosen.
abbrev pub IsReport : Props → Event → Type 0
IsReport p (value_changed encoded) = (label : String) × Memᴰ (encoded, label, true) (items p)
IsReport p form_reset = Unit

-- It is the value of an option.
abbrev pub IsValue : Props → String → Type 0
IsValue p v = (o : Entry) × Memᴰ o (options p.children) × (o.value ≡ v)

item-value :
    (os : List Entry) (encoded label : String) (free : Bool)
    → Memᴰ (encoded, label, free) (items_of os)
    → (o : Entry) × Memᴰ o os × (encode o.value ≡ encoded)
item-value [] encoded label free h = elim h [ ]
item-value (o ∷ os) encoded label free (Memᴰ.head e) = (o, Memᴰ.head refl, sym (ap (λ t. t.0) e))
item-value (o ∷ os) encoded label free (Memᴰ.tail h) =
    let (found, there, same) = item-value os encoded label free h in (found, Memᴰ.tail there, same)

reported-IsValue :
    (p : Props) (encoded label : String)
    → Memᴰ (encoded, label, true) (items p)
    → IsValue p (slice_from 7 encoded)
unfolding items
reported-IsValue p encoded label there =
    let (o, listed, same) = item-value (options p.children) encoded label true there in
    (o, listed, sym (slice_from-encode o.value) ∙ ap (slice_from 7) same)

-- The state holds the value of an option, and so do all values that were handed on.
abbrev AreValues : Props → Choice → Type 0
AreValues p s = IsValue p s.internal × All (IsValue p) s.handed

step-AreValues :
    (p : Props) (s : Choice) (e : Event)
    → IsValue p (reset_value p)
    → IsReport p e
    → AreValues p s
    → AreValues p (step p s e)
unfolding step on_value_change on_reset
step-AreValues p s (value_changed encoded) start (label, there) (own, handed) =
    let next = reported-IsValue p encoded label there in (next, (next, handed))
step-AreValues p s form_reset start reported (own, handed) =
    if_both (AreValues p) (listens p) _ _ (λ yes. (start, handed)) (λ no. (own, handed))

run-AreValues :
    (p : Props) (s : Choice) (es : List Event)
    → IsValue p (reset_value p)
    → All (IsReport p) es
    → AreValues p s
    → AreValues p (run p s es)
unfolding run
run-AreValues p s [] start reported h = h
run-AreValues p s (e ∷ es) start (report, reported) h =
    run-AreValues p (step p s e) es start reported (step-AreValues p s e start report h)

first-AreValues : (p : Props) → IsValue p (reset_value p) → AreValues p (first p)
unfolding first
first-AreValues p start = (start, tt)

-- What a user does: a choice of a value, or a reset of the form.
abbrev pub Act : Type 0
Act = Option String

abbrev pub event_of : Act → Event
event_of (some v) = value_changed (encode v)
event_of none = form_reset

abbrev pub events_of : List Act → List Event
events_of [] = []
events_of (a ∷ acts) = event_of a ∷ events_of acts

-- The value chosen last, unless a reset came after it that reaches the list: one with a name, in a
-- form.
unfoldable pub latest : Props → String → List Act → String
latest p v [] = v
latest p v (some w ∷ acts) = latest p w acts
latest p v (none ∷ acts) =
    latest p (if not (p.name == "") && p.in_form then reset_value p else v) acts

-- The values chosen, the last one first.
unfoldable pub picked : List String → List Act → List String
picked before [] = before
picked before (some v ∷ acts) = picked (v ∷ before) acts
picked before (none ∷ acts) = picked before acts

-- An item of the underlying list that can be chosen is the choice.
abbrev pub IsOffered : Props → Act → Type 0
IsOffered p a = IsReport p (event_of a)

reported-All :
    (p : Props) (acts : List Act) → All (IsOffered p) acts → All (IsReport p) (events_of acts)
reported-All p [] h = tt
reported-All p (a ∷ acts) h = (h.0, reported-All p acts h.1)

reset_lem :
    (p : Props) (s : Choice)
    → p.value ≡ none
    → step p s form_reset ≡ record s {
      internal = if not (p.name == "") && p.in_form then reset_value p else s.internal;
    }
unfolding step on_reset
reset_lem p s own = rw own (ground arith)

abbrev picking : Choice → String → Choice
picking s v = record { internal = v; handed = v ∷ s.handed }

chosen_step : (p : Props) (s : Choice) (v : String) → step p s (event_of (some v)) ≡ picking s v
unfolding step on_value_change
chosen_step p s v = ap (picking s) (slice_from-encode v)

-- What a run leaves.
abbrev Leaves : Props → Choice → List Event → String → List String → Type 0
Leaves p s es v vs = ((run p s es).internal ≡ v) × ((run p s es).handed ≡ vs)

run_lem :
    (p : Props) (s : Choice) (acts : List Act)
    → p.value ≡ none
    → Leaves p s (events_of acts) (latest p s.internal acts) (picked s.handed acts)
unfolding run latest picked
run_lem p s [] own = (refl, refl)
run_lem p s (some v ∷ acts) own =
    subst (λ t. Leaves p t (events_of acts) (latest p v acts) (picked (v ∷ s.handed) acts))
      (sym (chosen_step p s v)) (run_lem p (picking s v) acts own)
run_lem p s (none ∷ acts) own =
    let next = if not (p.name == "") && p.in_form then reset_value p else s.internal in
    subst (λ t. Leaves p t (events_of acts) (latest p next acts) (picked s.handed acts))
      (sym (reset_lem p s own)) (run_lem p (record s { internal = next }) acts own)

-- After any choices of items that it offers and any resets, a list that keeps its own value, whose
-- value after a reset is one of its options', shows the value chosen last, or after a later reset
-- that reaches it its value after a reset, which is an option's either way. It has handed on the
-- values chosen, each once and in their order, and sends the value that it shows under its name,
-- unless it has none or is disabled, where it sends nothing.
pub run-IsValue :
    (p : Props) (acts : List Act)
    → p.value ≡ none
    → IsValue p (reset_value p)
    → All (IsOffered p) acts
    → let s = run p (first p) (events_of acts) in
      let v = latest p (reset_value p) acts in
      (selected p s.internal ≡ v)
      × IsValue p v
      × (s.handed ≡ picked [] acts)
      × All (IsValue p) s.handed
      × (form_data p s.internal ≡ (if p.name == "" || p.disabled then [] else (p.name, v) ∷ []))
unfolding selected form_data first
run-IsValue p acts own start offered =
    let s = run p (first p) (events_of acts) in
    let reported = reported-All p acts offered in
    let (value, handed) =
      run-AreValues p (first p) (events_of acts) start reported (first-AreValues p start) in
    let (shown, given) = run_lem p (first p) acts own in
    let seen = ap (λ v. or_else v s.internal) own ∙ shown in
    (
      seen,
      subst (IsValue p) shown value,
      given,
      handed,
      ap (λ v. if p.name == "" || p.disabled then [] else (p.name, v) ∷ []) seen,
    )

-- A choice is shown at once, and handed on, whatever came before, where the list keeps its value.
pub chosen_lem :
    (p : Props) (s : Choice) (v : String)
    → let t = step p s (value_changed (encode v)) in
      (t.handed ≡ v ∷ s.handed)
      × (p.value ≡ none → selected p t.internal ≡ v)
      × ((given : String) → p.value ≡ some given → selected p t.internal ≡ given)
unfolding step on_value_change selected
chosen_lem p s v = (
  ap (λ n. n ∷ s.handed) (slice_from-encode v),
  λ own. rw own (slice_from-encode v),
  λ given e. rw e refl,
)
