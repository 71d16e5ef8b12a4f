-- ===== src/Stats/Laws.antt =====
-- The range and the rows of web/src/features/statistics/UserStats.tsx.
use mathlib.Core.List.{Perm}
use card_scope.Base.{
  ℕ, ◌*◌, ◌-◌, ◌<◌, ◌≡◌, ◌≢◌, ◌⊎◌, not, List, [], ◌∷◌, Option, none, some, String, Ordering, has,
  arith, eq_iff, Bool-cases, inl, inr, ap,
}
use card_scope.Base.Sets.{has-removed, has-kept, has-append}
use card_scope.Base.Decimal.{read_from}
use card_scope.Base.Sorting.{sort-perm, IsSorted, sort-IsSorted}
use card_scope.Stats.{Choice, Row, day, ends, ordered, range, row_order, rows, toggle}

ordered_lem :
    (from to : Option ℕ) {a b : ℕ}
    → ordered from to ≡ some (a, b)
    → (from ≡ some a) × (to ≡ some b) × (a < b)
ordered_lem (some from) (some to) h = (ground arith, ground arith, ground arith)
ordered_lem (some from) none h = cc
ordered_lem none (some to) h = cc
ordered_lem none none h = cc

-- A query is sent for a range that is not empty: it starts before it ends, a range of some days
-- ends now and starts these days before, and a custom one has the two times of the form.
pub range_lem :
    (now : ℕ) (c : Choice) {from to : ℕ}
    → range now c ≡ some (from, to)
    → (from < to)
      × (c.period ≢ "custom" → (to ≡ now) × (from ≡ now - read_from 0 c.period * day))
      × (c.period ≡ "custom" → (c.start ≡ some from) × (c.finish ≡ some to))
unfolding range
range_lem now c h =
    let (start, finish, less) = ordered_lem (ends now c).0 (ends now c).1 h in
    (
      less,
      λ ne. ground (arith, start, finish, eq_iff c.period "custom"),
      λ e. ground (arith, start, finish, eq_iff c.period "custom"),
    )

starts_before :
    (now days : ℕ) → 0 < now → 0 < days → ordered (some (now - days * day)) (some now) ≢ none
starts_before now days h d = ground arith

-- The three periods of the form always give a query.
pub range_preset :
    (now : ℕ) (c : Choice)
    → 0 < now
    → (c.period ≡ "1") ⊎ (c.period ≡ "7") ⊎ (c.period ≡ "30")
    → range now c ≢ none
unfolding range read_from
range_preset now c h (inl p) e =
    starts_before now 1 h (omega arith)
      (ground (arith, eq_iff c.period "custom", eq_iff "1" "custom", ap (read_from 0) p))
range_preset now c h (inr (inl p)) e =
    starts_before now 7 h (omega arith)
      (ground (arith, eq_iff c.period "custom", eq_iff "7" "custom", ap (read_from 0) p))
range_preset now c h (inr (inr p)) e =
    starts_before now 30 h (omega arith)
      (ground (arith, eq_iff c.period "custom", eq_iff "30" "custom", ap (read_from 0) p))

-- A click on a row opens or closes it, and no other.
pub toggle_lem :
    (key other : String) (open_rows : List String)
    → (has (toggle key open_rows) key ≡ not (has open_rows key))
      × (other ≢ key → has (toggle key open_rows) other ≡ has open_rows other)
unfolding toggle
toggle_lem key other open_rows = elim (Bool-cases (has open_rows key)) [
  | inl was ↦ rw was (has-removed key open_rows, has-kept key other open_rows)
  | inr new ↦ rw new (
    ground (arith, has-append open_rows (key ∷ []) key, eq_iff key key),
    λ ne. ground (arith, has-append open_rows (key ∷ []) other, eq_iff key other),
  )
]

-- The comparison the other way round.
abbrev pub opposite : Ordering → Ordering
opposite Ordering.lt = Ordering.gt
opposite Ordering.eq = Ordering.eq
opposite Ordering.gt = Ordering.lt

-- The rows are those of the answer, with the most hours first, or by the user's name; neighbours are in that
-- order if the comparison of names is turned round with its arguments.
pub rows_lem :
    (locale_compare : String → String → Ordering) (chosen : String) (found : List Row)
    → ((a b : String) → locale_compare b a ≡ opposite (locale_compare a b))
    → Perm (rows locale_compare chosen found) found
      × IsSorted (row_order locale_compare chosen) (rows locale_compare chosen found)
unfolding rows
rows_lem locale_compare chosen found h = (
  sort-perm (row_order locale_compare chosen) found,
  sort-IsSorted (row_order locale_compare chosen)
      (λ a b p. ground (arith, h a.user b.user, h a.node b.node)) found,
)
