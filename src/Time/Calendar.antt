-- ===== src/Time/Calendar.antt =====
-- The calendar that the browser's `Date` follows: the days since 1970-01-01 as a year, a month and
-- a day, the months and the days counted from 0. The times are those since 1970.
use card_scope.Base.{
  ℕ, zero, suc, ◌+◌, ◌-◌, ◌*◌, ◌/◌, ◌%◌, ◌<◌, ◌≤◌, ◌≡◌, refl, Bool, not, ◌&&◌, ◌||◌, List, [], ◌∷◌,
  ltb, nat_eq, total, length, All, Bool-cases, inl, inr, arith, if◌then◌else◌,
}

abbrev pub is_leap : ℕ → Bool
is_leap y = nat_eq (y % 4) 0 && not (nat_eq (y % 100) 0) || nat_eq (y % 400) 0

unfoldable pub days_in_year : ℕ → ℕ
days_in_year y = if is_leap y then 366 else 365

unfoldable pub month_lengths : ℕ → List ℕ
month_lengths y =
    31 ∷ (if is_leap y then 29 else 28) ∷ 31 ∷ 30 ∷ 31 ∷ 30 ∷ 31 ∷ 31 ∷ 30 ∷ 31 ∷ 30 ∷ 31 ∷ []

-- The days from 1970 to the year that is `k` later.
unfoldable pub days_before : ℕ → ℕ
days_before zero = 0
days_before (suc k) = days_before k + days_in_year (1970 + k)

-- The years after 1970 and the day of the year, with fuel: a year has at least 365 days.
unfoldable pub find_year : ℕ → ℕ → ℕ → ℕ × ℕ
find_year zero k d = (k, d)
find_year (suc fuel) k d =
    let rest = find_year fuel (suc k) (d - days_in_year (1970 + k)) in
    if ltb d (days_in_year (1970 + k)) then (k, d) else rest

unfoldable pub year_of : ℕ → ℕ × ℕ
year_of d = find_year (d / 365) 0 d

-- The month and the day of the month.
unfoldable pub find_month : List ℕ → ℕ → ℕ × ℕ
find_month [] d = (0, d)
find_month (m ∷ ms) d =
    let rest = find_month ms (d - m) in if ltb d m then (0, d) else (suc rest.0, rest.1)

-- The days of the first months of a year.
unfoldable pub months_before : List ℕ → ℕ → ℕ
months_before ms zero = 0
months_before [] (suc i) = 0
months_before (m ∷ ms) (suc i) = m + months_before ms i

abbrev pub length_of : List ℕ → ℕ → ℕ
length_of [] i = 0
length_of (m ∷ ms) zero = m
length_of (m ∷ ms) (suc i) = length_of ms i

-- The days before a date, with the month and the day counted from 0.
unfoldable pub day_number : ℕ → ℕ → ℕ → ℕ
day_number y m d = days_before (y - 1970) + months_before (month_lengths y) m + d

year_length : (y : ℕ) → (365 ≤ days_in_year y) × (days_in_year y ≤ 366)
unfolding days_in_year
year_length y = (ground arith, ground arith)

total-month_lengths : (y : ℕ) → total (λ m. m) (month_lengths y) ≡ days_in_year y
unfolding month_lengths days_in_year
total-month_lengths y = ground arith

find_year-sum :
    (fuel k d : ℕ) → days_before (find_year fuel k d).0 + (find_year fuel k d).1 ≡ days_before k + d
unfolding find_year days_before
find_year-sum zero k d = refl
find_year-sum (suc fuel) k d = elim (Bool-cases (ltb d (days_in_year (1970 + k)))) [
  | inl here ↦ rw here refl
  | inr later ↦ rw later (ground (arith, find_year-sum fuel (suc k) (d - days_in_year (1970 + k))))
]

-- Enough fuel finds the year.
find_year-bound :
    (fuel k d : ℕ)
    → d < 365 * (fuel + 1)
    → (find_year fuel k d).1 < days_in_year (1970 + (find_year fuel k d).0)
unfolding find_year
find_year-bound zero k d h = omega (arith, (year_length (1970 + k)).0)
find_year-bound (suc fuel) k d h = elim (Bool-cases (ltb d (days_in_year (1970 + k)))) [
  | inl here ↦ rw here (ground arith)
  | inr later ↦ rw later (
      find_year-bound fuel (suc k) (d - days_in_year (1970 + k))
        (ground (arith, (year_length (1970 + k)).0)))
]

pub year_of-lem :
    (d : ℕ)
    → (days_before (year_of d).0 + (year_of d).1 ≡ d)
      × ((year_of d).1 < days_in_year (1970 + (year_of d).0))
unfolding year_of days_before
year_of-lem d =
    (omega (arith, find_year-sum (d / 365) 0 d), find_year-bound (d / 365) 0 d (omega arith))

pub find_month_lem :
    (ms : List ℕ) (d : ℕ)
    → d < total (λ m. m) ms
    → (months_before ms (find_month ms d).0 + (find_month ms d).1 ≡ d)
      × ((find_month ms d).1 < length_of ms (find_month ms d).0)
unfolding find_month months_before
find_month_lem [] d h = absurd (omega arith)
find_month_lem (m ∷ ms) d h = elim (Bool-cases (ltb d m)) [
  | inl here ↦ rw here (omega arith, ground arith)
  | inr later ↦
      let (sum, below) = find_month_lem ms (d - m) (ground arith) in
      rw later (ground (arith, sum), below)
]

pub find_month-length :
    (ms : List ℕ) (d : ℕ) → d < total (λ m. m) ms → (find_month ms d).0 < length ms
unfolding find_month
find_month-length [] d h = absurd (omega arith)
find_month-length (m ∷ ms) d h = elim (Bool-cases (ltb d m)) [
  | inl here ↦ rw here omega arith
  | inr later ↦ rw later (omega (arith, find_month-length ms (d - m) (ground arith)))
]

length_of-le : (b : ℕ) (ms : List ℕ) (i : ℕ) → All (λ m. m ≤ b) ms → length_of ms i ≤ b
length_of-le b [] i h = omega arith
length_of-le b (m ∷ ms) zero h = h.0
length_of-le b (m ∷ ms) (suc i) h = length_of-le b ms i h.1

short_months : (y : ℕ) → All (λ m. m ≤ 31) (month_lengths y)
unfolding month_lengths
short_months y = ground arith

back : (k : ℕ) → 1970 + k - 1970 ≡ k
back k = omega arith

-- The date of a day: its month is one of twelve, its day one of the month's, and its number is the
-- day's.
pub date_lem :
    (d : ℕ)
    → let (k, rest) = year_of d in
      let ms = month_lengths (1970 + k) in
      let (m, day) = find_month ms rest in
      (m < 12) × (day < length_of ms m) × (day < 31) × (day_number (1970 + k) m day ≡ d)
date_lem d =
    let (k, rest) = year_of d in
    let ms = month_lengths (1970 + k) in
    let (m, day) = find_month ms rest in
    let (whole, below) = year_of-lem d in
    let fits : rest < total (λ n. n) ms = rw (total-month_lengths (1970 + k)) below in
    let (sum, within) = find_month_lem ms rest fits in
    (
      unfold month_lengths in find_month-length ms rest fits,
      within,
      omega (arith, within, length_of-le 31 ms m (short_months (1970 + k))),
      unfold day_number in rw (back k) (omega (arith, whole, sum)),
    )
