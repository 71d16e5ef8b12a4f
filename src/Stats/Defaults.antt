-- ===== src/Stats/Defaults.antt =====
-- What the form of web/src/features/statistics/UserStats.tsx holds at first.
--
-- `offset_at` gives the browser's offset at a time, and `offset_of` the one that it takes for a
-- local time.
use card_scope.Base.{ℕ, ◌-◌, ◌*◌, ◌<◌, ◌≤◌, ◌≡◌, refl, Option, some, arith}
use card_scope.Base.Decimal.{read_from}
use card_scope.Time.{Offset}
use card_scope.Time.Inputs.{local_date_input, get_time, year_of_time, shifted}
use card_scope.Time.RoundTrip.{floor_minute, IsLate, get_time-local_date_input}
use card_scope.Stats.{Choice, day, range}

module _ (offset_at offset_of : ℕ → Offset) where
  -- The time of an input that was filled with `localDateInput`.
  abbrev pub filled : ℕ → Option ℕ
  filled t = get_time offset_of (local_date_input (offset_at t) t)

  -- The choices at the first render, whose two calls of the clock give `early` and `late`.
  unfoldable pub at_first : ℕ → ℕ → Choice
  at_first early late = record {
    period = "7";
    start = filled (early - 7 * day);
    finish = filled late;
    node = "";
    model = "";
    user = "";
  }

  -- At this time the browser takes the same offset for the local time as for the time itself, and
  -- the local time lies in the years 1970 to 9999.
  pub record IsPlain (t : ℕ) : Type 0 where
    pub not_before : IsLate (offset_at t) t
    pub four_digits : year_of_time (shifted (offset_at t) t) < 10000
    pub same_offset : offset_of (floor_minute (shifted (offset_at t) t)) ≡ offset_at t

  filled_lem : (t : ℕ) → IsPlain t → filled t ≡ some (floor_minute t)
  filled_lem t plain =
      get_time-local_date_input offset_of (offset_at t) t plain.not_before plain.four_digits
        plain.same_offset

  seven_days : read_from 0 "7" ≡ 7
  unfolding read_from
  seven_days = refl

  -- At first the query covers the last seven days up to the time `now`; and if "自定义" is chosen with
  -- the two times as they stand in the form, it covers the seven days up to the first render, each
  -- end without its seconds. The render is no later than `now`, and both times are plain: the
  -- browser takes the same offset for the local time as for the time itself, and the local time
  -- lies in the years 1970 to 9999.
  pub range-at_first :
      (early late now : ℕ)
      → 7 * day ≤ early
      → early ≤ late
      → late ≤ now
      → IsPlain (early - 7 * day)
      → IsPlain late
      → (range now (at_first early late) ≡ some (now - 7 * day, now))
        × (range now (record (at_first early late) { period = "custom" })
            ≡ some (floor_minute (early - 7 * day), floor_minute late))
  unfolding range at_first
  range-at_first early late now after ordered recent plain_start plain_end = (
    rw seven_days ground arith,
    rw (filled_lem (early - 7 * day) plain_start, filled_lem late plain_end) ground arith,
  )
