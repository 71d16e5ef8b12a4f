-- ===== src/Time.antt =====
-- web/src/lib/time.ts: the label of the browser's time zone.
pub mod Laws
pub mod Calendar
pub mod Patterns
pub mod Inputs
pub mod RoundTrip
pub mod Display
pub mod Agreement
pub mod HeaderClock
use card_scope.Base.{
  ℕ, suc, ◌+◌, ◌-◌, ◌/◌, ◌%◌, Bool, true, false, String, show, points, ◌&◌, nat_eq, if◌then◌else◌,
}

-- `-date.getTimezoneOffset()`: the minutes ahead of UTC, or one more than the number given behind.
pub data Offset : Type 0 where
  ahead : ℕ → Offset
  behind : ℕ → Offset

-- `Math.abs(offset)` and the sign.
abbrev pub magnitude : Offset → ℕ
magnitude (ahead m) = m
magnitude (behind m) = suc m

abbrev pub sign : Offset → String
sign (ahead m) = "+"
sign (behind m) = "-"

-- `s.padStart(2, '0')`.
abbrev pub pad_start : String → String
pad_start s = if nat_eq (points s) 0 then "00" else if nat_eq (points s) 1 then "0" & s else s

unfoldable pub hours : Offset → String
hours offset = pad_start (show (magnitude offset / 60))

unfoldable pub minutes : Offset → String
minutes offset = pad_start (show (magnitude offset % 60))

-- The zone's name is the browser's.
unfoldable pub time_zone_label : String → Offset → String
time_zone_label zone offset = zone & " · UTC" & sign offset & hours offset & ":" & minutes offset
