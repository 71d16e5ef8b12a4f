-- ===== src/Time/HeaderClock.antt =====
-- web/src/components/HeaderClock.tsx: the clock in the topbar.
use card_scope.Base.{ℕ, Bool, true, false, String, ◌&◌, if◌then◌else◌}
use card_scope.Time.{Offset, time_zone_label}
use card_scope.Time.Inputs.{to_iso_string}
use card_scope.Time.Display.{format_date_time}

-- The time on display, and what the effect has set up: the interval and the listener.
pub record Clock : Type 0 where
  pub now : ℕ
  pub timer : Bool
  pub listening : Bool

-- What happens: the first render at a time, and its effect; the interval fires or the page is shown
-- or hidden at a time; the cleanup.
pub data Event : Type 0 where
  mounted : Event
  ticked visibility_changed : ℕ → Event
  unmounted : Event

abbrev pub first : ℕ → Clock
first now = record { now = now; timer = false; listening = false }

unfoldable pub step : Clock → Event → Clock
step c mounted = record c { timer = true; listening = true }
step c (ticked now) = if c.timer then record c { now = now } else c
step c (visibility_changed now) = if c.listening then record c { now = now } else c
step c unmounted = record c { timer = false; listening = false }

-- What is shown, in a zone with this name and this offset at that time.
pub record Face : Type 0 where
  pub title : String
  pub date_time : String
  pub text : String
  pub label : String

unfoldable pub face : String → (ℕ → Offset) → Clock → Face
face zone offset_at c =
    let label = time_zone_label zone (offset_at c.now) in
    record {
      title = "所有时间均按浏览器时区显示：" & label;
      date_time = to_iso_string c.now;
      text = format_date_time (offset_at c.now) c.now;
      label = label;
    }
