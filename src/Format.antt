-- ===== src/Format.antt =====
-- web/src/lib/format.ts and web/src/components/Meter.tsx: numbers, sizes and times as texts.
--
-- What the browser does is the record Locale: `toLocaleString` and `toLocaleTimeString` for zh-CN,
-- `toFixed`, `toUpperCase`, and the logarithm of `bytes`, whose rounding is not modelled.
pub mod Laws
use Prim.Native.Nat.{min, zero, suc}
use card_scope.Base.{
  ℕ, ◌^◌, ◌≤◌, ◌<◌, ◌*◌, ◌+◌, Option, none, some, String, ltb, is_zero, show, ◌&◌, if◌then◌else◌,
}
use card_scope.Types.{Metric}

-- A whole number that may be negative: `level e` is e, and `below k` is -(k + 1).
pub data Level : Type 0 where
  level below : ℕ → Level

-- `number part whole digits` is `part / whole` with at most so many digits after the point;
-- `exponent part whole` is `Math.floor(Math.log(part / whole) / Math.log(1024))`; `per_watt` and
-- `per_byte` say in how many units a watt and a byte a second are counted here;
-- `percent part whole` is `((part / whole) * 100).toFixed(1)`.
pub record Locale : Type 0 where
  pub number : ℕ → ℕ → ℕ → String
  pub exponent : ℕ → ℕ → Level
  pub per_watt : ℕ
  pub per_byte : ℕ
  pub date_time : ℕ → String
  pub time : ℕ → String
  pub percent : ℕ → ℕ → String
  pub upper : String → String

-- What the logarithm of `part / whole`, rounded down, says of it.
abbrev pub Says : Level → ℕ → ℕ → Type 0
Says (level e) part whole = (1024 ^ e * whole ≤ part) × (part < 1024 ^ suc e * whole)
Says (below k) part whole = (whole ≤ 1024 ^ suc k * part) × (1024 ^ k * part < whole)

-- The logarithm is rounded down rightly.
abbrev pub IsExponent : (ℕ → ℕ → Level) → Type 0
IsExponent exponent =
    (part whole : ℕ) → 0 < part → 0 < whole → Says (exponent part whole) part whole

abbrev pub units : ℕ → String
units zero = "B"
units (suc zero) = "KB"
units (suc (suc zero)) = "MB"
units (suc (suc (suc zero))) = "GB"
units _ = "TB"

-- The index of the unit.
abbrev pub index_of : Level → ℕ
index_of (level e) = min 4 e
index_of (below k) = 0

unfoldable pub scale : Locale → ℕ → ℕ → ℕ
scale l part whole = index_of (l.exponent part whole)

-- `fmt`, of a metric that counts so many units for one.
unfoldable pub fmt : Locale → ℕ → ℕ → Metric → String
fmt l whole digits none = "—"
fmt l whole digits (some v) = l.number v whole digits

-- `bytes`, of a metric that counts so many units for a byte.
unfoldable pub bytes : Locale → ℕ → Metric → String
bytes l whole none = "—"
bytes l whole (some v) =
    if is_zero v
    then "0 B"
    else fmt l (1024 ^ scale l v whole * whole) (if ltb 0 (scale l v whole) then 1 else 0) (some v)
      & " "
      & units (scale l v whole)

unfoldable pub when : Locale → ℕ → String
when l v = if is_zero v then "尚未上报" else l.date_time v

-- The width of a meter, in percent: `Math.max(0, Math.min(100, value || 0))`.
unfoldable pub meter : Metric → ℕ
meter none = 0
meter (some v) = min 100 v
