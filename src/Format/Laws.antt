-- ===== src/Format/Laws.antt =====
-- The unit that web/src/lib/format.ts chooses for a size.
use Prim.Native.Nat.{zero, suc}
use Prim.Native.Nat.pow
use card_scope.Base.{ℕ, ◌*◌, ◌^◌, ◌≤◌, ◌<◌, arith}
use card_scope.Format.{Level, level, below, Says, index_of, Locale, IsExponent, scale}

above_five : (k : ℕ) → 1024 ^ 5 ≤ 1024 ^ suc (suc (suc (suc (suc k))))
above_five zero = omega arith
above_five (suc k) = omega (arith, above_five k, pow.suc 1024 (suc (suc (suc (suc (suc k))))))

pub one_le_power : (k : ℕ) → 1 ≤ 1024 ^ k
one_le_power zero = omega arith
one_le_power (suc k) = omega (arith, one_le_power k, pow.suc 1024 k)

pub times_mono : (a b c : ℕ) → a ≤ b → a * c ≤ b * c
times_mono a b c h = grind (arith, h)

scale_of :
    (i : Level) (part whole : ℕ)
    → Says i part whole
    → whole ≤ part
    → part < 1024 ^ 5 * whole
    → (1024 ^ index_of i * whole ≤ part) × (part < 1024 ^ index_of i * (1024 * whole))
scale_of (level zero) part whole (least, most) large small = (omega arith, omega arith)
scale_of (level (suc zero)) part whole (least, most) large small = (omega arith, omega arith)
scale_of (level (suc (suc zero))) part whole (least, most) large small = (omega arith, omega arith)
scale_of (level (suc (suc (suc zero)))) part whole (least, most) large small =
    (omega arith, omega arith)
scale_of (level (suc (suc (suc (suc zero))))) part whole (least, most) large small =
    (omega arith, omega arith)
scale_of (level (suc (suc (suc (suc (suc k)))))) part whole (least, most) large small =
    absurd (omega (arith, times_mono _ _ whole (above_five k)))
scale_of (below k) part whole (least, most) large small =
    absurd (omega (arith, times_mono _ _ part (one_le_power k)))

-- A size of at least a byte and below 1024 TB is shown in the unit in which it is at least 1 and
-- less than 1024, where the logarithm is rounded down rightly.
pub scale_bounds :
    (l : Locale) (part whole : ℕ)
    → IsExponent l.exponent
    → 0 < whole
    → whole ≤ part
    → part < 1024 ^ 5 * whole
    → (1024 ^ scale l part whole * whole ≤ part)
      × (part < 1024 ^ scale l part whole * (1024 * whole))
unfolding scale
scale_bounds l part whole right positive large small =
    scale_of (l.exponent part whole) part whole (right part whole (omega arith) positive) large
      small
