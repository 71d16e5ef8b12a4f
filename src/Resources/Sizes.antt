-- ===== src/Resources/Sizes.antt =====
-- The two functions `bytes`, of web/src/features/nodes/NodeResources.tsx and web/src/lib/format.ts,
-- below a byte.
use Prim.Native.Nat.{suc}
use card_scope.Base.{ℕ, ◌*◌, ◌^◌, ◌<◌, ◌≡◌, refl, false, some, is_zero, ◌&◌, arith}
use card_scope.Format
use card_scope.Format.{Level, level, below, Says, index_of, Locale, IsExponent, scale, fmt, units}
use card_scope.Format.Laws.{one_le_power, times_mono}
use card_scope.Resources.Content.{bytes}

-- Below a byte the logarithm is negative.
below_byte :
    (i : Level) (part whole : ℕ) → Says i part whole → part < whole → (k : ℕ) × (i ≡ below k)
below_byte (level e) part whole (least, most) small =
    absurd (omega (arith, times_mono _ _ whole (one_le_power e)))
below_byte (below k) part whole says small = (k, refl)

one_times : (n : ℕ) → 1024 ^ 0 * n ≡ n
one_times n = omega arith

-- Less than a byte, as a rate of fewer bytes than seconds is, is shown in bytes by the one function,
-- and by the other with the unit "undefined".
pub bytes_undefined :
    (l : Locale) (part whole : ℕ)
    → IsExponent l.exponent
    → 0 < part
    → part < whole
    → (Format.bytes l whole (some part) ≡ l.number part whole 0 & " " & "B")
      × ((k : ℕ) × (bytes l whole (some part)
            ≡ l.number (1024 ^ suc k * part) whole 1 & " " & "undefined"))
unfolding bytes Format.bytes scale fmt
bytes_undefined l part whole right positive small =
    let (k, negative) =
      below_byte (l.exponent part whole) part whole (right part whole positive (omega arith))
        small in
    let there : is_zero part ≡ false = ground arith in
    (rw (there, negative, one_times whole) refl, (k, rw (there, negative) refl))
