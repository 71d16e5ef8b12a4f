-- ===== src/Tests/Sizes.antt =====
-- Sizes, with a logarithm that counts divisions.
use Prim.Native.Nat.{zero, suc}
use Prim.Native.Nat.pow
use card_scope.Base.{
  ℕ, ◌+◌, ◌-◌, if_both, ◌*◌, ◌/◌, ◌^◌, ◌≤◌, ◌<◌, ◌≡◌, refl, ◌∙◌, ap, inl, inr, some, ltb, leb,
  leb→le, ltb→lt, Bool-cases, show, show_fuel, arith, ◌&◌, if◌then◌else◌,
}
use card_scope.Format
use card_scope.Format.{Level, level, below, Says, Locale, IsExponent, scale, fmt}
use card_scope.Resources.Content.{bytes}
use card_scope.Resources.Sizes.{bytes_undefined}

-- How often `low` is multiplied by 1024 before it passes `high`, with fuel.
climb : ℕ → ℕ → ℕ → ℕ
climb zero high low = 0
climb (suc fuel) high low =
    let rest = suc (climb fuel high (1024 * low)) in if ltb high (1024 * low) then 0 else rest

times_assoc : (a low : ℕ) → a * 1024 * low ≡ a * (1024 * low)
times_assoc a low = grind arith

power_times : (e low : ℕ) → 1024 ^ suc e * low ≡ 1024 ^ e * (1024 * low)
power_times e low = ap (λ p. p * low) (pow.suc 1024 e) ∙ times_assoc (1024 ^ e) low

next_power :
    (e high low : ℕ)
    → (1024 ^ e * (1024 * low) ≤ high) × (high < 1024 ^ suc e * (1024 * low))
    → (1024 ^ suc e * low ≤ high) × (high < 1024 ^ suc (suc e) * low)
next_power e high low (least, most) =
    (rw (power_times e low) least, rw (power_times (suc e) low) most)

climb_lem :
    (fuel high low : ℕ)
    → 0 < low
    → low ≤ high
    → high ≤ fuel + low
    → (1024 ^ climb fuel high low * low ≤ high) × (high < 1024 ^ suc (climb fuel high low) * low)
unfolding climb
climb_lem zero high low positive least few = (omega arith, omega arith)
climb_lem (suc fuel) high low positive least few = elim (Bool-cases (ltb high (1024 * low))) [
  | inl small ↦ rw small (omega arith, omega (arith, ltb→lt high (1024 * low) small))
  | inr large ↦ rw large (
      next_power (climb fuel high (1024 * low)) high low
        (climb_lem fuel high (1024 * low) (omega arith) (ground arith) (omega arith)))
]

exponent : ℕ → ℕ → Level
exponent part whole =
    if leb whole part then level (climb part part whole) else below (climb whole (whole - 1) part)

exponent-IsExponent : IsExponent exponent
unfolding exponent
exponent-IsExponent part whole some_part some_whole =
    if_both (λ i. Says i part whole) (leb whole part) _ _
      (λ large. climb_lem part part whole some_whole (leb→le whole part large) (omega arith))
      (λ small.
        let (least, most) =
          climb_lem whole (whole - 1) part some_part (ground arith) (omega arith) in
        (omega (arith, most), omega (arith, least)))

abbrev locale : Locale
locale = record {
  number = λ part whole digits. show (part / whole);
  exponent = exponent;
  per_watt = 1;
  per_byte = 1000;
  date_time = show;
  time = show;
  percent = λ part whole. show (part * 100 / whole);
  upper = λ s. s;
}

-- Four bytes in five seconds, and 3000 bytes.
rate_test : bytes locale 1000 (some 800) ≡ "819 undefined"
unfolding bytes exponent climb show show_fuel
rate_test = refl

size_test : Format.bytes locale 1 (some 3000) ≡ "2 KB"
unfolding Format.bytes fmt scale exponent climb show show_fuel
size_test = refl

bytes_undefined_example :
    (Format.bytes locale 1000 (some 800) ≡ locale.number 800 1000 0 & " " & "B")
    × ((k : ℕ) × (bytes locale 1000 (some 800)
          ≡ locale.number (1024 ^ suc k * 800) 1000 1 & " " & "undefined"))
bytes_undefined_example =
    bytes_undefined locale 800 1000 exponent-IsExponent (ground arith) (ground arith)
