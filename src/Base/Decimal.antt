-- ===== src/Base/Decimal.antt =====
-- `String(n)` of a whole number is read back by the decimal digits.
use Prim.Native.Nat.{ℕ, zero, suc, ◌+◌, ◌*◌, ◌-◌, ◌/◌, ◌%◌, ◌≤◌, ◌<◌}
use Prim.Native.Char.{code}
use Prim.Native.String.{String}
use mathlib.Core.Path.{◌≡◌, refl, sym, ap, ◌∙◌}
use mathlib.Core.Logic.{inl, inr}
use native.Mathlib.Omega.{arith}
use text.Mathlib.TextLemmas.{nil-append, cons-append}
use card_scope.Base.Tests.{ltb, Bool-cases, ltb→lt}
use card_scope.Base.Text.{◌&◌, digit, show_fuel, show}

-- Reads decimal digits, after the number `acc`.
unfoldable pub read_from : ℕ → String → ℕ
read_from acc String.[] = acc
read_from acc (String.◌∷◌ c s) = read_from (acc * 10 + (code c - 48)) s

pub read_from-append :
    (acc : ℕ) (s t : String) → read_from acc (s & t) ≡ read_from (read_from acc s) t
unfolding read_from
read_from-append acc String.[] t = rw nil-append
read_from-append acc (String.◌∷◌ c s) t =
    rw cons-append (read_from-append (acc * 10 + (code c - 48)) s t)

pub read_from-digit : (acc d : ℕ) → d < 10 → read_from acc (digit d) ≡ acc * 10 + d
unfolding read_from
read_from-digit acc zero h = refl
read_from-digit acc (suc zero) h = refl
read_from-digit acc (suc (suc zero)) h = refl
read_from-digit acc (suc (suc (suc zero))) h = refl
read_from-digit acc (suc (suc (suc (suc zero)))) h = refl
read_from-digit acc (suc (suc (suc (suc (suc zero))))) h = refl
read_from-digit acc (suc (suc (suc (suc (suc (suc zero)))))) h = refl
read_from-digit acc (suc (suc (suc (suc (suc (suc (suc zero))))))) h = refl
read_from-digit acc (suc (suc (suc (suc (suc (suc (suc (suc zero)))))))) h = refl
read_from-digit acc (suc (suc (suc (suc (suc (suc (suc (suc (suc zero))))))))) h = refl
read_from-digit acc (suc (suc (suc (suc (suc (suc (suc (suc (suc (suc n)))))))))) h =
    absurd (omega arith)

read_from-show_fuel : (fuel n : ℕ) → n ≤ fuel → read_from 0 (show_fuel fuel n) ≡ n
unfolding show_fuel
read_from-show_fuel zero n h = omega (arith, read_from-digit 0 (n % 10) (omega arith))
read_from-show_fuel (suc fuel) n h = elim (Bool-cases (ltb n 10)) [
  | inl short ↦ rw short (omega (arith, read_from-digit 0 n (ltb→lt n 10 short)))
  | inr long ↦ rw long (
      rw (read_from-append 0 (show_fuel fuel (n / 10)) (digit (n % 10))) (
        rw (read_from-show_fuel fuel (n / 10) (ground arith))
          (omega (arith, read_from-digit (n / 10) (n % 10) (omega arith)))))
]

pub read-show : (n : ℕ) → read_from 0 (show n) ≡ n
unfolding show
read-show n = read_from-show_fuel n n (omega arith)

pub show-injective : (m n : ℕ) → show m ≡ show n → m ≡ n
show-injective m n e = sym (read-show m) ∙ ap (read_from 0) e ∙ read-show n
