-- ===== src/Status/Capacity.antt =====
-- The capacity groups of web/src/features/gpu/status.ts.
use Prim.Native.Nat.{max}
use card_scope.Base.{
  ℕ, zero, suc, ◌+◌, ◌*◌, ◌/◌, ◌≤◌, ◌<◌, ◌≡◌, refl, sym, ap, ◌∙◌, ◌⊎◌, ◌↔◌, inl, inr, none, some,
  false, arith, show, ◌==◌, eq_iff,
}
use card_scope.Base.Decimal.{read_from, read-show, show-injective}
use card_scope.Types.{Metric, Gpu}
use card_scope.Status.{gib, round_gib, capacity_of, capacity_key}

not_unknown_number : (show (read_from 0 "unknown") == "unknown") ≡ false
unfolding show read_from
not_unknown_number = refl

show-ne-unknown : (n : ℕ) → ¬ (show n ≡ "unknown")
show-ne-unknown n e =
    let same : n ≡ read_from 0 "unknown" = sym (read-show n) ∙ ap (read_from 0) e in
    ground
      (arith, not_unknown_number, eq_iff (show (read_from 0 "unknown")) "unknown", ap show same)

capacity_of_pos : (t : ℕ) → 0 < t → capacity_of (some t) ≡ show (max 1 (round_gib t))
capacity_of_pos zero h = absurd (omega arith)
capacity_of_pos (suc t) h = refl

-- A card whose observed memory lies within half a GiB of k GiB, from k GiB less a half (included)
-- up to k GiB and a half (excluded), is in the group named by the decimal k, for every k from 1.
pub capacity_key-nominal :
    (g : Gpu) (total k : ℕ)
    → g.memory_total ≡ some total
    → 1 ≤ k
    → k * gib ≤ total + gib / 2
    → total + gib / 2 < (k + 1) * gib
    → capacity_key g ≡ show k
unfolding capacity_key
capacity_key-nominal g total k e one lower upper =
    ap capacity_of e ∙ capacity_of_pos total (omega arith) ∙ ap show (omega arith)

-- Two cards with known, positive memory are in one group exactly when their memory rounds to the
-- same number of whole GiB, where less than one GiB counts as one.
pub capacity_key-eq_iff :
    (g h : Gpu) (s t : ℕ)
    → g.memory_total ≡ some s
    → h.memory_total ≡ some t
    → 0 < s
    → 0 < t
    → (capacity_key g ≡ capacity_key h) ↔ (max 1 (round_gib s) ≡ max 1 (round_gib t))
unfolding capacity_key
capacity_key-eq_iff g h s t e f p q =
    let left = ap capacity_of e ∙ capacity_of_pos s p in
    let right = ap capacity_of f ∙ capacity_of_pos t q in
    (λ same. show-injective _ _ (sym left ∙ same ∙ right), λ same. left ∙ ap show same ∙ sym right)

capacity_of-unknown : (m : Metric) → capacity_of m ≡ "unknown" → (m ≡ none) ⊎ (m ≡ some 0)
capacity_of-unknown none h = inl refl
capacity_of-unknown (some zero) h = inr refl
capacity_of-unknown (some (suc n)) h = absurd (show-ne-unknown (max 1 (round_gib (suc n))) h)

-- The group "unknown" holds exactly the cards whose memory is missing or zero: no card of known
-- size falls into it.
pub capacity_key-unknown_iff :
    (g : Gpu) → (capacity_key g ≡ "unknown") ↔ ((g.memory_total ≡ none) ⊎ (g.memory_total ≡ some 0))
unfolding capacity_key
capacity_key-unknown_iff g = (capacity_of-unknown g.memory_total, λ c. ground arith)
