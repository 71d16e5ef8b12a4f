-- ===== src/Stats/Offered.antt =====
-- Every period that web/src/features/statistics/UserStats.tsx offers has a range.
use mathlib.Core.List.{Memᴰ}
use card_scope.Base.{
  ℕ, ◌-◌, ◌*◌, ◌≤◌, ◌≡◌, refl, sym, ap, ◌∙◌, ◌≢◌, ◌⊎◌, List, Option, none, some, String, true, inl,
  inr, arith,
}
use card_scope.Types.{Node}
use card_scope.Time.{Offset}
use card_scope.Select.{items, options, encode, slice_from}
use card_scope.Select.Laws.{slice_from-encode}
use card_scope.Stats.{Choice, day, range}
use card_scope.Stats.Defaults.{at_first, IsPlain, range-at_first}
use card_scope.Stats.Laws.{range_preset}
use card_scope.Stats.Lists.{by_period, children, list, choose, set_value}

some-ne-none {ℓ} : {A : Type ℓ} (o : Option A) {a : A} → o ≡ some a → o ≢ none
some-ne-none o e h = cc (sym e ∙ h)

-- A report of an item sets the period that the item stands for.
choose_period :
    (encoded v : String) (c : Choice)
    → encoded ≡ encode v
    → choose by_period encoded c ≡ record c { period = v }
unfolding choose
choose_period encoded v c e =
    ap (λ t. set_value by_period t c) (ap (slice_from 7) e ∙ slice_from-encode v)

module _ (offset_at offset_of : ℕ → Offset) where
  -- As long as the two times of the form stand as they were filled, every period that the list
  -- offers gives a range, the own one included: none is refused. The first render is no later than
  -- `now`, and both times are plain.
  pub offered_ranged :
      (early late now : ℕ) (nodes : List Node) (models : List String)
      → 7 * day ≤ early
      → early ≤ late
      → late ≤ now
      → IsPlain offset_at offset_of (early - 7 * day)
      → IsPlain offset_at offset_of late
      → (encoded label : String)
      → Memᴰ
          (encoded, label, true)
          (items (list by_period (at_first offset_at offset_of early late) nodes models))
      → range now (choose by_period encoded (at_first offset_at offset_of early late)) ≢ none
  unfolding items list children options
  offered_ranged early late now nodes models after ordered recent plain_start plain_end encoded
        label there =
      let c = at_first offset_at offset_of early late in
      let preset : (v : String)
          → (v ≡ "1") ⊎ (v ≡ "7") ⊎ (v ≡ "30")
          → encoded ≡ encode v
          → range now (choose by_period encoded c) ≢ none =
        λ v known e.
          rw (choose_period encoded v c e)
            (range_preset now (record c { period = v }) (omega arith) known) in
      elim there [
        | Memᴰ.head e ↦ preset "1" (inl refl) (ap (λ i. i.0) e)
        | Memᴰ.tail (Memᴰ.head e) ↦ preset "7" (inr (inl refl)) (ap (λ i. i.0) e)
        | Memᴰ.tail (Memᴰ.tail (Memᴰ.head e)) ↦ preset "30" (inr (inr refl)) (ap (λ i. i.0) e)
        | Memᴰ.tail (Memᴰ.tail (Memᴰ.tail (Memᴰ.head e))) ↦
            rw (choose_period encoded "custom" c (ap (λ i. i.0) e)) (
              some-ne-none _
                (range-at_first offset_at offset_of early late now after ordered recent plain_start
                  plain_end).1)
        | Memᴰ.tail (Memᴰ.tail (Memᴰ.tail (Memᴰ.tail beyond))) ↦ elim beyond [ ]
      ]
