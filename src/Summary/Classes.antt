-- ===== src/Summary/Classes.antt =====
-- What each state of a card means in web/src/features/dashboard/summary.ts.
use card_scope.Base.{◌≡◌, refl, ◌≢◌, ◌⊎◌, ◌↔◌, ◌≤◌, true, false, none, some, ℕ, arith, eq_iff}
use card_scope.Types.{Metric, Gpu, Node}
use card_scope.Status
use card_scope.Status.{bad, is_cool}
use card_scope.Status.Idle.{IsFree, idle_iff}
use card_scope.Summary.{GpuState, is_hot, gpu_state}

cool_not_hot : (m : Metric) → is_cool m ≡ true → is_hot m ≡ false
cool_not_hot m h = ground arith

-- A card that the hub calls idle is online, without a fault and cool.
pub idle-calm :
    (g : Gpu) (n : Node)
    → Status.idle g n ≡ true
    → (n.online ≡ true) × (bad g ≡ false) × (is_hot g.temperature ≡ false)
unfolding Status.idle bad
idle-calm g n h = ground arith

-- A card is shown as idle exactly when the rule for idle cards accepts it, so no earlier test
-- takes an idle card away.
pub gpu_state-idle_iff :
    (g : Gpu) (n : Node) → (gpu_state g n ≡ GpuState.idle) ↔ (Status.idle g n ≡ true)
unfolding gpu_state
gpu_state-idle_iff g n = (λ h. ground arith, λ h. ground (arith, idle-calm g n h))

-- The data that a card must have to be shown as busy.
pub record IsMeasured (g : Gpu) : Type 0 where
  pub attributed : g.process_status ≡ "ok"
  pub util : g.util ≢ none
  pub used : g.memory_used ≢ none
  pub total : (g.memory_total ≢ none) × (g.memory_total ≢ some 0)

-- What each state says of the card.
abbrev pub Says : GpuState → Gpu → Node → Type 0
Says GpuState.idle g n = IsFree g n
Says GpuState.busy g n =
    (n.online ≡ true)
    × (bad g ≡ false)
    × (is_hot g.temperature ≡ false)
    × (¬ IsFree g n)
    × IsMeasured g
Says GpuState.attention g n =
    (n.online ≡ true) × ((bad g ≡ true) ⊎ ((t : ℕ) × (g.temperature ≡ some t) × (85 ≤ t)))
Says GpuState.unknown g n =
    (n.online ≡ true) × (bad g ≡ false) × (is_hot g.temperature ≡ false) × (¬ IsMeasured g)
Says GpuState.offline g n = n.online ≡ false

module _ (g : Gpu) (n : Node) where
  busy-tests :
      gpu_state g n ≡ GpuState.busy
      → (n.online ≡ true)
        × (bad g ≡ false)
        × (is_hot g.temperature ≡ false)
        × (Status.idle g n ≡ false)
  unfolding gpu_state
  busy-tests h = (ground arith, ground arith, ground arith, ground arith)

  busy-IsMeasured : gpu_state g n ≡ GpuState.busy → IsMeasured g
  unfolding gpu_state
  busy-IsMeasured h = record {
    attributed = (eq_iff g.process_status "ok").0 (ground arith);
    util = ground arith;
    used = ground arith;
    total = (ground arith, ground arith);
  }

  unknown-not-IsMeasured : gpu_state g n ≡ GpuState.unknown → IsMeasured g → ⊥
  unfolding gpu_state
  unknown-not-IsMeasured h m = ground (arith, eq_iff g.process_status "ok", m.total.0, m.total.1)

  Says-of_eq : (s : GpuState) → gpu_state g n ≡ s → Says s g n
  unfolding gpu_state
  Says-of_eq GpuState.idle h = (idle_iff g n).0 ((gpu_state-idle_iff g n).0 h)
  Says-of_eq GpuState.busy h =
      let (online, well, cool, taken) = busy-tests h in
      (online, well, cool, λ free. cc (taken, (idle_iff g n).1 free), busy-IsMeasured h)
  Says-of_eq GpuState.attention h = (ground arith, ground arith)
  Says-of_eq GpuState.unknown h =
      (ground arith, ground arith, ground arith, unknown-not-IsMeasured h)
  Says-of_eq GpuState.offline h = ground arith

  -- The state that is shown for a card says the truth: an idle card is free, a busy one is online,
  -- sound, cool, fully measured and not free, one that needs attention is online and faulty or at
  -- 85 degrees or more, an unknown one is online, sound and cool but lacks data, and an offline
  -- one stands in a node that is offline.
  pub gpu_state-Says : Says (gpu_state g n) g n
  gpu_state-Says = Says-of_eq (gpu_state g n) refl
