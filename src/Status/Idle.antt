-- ===== src/Status/Idle.antt =====
-- When web/src/features/gpu/status.ts takes a GPU for idle.
use card_scope.Base.{
  ℕ, ◌*◌, ◌<◌, ◌≡◌, ◌↔◌, true, [], none, some, arith, refl, eq_iff, is_empty-nil, ltb→lt, and-true,
}
use card_scope.Types.{Metric, Gpu, Node}
use card_scope.Status.{health, is_below, is_small_share, is_cool, idle}

-- A free card: it is online and queried without error, nothing is missing, no process runs on it,
-- it is cool, and its load and memory are below 5 %.
pub record IsFree (g : Gpu) (n : Node) : Type 0 where
  pub util : ℕ
  pub used : ℕ
  pub total : ℕ
  pub util_known : g.util ≡ some util
  pub used_known : g.memory_used ≡ some used
  pub total_known : g.memory_total ≡ some total
  pub online : n.online ≡ true
  pub queried : g.status ≡ "ok"
  pub attributed : g.process_status ≡ "ok"
  pub healthy : health g ≡ ""
  pub unused : g.processes ≡ []
  pub cool : (t : ℕ) → g.temperature ≡ some t → t < 85
  pub low_util : util < 5
  pub low_memory : 100 * used < 5 * total

is_below_value :
    (limit : ℕ) (m : Metric) → is_below limit m ≡ true → (v : ℕ) × (m ≡ some v) × (v < limit)
is_below_value limit none h = cc
is_below_value limit (some v) h = (v, refl, ltb→lt v limit h)

is_small_share_values :
    (used total : Metric)
    → is_small_share used total ≡ true
    → (u t : ℕ) × (used ≡ some u) × (total ≡ some t) × (100 * u < 5 * t)
is_small_share_values none none h = cc
is_small_share_values (some u) none h = cc
is_small_share_values none (some t) h = cc
is_small_share_values (some u) (some t) h = (u, t, refl, refl, ground arith)

is_cool_value : (m : Metric) (t : ℕ) → is_cool m ≡ true → m ≡ some t → t < 85
is_cool_value m t h e = ground arith

idle-IsFree : (g : Gpu) (n : Node) → idle g n ≡ true → IsFree g n
unfolding idle
idle-IsFree g n h =
    let (h₁, small) = and-true _ (is_small_share g.memory_used g.memory_total) h in
    let (h₂, low) = and-true _ _ h₁ in
    let (h₃, unused) = and-true _ _ h₂ in
    let (h₄, attributed) = and-true _ _ h₃ in
    let (h₅, cool) = and-true _ _ h₄ in
    let (h₆, healthy) = and-true _ _ h₅ in
    let (online, queried) = and-true _ _ h₆ in
    let (util, e, low_util) = is_below_value 5 g.util low in
    let (used, total, e₁, e₂, low_memory) =
      is_small_share_values g.memory_used g.memory_total small in
    record {
      util = util;
      used = used;
      total = total;
      util_known = e;
      used_known = e₁;
      total_known = e₂;
      online = online;
      queried = (eq_iff g.status "ok").0 queried;
      attributed = (eq_iff g.process_status "ok").0 attributed;
      healthy = (eq_iff (health g) "").0 healthy;
      unused = is_empty-nil g.processes unused;
      cool = λ t. is_cool_value g.temperature t cool;
      low_util = low_util;
      low_memory = low_memory;
    }

is_cool-true : (m : Metric) → ((t : ℕ) → m ≡ some t → t < 85) → is_cool m ≡ true
is_cool-true none h = refl
is_cool-true (some t) h = ground (arith, h t refl)

IsFree-idle : (g : Gpu) (n : Node) → IsFree g n → idle g n ≡ true
unfolding idle
IsFree-idle g n f =
    rw (f.online, f.util_known, f.used_known, f.total_known, f.unused)
      (rw (f.queried, f.attributed, f.healthy, is_cool-true g.temperature f.cool) (ground arith))

-- A card is called idle exactly when its node is online, its status and its process status are "ok",
-- no health warning is given, its temperature is unknown or below 85, it has no process, and its
-- utilisation and its share of used memory are known and below 5 %.
pub idle_iff : (g : Gpu) (n : Node) → (idle g n ≡ true) ↔ IsFree g n
idle_iff g n = (idle-IsFree g n, IsFree-idle g n)
