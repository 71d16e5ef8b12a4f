-- ===== src/Summary.antt =====
-- web/src/features/dashboard/summary.ts: the state of one GPU, and the summary of a cluster.
--
-- An average is kept as its sum and its count. The comparison of names by the browser's locale is a
-- parameter.
mod State
mod Issues
pub mod Classes
pub mod Loops
pub mod Partition
pub mod Rows
pub mod Health
pub mod Load
pub mod Order
pub mod Sources
unfoldable pub use State.*
unfoldable pub use Issues.*
use card_scope.Base.{
  ℕ, suc, ◌+◌, ◌-◌, Bool, true, false, not, ◌&&◌, ◌||◌, List, [], ◌∷◌, ◌++◌, Option, none, some,
  String, Ordering, compare, leb, is_zero, is_some, indicator, length, count, show, ◌&◌, ◌==◌,
  if◌then◌else◌,
}
use card_scope.Base.Json.{stringify_pair}
use card_scope.Base.Sorting.{or_else, sort}
use card_scope.Types.{Metric, Gpu, Node}
use card_scope.Status
use card_scope.Status.{bad, capacity_key}

pub record Counts : Type 0 where
  pub idle : ℕ
  pub busy : ℕ
  pub attention : ℕ
  pub unknown : ℕ
  pub offline : ℕ

-- `counts[state]` and `counts[state]++`.
abbrev pub count_of : GpuState → Counts → ℕ
count_of idle c = c.idle
count_of busy c = c.busy
count_of attention c = c.attention
count_of unknown c = c.unknown
count_of offline c = c.offline

abbrev pub increment : GpuState → Counts → Counts
increment idle c = record c { idle = c.idle + 1 }
increment busy c = record c { busy = c.busy + 1 }
increment attention c = record c { attention = c.attention + 1 }
increment unknown c = record c { unknown = c.unknown + 1 }
increment offline c = record c { offline = c.offline + 1 }

-- `JSON.stringify([name, capacity])`.
unfoldable pub model_key : String → String → String
model_key name capacity = stringify_pair name capacity

pub record Model : Type 0 where
  pub key : String
  pub name : String
  pub capacity : String
  pub total : ℕ
  pub idle : ℕ

-- The variables of the loops.
pub record Tally : Type 0 where
  pub counts : Counts
  pub models : List Model
  pub issues : List Issue
  pub detected : ℕ
  pub missing : ℕ
  pub util_sum : ℕ
  pub util_count : ℕ

abbrev pub is_idle : GpuState → Bool
is_idle idle = true
is_idle _ = false

-- The row of a card's model, changed in place, or appended: a `Map` keeps the order of insertion.
unfoldable pub add_model : String → String → Bool → List Model → List Model
add_model name capacity free [] =
    record {
      key = model_key name capacity;
      name = name;
      capacity = capacity;
      total = 1;
      idle = indicator free;
    }
    ∷ []
add_model name capacity free (m ∷ ms) =
    if model_key name capacity == m.key
    then record m { total = m.total + 1; idle = m.idle + indicator free } ∷ ms
    else m ∷ add_model name capacity free ms

-- The utilisation that a card adds to the average, if it adds one.
abbrev pub sample : Gpu → Node → Metric
sample g n = if n.online && g.status == "ok" then g.util else none

abbrev pub value_or_zero : Metric → ℕ
value_or_zero none = 0
value_or_zero (some v) = v

-- The body of the inner loop.
unfoldable pub gpu_step : Node → Tally → Gpu → Tally
gpu_step n t g =
    let state = gpu_state g n in
    record {
      counts = increment state t.counts;
      models = add_model g.name (capacity_key g) (is_idle state) t.models;
      issues = t.issues ++ gpu_issue state g n;
      detected = t.detected + 1;
      missing = t.missing;
      util_sum = t.util_sum + value_or_zero (sample g n);
      util_count = t.util_count + indicator (is_some (sample g n));
    }

unfoldable pub gpu_loop : Node → Tally → List Gpu → Tally
gpu_loop n t [] = t
gpu_loop n t (g ∷ gs) = gpu_loop n (gpu_step n t g) gs

-- What the body of the outer loop does before the inner one.
unfoldable pub node_step : Tally → Node → Tally
node_step t n = record t {
  missing = t.missing + absent n;
  issues = (t.issues ++ node_issue n) ++ missing_issue n;
}

unfoldable pub node_loop : Tally → List Node → Tally
node_loop t [] = t
node_loop t (n ∷ ns) = node_loop (gpu_loop n (node_step t n) n.snapshot.gpus) ns

abbrev pub start : Tally
start = record {
  counts = record { idle = 0; busy = 0; attention = 0; unknown = 0; offline = 0 };
  models = [];
  issues = [];
  detected = 0;
  missing = 0;
  util_sum = 0;
  util_count = 0;
}

pub record Summary : Type 0 where
  pub counts : Counts
  pub detected : ℕ
  pub missing : ℕ
  pub issues : List Issue
  pub models : List Model
  pub online : ℕ
  pub util : Option (ℕ × ℕ)
  pub util_count : ℕ

-- `b.idle - a.idle || a.name.localeCompare(b.name)`.
abbrev pub model_order : (String → String → Ordering) → Model → Model → Ordering
model_order locale_compare a b = or_else (compare b.idle a.idle) (locale_compare a.name b.name)

unfoldable pub summarize : (String → String → Ordering) → List Node → Summary
summarize locale_compare nodes =
    let t = node_loop start nodes in
    record {
      counts = t.counts;
      detected = t.detected;
      missing = t.missing;
      issues = t.issues;
      models = sort (model_order locale_compare) t.models;
      online = count (λ (n : Node). n.online) nodes;
      util = if is_zero t.util_count then none else some (t.util_sum, t.util_count);
      util_count = t.util_count;
    }
