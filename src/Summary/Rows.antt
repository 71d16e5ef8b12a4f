-- ===== src/Summary/Rows.antt =====
-- The model rows of web/src/features/dashboard/summary.ts: one for each name and capacity, with
-- the numbers of its cards.
pub mod Table
use mathlib.Core.Path.{subst, ap₂}
use mathlib.Core.List.{Memᴰ}
use card_scope.Base.{
  ℕ, ◌+◌, ◌≤◌, ◌≡◌, refl, ◌⊎◌, inl, inr, ◌↔◌, Bool, true, false, ◌&&◌, List, [], ◌∷◌, String,
  Ordering, indicator, total, total_zero, total_cong, arith, ap, sym, All, is_zero, if◌then◌else◌,
  Bool-cases, eq_iff, eq_refl, ◌==◌, compare, leb,
}
use card_scope.Base.Json.{stringify_pair}
use card_scope.Base.Json.Laws.{stringify_pair_inj}
use card_scope.Base.Sorting.{sort, sort-total, sort-All, is_gt, IsSorted, sort-IsSorted}
use card_scope.Types.{Gpu, Node}
use card_scope.Status
use card_scope.Status.{capacity_key}
use card_scope.Summary.{
  model_key, Model, Tally, is_idle, gpu_state, add_model, gpu_step, gpu_loop, node_step, node_loop,
  start, model_order, summarize,
}
use card_scope.Summary.Loops.{over_cards, node_loop-adds, node_loop-keeps}
use card_scope.Summary.Classes.{gpu_state-idle_iff}

abbrev pub key_of : Gpu → String
key_of g = model_key g.name (capacity_key g)

-- The number of rows with a key, and what these rows hold together.
abbrev pub rows_of : String → List Model → ℕ
rows_of k = total (λ (m : Model). indicator ((k == m.key)))

abbrev pub total_at : String → List Model → ℕ
total_at k = total (λ (m : Model). if (k == m.key) then m.total else 0)

abbrev pub idle_at : String → List Model → ℕ
idle_at k = total (λ (m : Model). if (k == m.key) then m.idle else 0)

-- Equal keys are those of the same name and the same capacity.
pub model_key-eq :
    (name other capacity size : String)
    → (model_key name capacity == model_key other size) ≡ (name == other && capacity == size)
unfolding model_key
model_key-eq name other capacity size = ground (
  arith,
  eq_iff (stringify_pair name capacity) (stringify_pair other size),
  stringify_pair_inj name capacity other size,
  λ (p : name ≡ other) (q : capacity ≡ size). ap₂ stringify_pair p q,
  eq_iff name other,
  eq_iff capacity size,
)

same_key_swap : (k a b : String) → (a == b) ≡ true → (k == a) ≡ (k == b)
same_key_swap k a b h = ap (λ t. k == t) ((eq_iff a b).0 h)

pub total_at-add_model :
    (k name capacity : String) (free : Bool) (ms : List Model)
    → total_at k (add_model name capacity free ms)
      ≡ total_at k ms + indicator ((k == model_key name capacity))
unfolding add_model
total_at-add_model k name capacity free [] = ground arith
total_at-add_model k name capacity free (m ∷ ms) = ground (
  arith,
  same_key_swap k (model_key name capacity) m.key,
  total_at-add_model k name capacity free ms,
)

pub idle_at-add_model :
    (k name capacity : String) (free : Bool) (ms : List Model)
    → idle_at k (add_model name capacity free ms)
      ≡ idle_at k ms + indicator ((k == model_key name capacity) && free)
unfolding add_model
idle_at-add_model k name capacity free [] = ground arith
idle_at-add_model k name capacity free (m ∷ ms) = ground (
  arith,
  same_key_swap k (model_key name capacity) m.key,
  idle_at-add_model k name capacity free ms,
)

rows_of-add_model :
    (k name capacity : String) (free : Bool) (ms : List Model)
    → (rows_of k (add_model name capacity free ms) ≡ rows_of k ms)
      ⊎ (((k == model_key name capacity) ≡ true → rows_of k ms ≡ 0)
          × (rows_of k (add_model name capacity free ms)
              ≡ rows_of k ms + indicator ((k == model_key name capacity))))
unfolding add_model
rows_of-add_model k name capacity free [] = inr (λ h. refl, ground arith)
rows_of-add_model k name capacity free (m ∷ ms) = ground (
  arith,
  eq_iff k (model_key name capacity),
  eq_iff k m.key,
  eq_iff (model_key name capacity) m.key,
  rows_of-add_model k name capacity free ms,
)

abbrev pub IsOnce : List Model → Type 0
IsOnce ms = (k : String) → rows_of k ms ≤ 1

pub add_model-IsOnce :
    (name capacity : String) (free : Bool) (ms : List Model)
    → IsOnce ms
    → IsOnce (add_model name capacity free ms)
add_model-IsOnce name capacity free ms h k =
    ground (arith, rows_of-add_model k name capacity free ms, h k)

abbrev pub IsNamed : Model → Type 0
IsNamed m = m.key ≡ model_key m.name m.capacity

pub add_model-IsNamed :
    (name capacity : String) (free : Bool) (ms : List Model)
    → All IsNamed ms
    → All IsNamed (add_model name capacity free ms)
unfolding add_model
add_model-IsNamed name capacity free [] h = (refl, tt)
add_model-IsNamed name capacity free (m ∷ ms) h =
    ground (arith, add_model-IsNamed name capacity free ms)

-- Where no row has the key, nothing is held at it; where one has, it holds all.
none_at :
    (k : String) (ms : List Model) → rows_of k ms ≡ 0 → (total_at k ms ≡ 0) × (idle_at k ms ≡ 0)
none_at k [] h = (refl, refl)
none_at k (m ∷ ms) h = ground (arith, none_at k ms)

pub mem-rows_of : (m : Model) (ms : List Model) → Memᴰ m ms → 1 ≤ rows_of m.key ms
mem-rows_of m [] i = elim i [ ]
mem-rows_of m (x ∷ xs) (Memᴰ.head e) =
    ground (arith, eq_refl m.key, ap (λ (r : Model). m.key == r.key) e)
mem-rows_of m (x ∷ xs) (Memᴰ.tail i) = omega (arith, mem-rows_of m xs i)

pub row_holds :
    (m : Model) (ms : List Model)
    → Memᴰ m ms
    → rows_of m.key ms ≤ 1
    → (total_at m.key ms ≡ m.total) × (idle_at m.key ms ≡ m.idle)
row_holds m [] i h = elim i [ ]
row_holds m (x ∷ xs) (Memᴰ.head e) h =
    let same : (m.key == x.key) ≡ true = rw (← e) (eq_refl m.key) in
    ground
      (arith, same, none_at m.key xs, ap (λ (r : Model). r.total) e, ap (λ (r : Model). r.idle) e)
row_holds m (x ∷ xs) (Memᴰ.tail i) h = ground (arith, mem-rows_of m xs i, row_holds m xs i)

-- Each row holds a card at least.
abbrev pub IsBacked : List Model → Type 0
IsBacked ms = (k : String) → rows_of k ms ≤ total_at k ms

pub add_model-IsBacked :
    (name capacity : String) (free : Bool) (ms : List Model)
    → IsBacked ms
    → IsBacked (add_model name capacity free ms)
add_model-IsBacked name capacity free ms h k = ground (
  arith,
  rows_of-add_model k name capacity free ms,
  total_at-add_model k name capacity free ms,
  h k,
)

pub rows_once :
    (k : String) (ms : List Model)
    → rows_of k ms ≤ 1
    → rows_of k ms ≤ total_at k ms
    → rows_of k ms ≡ (if is_zero (total_at k ms) then 0 else 1)
rows_once k ms once backed = ground (arith, none_at k ms)
