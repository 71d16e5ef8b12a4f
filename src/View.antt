-- ===== src/View.antt =====
-- web/src/features/dashboard/Dashboard.tsx: what the dashboard says of a summary.
pub mod Laws
pub mod Grid
pub mod Places
pub mod Cell
pub mod Page
pub mod Followed
use card_scope.Base.{
  ℕ, zero, suc, ◌+◌, ◌-◌, ◌<◌, Bool, true, false, not, ◌&&◌, ◌||◌, List, [], ◌∷◌, Option, none,
  some, String, ltb, is_zero, is_empty, keep, length, take, show, join, map, ◌&◌, ◌==◌,
  if◌then◌else◌,
}
use card_scope.Types.{Metric, Gpu, Node}
use card_scope.Status.{users}
use card_scope.Summary.{GpuState, state_labels, Counts, count_of, Model, Issue, Summary, gpu_state}

-- `!!error || (!!updated && Date.now() - updated > 20000)`.
unfoldable pub stale : ℕ → ℕ → String → Bool
stale now updated error = not (error == "") || not (is_zero updated) && ltb 20000 (now - updated)

-- `Object.keys(stateLabels)`.
abbrev pub states : List GpuState
states =
    GpuState.idle ∷ GpuState.busy ∷ GpuState.attention ∷ GpuState.unknown ∷ GpuState.offline ∷ []

-- The parts of the bar.
unfoldable pub segments : Counts → List GpuState
segments c = keep (λ s. not (is_zero (count_of s c))) states

abbrev pub segments_text : Counts → List GpuState → String
segments_text c [] = "暂无 GPU"
segments_text c (s ∷ ss) =
    join "，" (map (λ k. state_labels k & " " & show (count_of k c) & " 张") (s ∷ ss))

-- The labels below the bar.
unfoldable pub labelled : Counts → List GpuState
unfolding segments
labelled c =
    if is_empty (segments c)
    then GpuState.idle ∷ GpuState.busy ∷ GpuState.attention ∷ []
    else segments c

-- The line beside the number of idle cards.
pub data Headline : Type 0 where
  fetching interrupted waiting normal : Headline
  concerns : ℕ → Headline

unfoldable pub headline : ℕ → Bool → List Node → Summary → Headline
headline updated is_stale nodes data_of =
    if is_zero updated
    then fetching
    else if is_stale
    then interrupted
    else if is_empty nodes
    then waiting
    else if not (is_empty data_of.issues)
    then concerns (length data_of.issues)
    else normal

abbrev pub headline_text : Headline → String
headline_text fetching = "正在获取状态"
headline_text interrupted = "数据更新中断"
headline_text waiting = "等待节点接入"
headline_text normal = "集群运行正常"
headline_text (concerns n) = show n & " 项需要关注"

-- The rows and the issues that are shown, all of them on demand.
unfoldable pub shown_models : Bool → List Model → List Model
shown_models everything models = if everything then models else take 3 models

unfoldable pub more_models : List Model → ℕ
more_models models = if ltb 3 (length models) then length models - 3 else 0

unfoldable pub shown_issues : Bool → List Issue → List Issue
shown_issues everything issues = if everything then issues else take 2 issues

-- The free memory in the tip of a card: `Math.max(0, total - used)`.
abbrev pub free_of : Metric → Metric → Metric
free_of (some total) (some used) = some (total - used)
free_of (some total) none = none
free_of none _ = none

unfoldable pub free_memory : Gpu → Metric
free_memory g = free_of g.memory_total g.memory_used
