-- ===== src/View/Cell.antt =====
-- web/src/features/dashboard/Dashboard.tsx: a card of the grid, with its tip.
use card_scope.Base.{List, [], ◌∷◌, String, show, join, or_text, ◌&◌, ◌==◌, if◌then◌else◌}
use card_scope.Types.{Gpu, Node}
use card_scope.Status.{users}
use card_scope.Summary.{GpuState, idle, busy, attention, unknown, offline, state_labels, gpu_state}
use card_scope.Format.{Locale, fmt, bytes}
use card_scope.View.{free_memory}

-- The sign in front of the index.
pub data Sign : Type 0 where
  triangle circle unplug nothing : Sign

unfoldable pub sign : GpuState → Sign
sign attention = triangle
sign unknown = circle
sign offline = unplug
sign idle = nothing
sign busy = nothing

-- The name of the state that the class of the button holds.
abbrev pub state_name : GpuState → String
state_name idle = "idle"
state_name busy = "busy"
state_name attention = "attention"
state_name unknown = "unknown"
state_name offline = "offline"

pub record Cell : Type 0 where
  pub class_name : String
  pub aria_label : String
  pub sign : Sign
  pub index : String
  pub tip : List String

unfoldable pub tip : Locale → Node → Gpu → List String
tip l n g =
    g.name
    ∷ (n.name & " · GPU " & show g.index)
    ∷ (state_labels (gpu_state g n) & " · 利用率 " & fmt l 1 0 g.util & "%")
    ∷ ((if n.online then "剩余显存" else "最后上报剩余显存") & " " & bytes l 1 (free_memory g))
    ∷ or_text (join "、" (users g)) (if g.process_status == "ok" then "无计算进程" else "使用者未知")
    ∷ []

unfoldable pub cell : Locale → Node → Gpu → Cell
cell l n g =
    let state = gpu_state g n in
    record {
      class_name = "dash-gpu " & state_name state;
      aria_label = n.name & " GPU " & show g.index & " · " & g.name & " · " & state_labels state;
      sign = sign state;
      index = show g.index;
      tip = tip l n g;
    }
