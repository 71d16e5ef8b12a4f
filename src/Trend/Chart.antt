-- ===== src/Trend/Chart.antt =====
-- web/src/features/dashboard/Dashboard.tsx: the figure, the ticks and the note of ClusterTrend.
use card_scope.Base.{
  ℕ, ◌%◌, ◌+◌, List, [], ◌∷◌, Option, none, some, String, is_zero, map, show, ◌&◌, if◌then◌else◌,
}
use card_scope.Format.{Locale}
use card_scope.Trend.{Point}

-- The average is a sum over a number of cards.
unfoldable pub average_text : Locale → Option (ℕ × ℕ) → String
average_text l none = "—"
average_text l (some (sum, number)) = l.number sum number 0 & "%"

-- The points whose index, counted from `k`, is a multiple of 24.
abbrev pub every_24th : ℕ → List Point → List Point
every_24th k [] = []
every_24th k (p ∷ ps) =
    let rest = every_24th (k + 1) ps in if is_zero (k % 24) then p ∷ rest else rest

unfoldable pub ticks : List Point → List ℕ
ticks points = map (λ (p : Point). p.at) (every_24th 0 points)

abbrev pub note : ℕ → String
note number = "当前 " & show number & " 张卡有效采样 · 历史按有效采样时长加权"
