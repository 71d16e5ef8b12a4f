-- ===== src/Status/Users.antt =====
-- The user names of web/src/features/gpu/status.ts.
use card_scope.Base.{◌≡◌, map, String, has, or_text}
use card_scope.Base.Sets.{IsDistinct, has-dedupe, IsDistinct-dedupe}
use card_scope.Types.{Process, Gpu}
use card_scope.Status.{users}

-- The users of a card are listed once each, and are the owners of its processes, where a process
-- without an owner counts for "未知".
pub users_lem :
    (g : Gpu)
    → IsDistinct (users g)
      × ((name : String)
          → has (users g) name ≡ has (map (λ (p : Process). or_text p.user "未知") g.processes) name)
unfolding users
users_lem g = (IsDistinct-dedupe _, λ name. has-dedupe _ name)
