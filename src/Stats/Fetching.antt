-- ===== src/Stats/Fetching.antt =====
-- web/src/features/statistics/UserStats.tsx: the effect that fetches the answer to a query.
--
-- Each run of the effect has a number; the `active` of a run says that no later one has begun, as
-- its cleanup clears it. A request under way keeps the run that sent it, and its query.
pub mod Currency
pub mod Waiting
use mathlib.Core.List.{Memᴰ}
use card_scope.Base.{
  ℕ, ◌+◌, ◌≡◌, Bool, true, false, not, List, [], ◌∷◌, Option, none, some, String, nat_eq, keep,
  if◌then◌else◌,
}
use card_scope.Client.{Result, value, failed}
use card_scope.Stats.{Row, toggle}

abbrev pub Query : Type 0
Query = List (String × String)

-- The answer of the hub: `Result` in the source.
pub record Answer : Type 0 where
  pub users : List Row
  pub incomplete : Bool
  pub from : ℕ
  pub to : ℕ

pub record Request : Type 0 where
  pub run : ℕ
  pub query : Query

pub record Page : Type 0 where
  pub query : Option Query
  pub result : Option Answer
  pub error : String
  pub busy : Bool
  pub expanded : List String
  pub run : ℕ
  pub timer : Bool
  pub pending : List Request

-- Before the first effect has run.
abbrev pub unfetched : Page
unfetched = record {
  query = none;
  result = none;
  error = "";
  busy = true;
  expanded = [];
  run = 0;
  timer = false;
  pending = [];
}

-- The cleanup of a run, and then the next one for the new query. The timer is that of the run.
abbrev pub cleared : Option Query → Page → Page
cleared q s = record {
  query = q;
  result = none;
  error = "";
  busy = true;
  expanded = [];
  run = s.run + 1;
  timer = false;
  pending = s.pending;
}

unfoldable pub begin : Option Query → Page → Page
begin none s = record (cleared none s) { busy = false; error = "结束时间须晚于开始时间" }
begin (some q) s = record (cleared (some q) s) { timer = true }

-- The timer fires: the request is sent.
unfoldable pub send : Query → Page → Page
send q s = record s { timer = false; pending = record { run = s.run; query = q } ∷ s.pending }

abbrev pub outcome : Result Answer → Page → Page
outcome (value a) s = record s { result = some a; busy = false }
outcome (failed message) s = record s { error = message; busy = false }

abbrev pub without : ℕ → List Request → List Request
without k = keep (λ (r : Request). not (nat_eq r.run k))

-- The answer to a request: what it changes if its run is active, and nothing otherwise.
unfoldable pub settle : Request → Result Answer → Page → Page
settle r answer s =
    let t = record s { pending = without r.run s.pending } in
    if nat_eq r.run s.run then outcome answer t else t

-- A click on a row.
unfoldable pub open_row : String → Page → Page
open_row key s = record s { expanded = toggle key s.expanded }

-- What may happen to the page, where `Answers q a` says that the hub may answer `q` with `a`.
module _ (Answers : Query → Answer → Type 0) where
  pub data Step : Page → Page → Type 0 where
    chosen : (q : Option Query) (s : Page) → Step s (begin q s)
    fired : (q : Query) (s : Page) → s.timer ≡ true → s.query ≡ some q → Step s (send q s)
    answered :
        (r : Request) (a : Answer) (s : Page)
        → Memᴰ r s.pending
        → Answers r.query a
        → Step s (settle r (value a) s)
    refused :
        (r : Request) (message : String) (s : Page)
        → Memᴰ r s.pending
        → Step s (settle r (failed message) s)
    clicked : (key : String) (s : Page) → Step s (open_row key s)

  -- The pages that come after the first run of the effect, for its first query.
  pub data Reach (first : Option Query) : Page → Type 0 where
    opened : Reach first (begin first unfetched)
    next : {s t : Page} → Reach first s → Step s t → Reach first t
