-- ===== src/App/Errors.antt =====
-- The error of web/src/app/App.tsx, which the polling of useNodes.ts shares with the tasks of the
-- page, and what Dashboard.tsx makes of it.
use card_scope.Base.{
  ℕ, ◌+◌, ◌≡◌, ◌≢◌, refl, ◌∙◌, ap, Bool, true, false, List, [], ◌∷◌, Option, none, some, String,
  Ordering, is_some, if_both, arith, eq_iff,
}
use card_scope.Types.{User, Node}
use card_scope.Session
use card_scope.Polling
use card_scope.Polling.{Pending, Store, refresh, refreshed, send, timer_fired}
use card_scope.Panel
use card_scope.Panel.{page_event}
use card_scope.Shell.{other, take_out, rejected, task_ended}
use card_scope.Summary.{summarize}
use card_scope.View.{interrupted, stale, headline}
use card_scope.App.{App, Event, panel_event, frame_event, step, run}

-- An error alone makes the data count as stale, however new they are.
error_interrupts :
    (locale_compare : String → String → Ordering) (now updated : ℕ) (m : String) (nodes : List Node)
    → m ≢ ""
    → updated ≢ 0
    → headline updated (stale now updated m) nodes (summarize locale_compare nodes) ≡ interrupted
unfolding headline stale
error_interrupts locale_compare now updated m nodes ne later = ground (arith, eq_iff m "")

rejected_step :
    (a : App) (m : String)
    → is_some (take_out other a.frame.tasks) ≡ true
    → (step a (frame_event (task_ended (rejected m)))).panel
      ≡ record a.panel { store = record a.panel.store { error = m } }
unfolding step Panel.run Panel.step Panel.session_events Panel.store_events Session.run Polling.run
    Polling.step
rejected_step a m running = rw running refl

-- The page asks for the nodes: the timer fires, or a task calls `refresh`.
abbrev pub asks : Bool → Event
asks true = panel_event (page_event timer_fired)
asks false = panel_event (page_event refreshed)

abbrev pub all_ask : List Bool → List Event
all_ask [] = []
all_ask (polled ∷ ps) = asks polled ∷ all_ask ps

-- What the page shows is the same.
abbrev AreAlike : Store → Store → Type 0
AreAlike t s = (t.error ≡ s.error) × (t.nodes ≡ s.nodes) × (t.updated ≡ s.updated)

refresh-AreAlike : (polled : Bool) (u : Option User) (s : Store) → AreAlike (refresh u polled s) s
unfolding refresh send
refresh-AreAlike polled none s = (refl, refl, refl)
refresh-AreAlike polled (some u) s = (refl, refl, refl)

asks-AreAlike :
    (polled : Bool) (a : App) → AreAlike (step a (asks polled)).panel.store a.panel.store
unfolding step Panel.step Panel.session_events Panel.store_events Polling.run Polling.step
asks-AreAlike true a =
    let s = a.panel.store in
    if_both (λ t. AreAlike t s) s.timer _ _
      (λ set. refresh-AreAlike true s.user (record s { timer = false }))
      (λ unset. (refl, refl, refl))
asks-AreAlike false a = refresh-AreAlike false a.panel.store.user a.panel.store

all_ask-AreAlike :
    (ps : List Bool) (a : App) → AreAlike (run a (all_ask ps)).panel.store a.panel.store
unfolding run
all_ask-AreAlike [] a = (refl, refl, refl)
all_ask-AreAlike (polled ∷ ps) a =
    let (error, nodes, updated) = all_ask-AreAlike ps (step a (asks polled)) in
    let (error', nodes', updated') = asks-AreAlike polled a in
    (error ∙ error', nodes ∙ nodes', updated ∙ updated')

-- The rejection with a message of a task of the page that is under way leaves the nodes and the
-- time of their update as they are. Until an answer comes or the page sets its error again, and
-- however often it asks for the nodes meanwhile, the message stays, and the dashboard says at any
-- time that the updates are interrupted, however new the data are, once there have been any.
pub rejection_lem :
    (locale_compare : String → String → Ordering) (a : App) (m : String) (ps : List Bool) (now : ℕ)
    → m ≢ ""
    → is_some (take_out other a.frame.tasks) ≡ true
    → a.panel.store.updated ≢ 0
    → let s = a.panel.store in
      let t = (run (step a (frame_event (task_ended (rejected m)))) (all_ask ps)).panel.store in
      (t.error ≡ m)
      × (t.nodes ≡ s.nodes)
      × (t.updated ≡ s.updated)
      × (headline t.updated (stale now t.updated t.error) t.nodes (summarize locale_compare t.nodes)
          ≡ interrupted)
rejection_lem locale_compare a m ps now ne running updated =
    let b = step a (frame_event (task_ended (rejected m))) in
    let s = a.panel.store in
    let (error, nodes, time) = all_ask-AreAlike ps b in
    let left = ap (λ (p : Panel.Panel). p.store) (rejected_step a m running) in
    let error' = error ∙ ap (λ (t : Store). t.error) left in
    let nodes' = nodes ∙ ap (λ (t : Store). t.nodes) left in
    let time' = time ∙ ap (λ (t : Store). t.updated) left in
    (
      error',
      nodes',
      time',
      rw (error', nodes', time')
          (error_interrupts locale_compare now s.updated m s.nodes ne updated),
    )

abbrev IsRound : List Node → ℕ → Store → Type 0
IsRound found now t = (t.error ≡ "") × (t.nodes ≡ found) × (t.updated ≡ now) × (t.timer ≡ true)

-- The last request of the present session that the polling waits for.
abbrev sent : Store → Pending
sent s = record { session = s.generation; request = s.latest_request + 1; polled = true }
