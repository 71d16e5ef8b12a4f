-- ===== src/Lib.antt =====
-- CardScope's web panel (web/src): a page that polls the hub for the nodes of a cluster and shows
-- which GPUs are free, which need attention, and who used them. This library models the panel's
-- logic as pure functions and state machines over the data that the hub answers with.
--
-- The parts, and how they interact:
--   Types           web/src/types.ts, the records of the hub's JSON answers.
--   Status          web/src/features/gpu/status.ts: `capacityKey` is capacity_key, `users`, `idle`,
--                   `bad`, `label` keep their names. The summary, the query and the cards use them.
--   Summary         web/src/features/dashboard/summary.ts: `gpuState` is gpu_state (Summary/State),
--                   `summarize` is two loops, node_loop and gpu_loop, over the record Tally of its
--                   variables; a model's row is counted by add_model.
--   View            web/src/features/dashboard/Dashboard.tsx: what the dashboard says of a summary.
--   Overview        web/src/app/App.tsx: the totals, `filtered` (of_node, narrow, stays, node_order),
--                   the handler on_query of the dashboard's links (Overview/Availability), the
--                   lists above the nodes (Overview/Filters) and the nodes' list
--                   (Overview/Listing).
--   Polling         web/src/features/nodes/useNodes.ts: the hook's state, counters, requests under
--                   way and timer are the record Store; each call, answer, timer and cleanup is an
--                   Event, and any list of events is an interleaving.
--   Session, Client web/src/features/auth/useSession.ts and web/src/api/client.ts: who is signed in,
--                   the token, and what is made of an answer.
--   Tags            web/src/features/nodes/NodeSettings.tsx: `collectTags` and what saving sends.
--   Card, Resources web/src/features/nodes/NodeCard.tsx and NodeResources.tsx: counts, badges,
--                   rates, ratios and the choice of interfaces.
--   Stats           web/src/features/statistics/UserStats.tsx: the range of a query and its rows.
--   Select          web/src/components/ui/select.tsx: the options, the own state and the hidden input,
--                   with the choices and the resets of the form as events.
--   Time            web/src/lib/time.ts and web/src/components/HeaderClock.tsx: the calendar
--                   (Time/Calendar), texts of a pattern (Time/Patterns), what an input is given and
--                   how it is read back (Time/Inputs), and the displayed texts (Time/Display).
--   Stats/Fetching  the effect of UserStats.tsx: a run has a number, a request keeps its query, and
--                   Step is the relation of what may happen to the page.
--   Shell           web/src/app/App.tsx: pages, dialogs, the enrollment code, the tiles, and
--                   `perform` with its tasks, which begin and end as events.
--   Trend           Dashboard.tsx again: the effect of ClusterTrend as a state machine, and what
--                   stands in place of the chart. The part of leaving the page is left out.
--   Panel           App.tsx with both hooks and the client: which events of the session, the page and
--                   the answers cause which events of useSession and of useNodes.
--   Detail          web/src/features/gpu/GPUDetail.tsx: the effect, whose two requests are answered
--                   one by one in any order, and the texts of the dialog (Detail/Content).
--   Format          web/src/lib/format.ts, with the browser's part as the record Locale.
--   Login, CopySettings  web/src/features/auth/Login.tsx and
--                   web/src/features/settings/LoginCopySettings.tsx: two forms as state machines.
--   NodeSettings, Settings  web/src/features/nodes/NodeSettings.tsx again, and the form for passwords of
--                   web/src/features/settings/Settings.tsx: each on the page of Shell, which runs its
--                   requests (Shell/Forms), and web/src/features/nodes/Enrollment.tsx. What other
--                   parts of the page do beside a node's form is its event `elsewhere`.
--   Card/Content, Resources/Content, View/Grid, View/Cell, View/Page, Stats/Content, Stats/Lists,
--   Trend/Chart     the texts, rows and lists that these components show; View/Page also says what
--                   the dashboard's buttons bring to Shell.
--   App             web/src/app/App.tsx as a whole: Panel and Shell side by side, the error that they
--                   share (App/Errors), the sign-out (App/SignOut), the runs of both that a run
--                   of it is made of (App/Parts), what the screen shows of them, and the theme.
--   Base            the names that all modules share, with lemmas on lists, texts and sorting.
--   Tests           runs of the definitions, and each theorem at a concrete input.
--
-- Numbers are natural numbers: percentages, degrees and bytes are whole, as the collectors report
-- them. Halves of a GiB round up, as `Math.round` does. The share of used memory is compared
-- exactly, which agrees with the browser's rounded quotient below 2 ^ 51 bytes; ratios and averages
-- are kept as two numbers. A list or record that may be null is empty. Base/Json writes out what
-- `JSON.stringify` makes of two texts, the key of a row. A `Map` and a `Set` keep the order of
-- insertion; `sort` is a stable insertion sort. `toLowerCase` and `localeCompare` are parameters,
-- with hypotheses where a result needs them. A number is printed with itself as the fuel, which is
-- no less than the number of divisions by ten that its digits need; the year of a day is looked for
-- with a 365th of the days as the fuel, since each year has at least 365. Times are those since
-- 1970, and the browser's offsets whole minutes.
--
-- Not modelled: the markup and its style, the chart and popup libraries, the formatting of
-- numbers by the browser's locale, and the hub, the agent and the collectors (written in Go), which
-- the panel meets only as answers.
pub mod Base
pub mod Types
pub mod Status
pub mod Summary
pub mod Overview
pub mod Client
pub mod Session
pub mod Polling
pub mod Panel
pub mod Format
pub mod Detail
pub mod Login
pub mod CopySettings
pub mod NodeSettings
pub mod App
pub mod Settings
pub mod Tags
pub mod Card
pub mod Time
pub mod Resources
pub mod Select
pub mod Stats
pub mod View
pub mod Trend
pub mod Shell
mod Tests
