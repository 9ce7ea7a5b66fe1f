-- ===== src/Lib.antt =====
-- Tracium's dashboard, modelled by shallow embedding: the TypeScript under dashboard/src.
--
-- The dashboard is a single page. It signs a person in (App.tsx), reads metrics and traces from the
-- API through one client that is scoped to a workspace (common/api), and shows them on pages that
-- the shell reaches by path (modules/shell). The parts are connected as the code connects them: the
-- rows that the trace mapper orders are those that the inspector's state works on, the routes know
-- the pages that the validation of the extensions accepts, and a request that says 401 calls the
-- logout of the session.
--
-- The files, with the paths of dashboard/src that they model:
--   Prelude            what the parts share: tests, lists, integers, JavaScript's Map, Set and stable
--                      sort (Prelude/Maps, Prelude/Sort), texts of numbers (Prelude/Numbers)
--   Common             common/interfaces and common/utils/severity.ts: records and severities
--   TraceExplorer      modules/trace-explorer/utils/toTraceView.ts (childrenOf, visit: children_of,
--                      visit, order_spans; the returned view: TraceExplorer/View) and toRunRow.ts
--   TraceInspector     modules/trace-inspector/components/TraceView.tsx: toggleCollapse, revealSpan
--                      and visibleSpans on the state of the view; and, in TraceInspector/Json,
--                      utils/prettifyMaybeJson.ts
--   Overview           modules/overview/utils: anomalies.ts (Overview/Anomalies: groupIncidents,
--                      toChartMarkers, anomalyChips) and status.ts (Overview/Status)
--   Workflows          modules/workflows/utils/versions.ts (Workflows/Versions), and of pages/ the
--                      comparison of two versions, VersionCompareLivePage.tsx (Workflows/Compare), and
--                      the list, WorkflowsPage.tsx (Workflows/Table)
--   Usage              the list of clients, modules/usage/pages/UsersPage.tsx (Usage/Clients)
--   Tables             what the lists of workflows and of clients share
--   Api                common/api: client.ts (Api/Client: get, post, delete, request), with the
--                      failures that common/providers/QueryProvider.tsx handles, and the methods of
--                      the five clients (Api/Endpoints)
--   Queries            the query hooks under modules/*/hooks: their keys, requests and conditions
--   Session            App.tsx, modules/auth/auth.ts and modules/invites/pending.ts: the state of App,
--                      its handlers as functions, and a step relation between its states
--   Settings           modules/settings/pages/SettingsPage.tsx: slugify (Settings/Slug), the tabs and the
--                      form for a workspace (Settings/Create), the members (Settings/Members), the form for
--                      a password on the state of the session (Settings/Password)
--   Auth, Invites      modules/auth/api.ts with the submissions of LoginPage.tsx and SignupPage.tsx, and
--                      modules/invites/pending.ts (the token in the path) with InvitePage.tsx
--   ApiKeys            modules/api-keys: the page's state over requests in flight, and the keys of the
--                      preview (ApiKeys/Demo)
--   Texts              trim and includes, on texts as bytes
--   Uri, Extensions, Shell
--                      encodeURIComponent and decodeURIComponent; extensions.ts; and
--                      modules/shell/routing.ts (Shell/Routing: stateToPath, pathToState);
--                      modules/shell/hooks/useWorkspaces.ts (Shell/Workspaces); and
--                      modules/shell/Dashboard/Dashboard.tsx (Shell/Dashboard): its state and handlers,
--                      its effects and events (History), the abstract history that they implement
--                      (Visits), the paths that the browser keeps (Settled), the breadcrumb, what is rendered (Content), and the deep link that App.tsx
--                      remembers before the login (DeepLink); and
--                      modules/shell/CommandPalette/CommandPalette.tsx (Shell/CommandPalette)
--
-- Representation. A field keeps the source's name in snake_case. Times are whole milliseconds from
-- the epoch; costs, rates and scores are whole numbers of a fixed small unit, since the code mostly
-- adds and compares them; a quotient of two stays a pair; a difference that may be negative is an
-- integer. A Map or a Set is a list
-- in the order of insertion. A function that throws returns an Option or an Outcome. Storage is
-- passed along explicitly, with what the browser lets the page do with it. A text that goes into a
-- URL is the list of its UTF-8 bytes. The path that a page gives to history.pushState is resolved as
-- the URL standard says (Shell/Routing/Resolve): a segment '.' or '..' is taken out of it.
--
-- Fuel. The recursion `visit` goes one deeper only for a span that was not seen, so it runs on one
-- more than the number of spans; that this is enough is part of what is shown. Every other loop is
-- structural, save the loop of `prettifyMaybeJson`, for which the length of the text is fuel enough.
--
-- Arguments of the model: what `fetch` comes to and when, the messages of the host's own errors, the
-- formatting of a date for the locale, `toLowerCase`, `localeCompare`, random texts, the current time, and, for the
-- session, the invite token that the path of the page holds.
--
-- Not modelled: what components render, charts and styles, demo data, the query cache (a library),
-- JSON and URL parsing (the host), texts of floating-point numbers, and the parts of the repository
-- in other languages (api, collector).
pub mod Api
pub mod ApiKeys
pub mod Auth
pub mod Common
pub mod Extensions
pub mod Invites
pub mod Overview
pub mod Prelude
pub mod Queries
pub mod Session
pub mod Settings
pub mod Shell
pub mod Tables
pub mod Texts
pub mod TraceExplorer
pub mod TraceInspector
pub mod Uri
pub mod Usage
pub mod Workflows
