-- ===== src/Lib.antt =====
-- The web frontend of EveryUp: the demo server that answers it in the live demo, the requests of
-- its API client, the groups of its monitored targets, and the rules for their states, their logs,
-- their charts and their alerts.
--
-- Parts and files (paths under web/frontend/src):
-- - Api/*: the rows of services/api/{agents,hosts,observedServices,projects,services}.ts, one
--   record for each interface and one data type for each union of texts.
-- - Demo/Route/*: the endpoint patterns of services/mockRouter.ts (`route`), the endpoints that
--   services/api/*.ts builds (`agents_api`, `projects_api`, ...), and that the two fit (Reaches).
-- - Demo/State: the module-level fixtures of services/mockRouter.ts as one record, DemoState.
-- - Demo/Handlers/*: one function for each POST, PUT and DELETE handler; Demo/Server: `mock_router`
--   composes routing and handlers. A handler gives the new fixtures and the reply; an exception is
--   the reply `thrown`.
-- - Demo/Profiles: normalizeMockAgentProfile. Demo/Scenario: mocks/demoScenario.ts and the scenario
--   functions of the router, which choose the rows that a reading request shows.
-- - Demo/Reads/*: reading requests of the router: filters and pages (Query), statistics of requests
--   (Stats), setup status and runs (Setup), lists and counts (Lists).
-- - Demo/Laws/*: what the requests keep. Demo/Tests and Demo/Samples: runs on sample rows.
-- - Status/*: utils/operationalStatus.ts, features/uptime/uptimeState.ts and
--   features/metrics/metricPresentation.ts; Titles also has formatDuration of utils/incidentFormat.ts.
-- - Groups/*: pages/projects/projectMembers.ts: the members of a group, their order and summary,
--   the move of a target into a group, answered by the demo server, and what ProjectOverviewPage.tsx
--   of pages/projects takes of the answers (Deletion).
-- - Client/*: the outcome of services/api/base.ts by the response, and utils/errors.ts.
-- - Alerts/Target: features/alerts/alertTarget.ts and useAlertThresholds.ts; Alerts/Requests:
--   services/api/alerts.ts.
-- - Alerts/Rules/*: features/alerts/components/AlertRuleForm.tsx: presets of a condition (Presets),
--   the state and the handlers of the form (Form), its schema and request (Submit), a rule opened
--   and saved again (Reopen), the events of a session (Steps, Sessions), and the default message
--   and the system rules (Display). Alerts/Labels, RulesTab, RulesOrder, RulesPage and
--   RulesSettling: AlertRulesTab.tsx: the texts of a rule, the filtered list and its order, the
--   handlers of the page and what they keep. Alerts/Channels and ChannelLaws: ChannelForm.tsx.
-- - Hooks/Load and Current: the loading effect with its cancellation that TracePanel.tsx and
--   features/api-requests/useApiTargets.ts share, as a step relation over unanswered requests.
-- - Hooks/Targets: features/api-requests/useApiTargets.ts with the retry of a row; Hooks/DataFetch:
--   hooks/useDataFetch.ts.
-- - Navigation/Trail: hooks/useGroupTrail.ts.
-- - Traces/*: features/traces/components/TracePanel.tsx: bodies and headers of spans (Spans,
--   Headers) and the texts that are copied (Copies).
-- - Setup/*: features/services/components/AddServiceModal.tsx: the command to install (Shell), the
--   state and handlers of the dialog (AddService), the chosen capabilities (Capabilities) and the
--   announcement of a connection (Announce).
-- - Metrics/*: features/metrics/metricSeries.ts: the rates of a sum (Rates) and the times over which
--   they count (Intervals); features/metrics/useMetricRead.ts: the loading of a metric (Read) and
--   its step relation (Reading).
-- - Uptime/Detail: features/uptime/useUptimeMonitorDetail.ts as a step relation.
-- - Charts/*: timeTicks, fillBuckets, medianStep and splitGaps of components/charts/chartTheme.ts.
-- - Logs/ServiceRows: features/logs/logServiceRows.ts. Logs/Panel and Paging: ServiceLogsPanel of
--   features/healthcheck/components/AgentServiceLogsTab.tsx.
-- - Common/*: shared tests, lists with ids, a stable sort, and texts.
--
-- How the model reads the source:
-- - An instant is its number of milliseconds; `new Date(text)` that fails is Timestamp.invalid.
--   Percentages, thresholds and durations are natural numbers, and rows have valid instants, but for
--   the observation of a Docker service, which may be invalid. Date.now(), the random bytes,
--   decodeURIComponent, encodeURIComponent and toLocaleString are the platform's and are arguments.
-- - JSON.parse gives the object's fields that some handler reads, `null`, or the exception; a field
--   of another type than the input's is not modelled. A field of `null`, a run without keys and a key
--   that decodeURIComponent refuses end in the exceptions that they throw. A required text that a
--   body lacks is the empty text, and Object.assign copies the id and the fields of the input type.
-- - A Map is the list of its entries in the order of insertion. An anchored pattern is matched part
--   by part between the slashes of the endpoint; captured parts are not empty.
-- - Loops run over lists, so every definition is total. The one loop over instants, `visits` of
--   Charts/Axis, has fuel for its rounds: the length of the window in milliseconds and one more,
--   since each round moves on by a millisecond at least. The refetching of the logs panel has the
--   fuel of two rounds, which Logs/Paging shows to be enough.
--
-- - The pure functions that a hook applies are modelled apart from React; toLowerCase, includes,
--   Number and Date.parse of texts are the platform's.
--
-- - The handlers of a React component are functions of its state, up to a request and after its
--   answer; the requests under way and their answers are steps, in any order.
--
-- Not modelled: the markup and the rendering of the React components, the other components, fetch
-- itself, the three usages of mockHostInfo, the Go server and agent, and the texts of the screens.
pub mod Alerts
pub mod Api
pub mod Charts
pub mod Client
pub mod Common
pub mod Demo
pub mod Groups
pub mod Hooks
pub mod Logs
pub mod Metrics
pub mod Navigation
pub mod Setup
pub mod Status
pub mod Traces
pub mod Uptime
