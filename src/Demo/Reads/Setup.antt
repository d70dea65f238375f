-- ===== src/Demo/Reads/Setup.antt =====
-- The setup status of an agent and of a direct connection, and the instrumentation runs:
-- services/mockRouter.ts.
use Prim.Native.Nat.{Ordering}
use Prim.Native.String.{compare}
use everyup.Common.{
  sort_by, ℕ, ◌+◌, String, Bool, true, false, Option, some, none, List, [], ◌∷◌, ◌≡◌, map,
  if◌then◌else◌, ◌==◌, not, ◌&&◌, ltb, find, join_comma, includes,
}
use everyup.Api.Agents.{
  AgentProfile, AgentCollectionCapability, ConnectedAgent, CollectorSetupStatus, SignalReceipt,
}
use everyup.Api.Hosts.{InfrastructureResource}
use everyup.Api.Observed.{ObservedService, TelemetrySignal}
use everyup.Demo.Profiles.{PartialProfile, normalize_profile}
use everyup.Demo.Route.Mutations.{Method}
use everyup.Demo.State.{DemoState, Env, Body, map_get, InstrumentationRun}
use everyup.Demo.Handlers.Agents
use everyup.Demo.Handlers.Projects.{is_agent}
use everyup.Demo.Handlers.Infrastructure
use everyup.Demo.Handlers.Observed
use everyup.Demo.Handlers.Monitors
use everyup.Demo.Handlers.Projects
use everyup.Demo.Server.{mock_router}

abbrev capability_name : AgentCollectionCapability → String
capability_name AgentCollectionCapability.uptime = "uptime"
capability_name AgentCollectionCapability.logs = "logs"
capability_name AgentCollectionCapability.infrastructure = "infrastructure"
capability_name AgentCollectionCapability.api = "api"
capability_name AgentCollectionCapability.metrics = "metrics"

abbrev text_le : String → String → Bool
text_le a b = elim (compare a b) [ Ordering.gt ↦ false | _ ↦ true ]

-- `[...capabilities].sort().join(',')`.
desired : AgentProfile → String
unfolding sort_by
desired p = join_comma (sort_by text_le (map capability_name p.capabilities))

abbrev as_partial : Option AgentProfile → Option PartialProfile
as_partial none = none
as_partial (some p) = some (record { kind = some p.kind; capabilities = some p.capabilities })

abbrev signal_name : AgentCollectionCapability → String
signal_name AgentCollectionCapability.api = "traces"
signal_name c = capability_name c

receipt : ConnectedAgent → AgentCollectionCapability → SignalReceipt
receipt a c = record {
  service_name = "api";
  signal = signal_name c;
  first_received_at = a.created_at;
  last_received_at = a.last_seen_at;
}

-- `agent.version`: an empty text is falsy.
abbrev pub has_version : ConnectedAgent → Bool
has_version a = elim a.version [ none ↦ false | some v ↦ not (v == "") ]

setup_of : ℕ → List String → ConnectedAgent → CollectorSetupStatus
unfolding desired receipt normalize_profile
setup_of now pending a =
    let profile = normalize_profile (as_partial a.profile) in
    let connected = has_version a && ltb now (a.last_seen_at + 120000) in
    let wanted = desired profile in
    let applied = if has_version a && not (includes a.id pending) then wanted else "" in
    record {
      connected = connected;
      last_contact_at = if has_version a then some a.last_seen_at else none;
      desired_hash = wanted;
      applied_hash = applied;
      config_applied = connected && (wanted == applied);
      profile = profile;
      signals = if has_version a then map (receipt a) profile.capabilities else [];
    }

-- GET /agents/:id/setup-status on the rows that the scenario shows; `none` is the exception.
unfoldable pub collector_setup :
    ℕ → List String → String → List ConnectedAgent → Option CollectorSetupStatus
unfolding setup_of
collector_setup now pending id rows = elim (find (is_agent id) rows) [
  | none ↦ none
  | some a ↦ some (setup_of now pending a)
]

direct_receipts : (name : String) (created : ℕ) → Option ℕ → List String → List SignalReceipt
direct_receipts name created none signals = []
direct_receipts name created (some seen) signals =
    map
      (λ s. record {
        service_name = name;
        signal = s;
        first_received_at = created;
        last_received_at = seen;
      })
      signals

abbrev telemetry_name : TelemetrySignal → String
telemetry_name TelemetrySignal.logs = "logs"
telemetry_name TelemetrySignal.metrics = "metrics"
telemetry_name TelemetrySignal.traces = "traces"

-- GET /infrastructure-resources/:id/setup-status and GET /observed-services/:id/setup-status; the
-- signals are those of the stored row.
unfoldable pub infrastructure_setup : String → List InfrastructureResource → List SignalReceipt
unfolding direct_receipts
infrastructure_setup id rows = elim (find (λ r. r.id == id) rows) [
  | none ↦ []
  | some r ↦ direct_receipts r.name r.created_at r.last_seen_at ("infrastructure" ∷ [])
]

abbrev signals_of : Option ObservedService → List TelemetrySignal
signals_of none = []
signals_of (some r) = r.signals

unfoldable pub observed_setup :
    String → List ObservedService → List ObservedService → List SignalReceipt
unfolding direct_receipts
observed_setup id stored rows = elim (find (λ r. r.id == id) rows) [
  | none ↦ []
  | some r ↦
      direct_receipts r.name r.created_at r.last_seen_at
        (map telemetry_name (signals_of (find (λ x. x.id == id) stored)))
]

abbrev latest_for : String → List (String × InstrumentationRun) → Option InstrumentationRun
latest_for agent [] = none
latest_for agent ((k, r) ∷ m) = elim (latest_for agent m) [
  | some l ↦ some l
  | none ↦ if r.agent_id == agent then some r else none
]

-- GET /agents/:id/instrumentation-runs/:run; the last one made for the agent is 'latest'.
unfoldable pub get_run :
    String → String → List (String × InstrumentationRun) → Option InstrumentationRun
get_run agent run m = if run == "latest" then latest_for agent m else map_get run m

-- Any further requests that are not GET, one after the other.
pub data Requests : DemoState → DemoState → Type 0 where
  done : (s : DemoState) → Requests s s
  more :
      (env : Env) (m : Method) (e : String) (b : Body) (s t : DemoState)
      → Requests (mock_router env m e b s).0 t
      → Requests s t

-- The setup status of an agent whose profile is pending: it has no applied hash, so that the
-- configuration counts as applied where the agent is connected and its profile has the empty hash.
abbrev pub IsPending : Option CollectorSetupStatus → Type 0
IsPending none = Unit
IsPending (some c) =
    (c.applied_hash ≡ "") × (c.config_applied ≡ (c.connected && (c.desired_hash == "")))
