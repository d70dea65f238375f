-- ===== src/Demo/Scenario.antt =====
-- The scenario of the demo and the rows that it shows: mocks/demoScenario.ts and the scenario
-- functions of services/mockRouter.ts.
use everyup.Common.{
  ℕ, ◌+◌, ◌-◌, ◌*◌, String, Bool, true, false, not, Option, some, none, List, [], ◌∷◌, ◌++◌, map,
  if◌then◌else◌, ◌==◌, ◌||◌, leb, ◌+++◌, includes, keep, sort_by,
}
use everyup.Api.Agents.{
  ConnectedAgent, AgentServiceFlat, Timestamp, AgentIncident, TimelineIncident, IncidentSource,
}
use everyup.Api.Hosts.{InfrastructureResource}
use everyup.Api.Monitors.{UptimeMonitor}
use everyup.Api.Observed.{ObservedService}
use everyup.Demo.State.{DemoState, map_get}

pub data MockScenario : Type 0 where
  attention normal empty partial_failure : MockScenario

-- isMockScenario, with the scenario that the text names; `null` is `none`.
pub scenario_of : Option String → Option MockScenario
scenario_of none = none
scenario_of (some v) =
    if v == "attention"
    then some attention
    else if v == "normal"
    then some normal
    else if v == "empty"
    then some empty
    else if v == "partial-failure"
    then some partial_failure
    else none

-- What getDemoScenario reads: whether there is a window, the text in session storage (`none` where
-- the storage throws), and the query parameter.
pub record Browser : Type 0 where
  pub has_window : Bool
  pub stored : Option (Option String)
  pub query : Option String

from_query : Option MockScenario → MockScenario
from_query none = attention
from_query (some v) = v

unfoldable pub get_demo_scenario : Browser → MockScenario
unfolding scenario_of from_query
get_demo_scenario w = if not w.has_window then attention else elim w.stored [
  | none ↦ from_query (scenario_of w.query)
  | some stored ↦ elim (scenario_of stored) [ none ↦ from_query (scenario_of w.query) | some v ↦ v ]
]

scenario_name : MockScenario → String
scenario_name attention = "attention"
scenario_name normal = "normal"
scenario_name empty = "empty"
scenario_name partial_failure = "partial-failure"

-- `setItem` on a storage that may throw.
unfoldable pub set_demo_scenario : MockScenario → Browser → Browser
unfolding scenario_name
set_demo_scenario v w = elim w.stored [
  | none ↦ w
  | some old ↦ record w { stored = some (some (scenario_name v)) }
]

-- What is fixed when the module loads: `nowAgent`, the ids of the fixtures, and the incidents.
pub record Seed : Type 0 where
  pub base : ℕ
  pub agent_ids : List String
  pub monitor_ids : List String
  pub observed_ids : List String
  pub infrastructure_ids : List String
  pub agent_incidents : List AgentIncident
  pub monitor_incidents : List (String × List TimelineIncident)

abbrev pub is_empty_scenario : MockScenario → Bool
is_empty_scenario empty = true
is_empty_scenario _ = false

abbrev pub is_normal : MockScenario → Bool
is_normal normal = true
is_normal _ = false

module _ (seed : Seed) (now : ℕ) where
  -- `Date.parse(timestamp) + Date.now() - nowAgent`; the clock is not set back, so base ≤ now.
  unfoldable pub fixture_time : ℕ → ℕ
  fixture_time t = t + now - seed.base

  abbrev pub fresh : ℕ
  fresh = now - 20000

  aged : MockScenario → ℕ → ℕ
  unfolding fixture_time
  aged v t = if is_normal v then fresh else fixture_time t

  aged_opt : MockScenario → Option ℕ → Option ℕ
  unfolding fixture_time
  aged_opt v none = if is_normal v then some fresh else none
  aged_opt v (some t) = if is_normal v then some fresh else some (fixture_time t)

  unfoldable pub agent_view : MockScenario → ConnectedAgent → ConnectedAgent
  unfolding aged
  agent_view v r =
      if includes r.id seed.agent_ids
      then record r { last_seen_at = aged v r.last_seen_at; updated_at = aged v r.updated_at }
      else r

  unfoldable pub scenario_agents : MockScenario → DemoState → List ConnectedAgent
  unfolding agent_view
  scenario_agents v s = map (agent_view v) (
      if is_empty_scenario v
      then keep (λ r. not (includes r.id seed.agent_ids)) s.agents
      else s.agents)

  map_time : Option ℕ → Option ℕ
  unfolding fixture_time
  map_time none = none
  map_time (some t) = some (fixture_time t)

  -- The fixtures have no invalid time, of which toISOString would throw.
  moved : Timestamp → Timestamp
  unfolding fixture_time
  moved Timestamp.invalid = Timestamp.invalid
  moved (Timestamp.at t) = Timestamp.at (fixture_time t)

  shifted_service : AgentServiceFlat → AgentServiceFlat
  unfolding map_time moved
  shifted_service r = record r {
    observed_at = moved r.observed_at;
    updated_at = map_time r.updated_at;
  }

  unfoldable pub healthy_service : AgentServiceFlat → AgentServiceFlat
  healthy_service r = record r {
    healthy = true;
    last_status = some (if r.check_type == "http" then 200 else 0);
    last_latency = some (if r.check_type == "http" then "42ms" else "5ms");
    last_error = none;
    updated_at = some fresh;
    observed_at = Timestamp.at fresh;
  }

  unfoldable pub scenario_services : MockScenario → DemoState → List AgentServiceFlat
  unfolding shifted_service healthy_service
  scenario_services empty s = []
  scenario_services normal s = map healthy_service s.services
  scenario_services attention s = map shifted_service s.services
  scenario_services partial_failure s = map shifted_service s.services

  unfoldable pub scenario_monitors : MockScenario → DemoState → List UptimeMonitor
  scenario_monitors v s =
      if is_empty_scenario v
      then keep (λ r. not (includes r.id seed.monitor_ids)) s.monitors
      else s.monitors

  unfoldable pub observed_view : MockScenario → ObservedService → ObservedService
  unfolding aged_opt
  observed_view v r =
      if includes r.id seed.observed_ids
      then record r {
        last_seen_at = aged_opt v r.last_seen_at;
        updated_at = fixture_time r.updated_at;
      }
      else r

  unfoldable pub scenario_observed_services : MockScenario → DemoState → List ObservedService
  unfolding observed_view
  scenario_observed_services v s = map (observed_view v) (
      if is_empty_scenario v
      then keep (λ r. not (includes r.id seed.observed_ids)) s.observed
      else s.observed)

  unfoldable pub resource_view : MockScenario → InfrastructureResource → InfrastructureResource
  unfolding aged_opt
  resource_view v r =
      if includes r.id seed.infrastructure_ids
      then record r {
        last_seen_at = aged_opt v r.last_seen_at;
        updated_at = fixture_time r.updated_at;
      }
      else r

  unfoldable pub scenario_infrastructure : MockScenario → DemoState → List InfrastructureResource
  unfolding resource_view
  scenario_infrastructure v s = map (resource_view v) (
      if is_empty_scenario v
      then keep (λ r. not (includes r.id seed.infrastructure_ids)) s.infrastructure
      else s.infrastructure)

  -- encodeURIComponent is the platform's.
  docker_incident : (String → String) → AgentIncident → TimelineIncident
  unfolding map_time
  docker_incident encode r = record {
    source = IncidentSource.docker;
    target_name = r.service_name;
    target_path =
        "/services/"
        +++ (elim r.agent_id [ none ↦ "undefined" | some a ↦ a ])
        +++ "/"
        +++ encode r.key;
    started_at = fixture_time r.started_at;
    ended_at = map_time r.ended_at;
    duration_sec = r.duration_sec;
    active = r.active;
    message = none;
  }

  uptime_incidents : List UptimeMonitor → List TimelineIncident
  uptime_incidents [] = []
  uptime_incidents (m ∷ ms) =
      (elim (map_get m.id seed.monitor_incidents) [ none ↦ [] | some is ↦ is ])
      ++ uptime_incidents ms

  -- Newest first.
  abbrev pub newer : TimelineIncident → TimelineIncident → Bool
  newer a b = leb b.started_at a.started_at

  abbrev pub week : ℕ
  week = 7 * 86400000

  unfoldable pub scenario_timeline :
      (String → String) → MockScenario → DemoState → List TimelineIncident
  unfolding uptime_incidents docker_incident sort_by
  scenario_timeline encode v s =
      if is_empty_scenario v
      then []
      else sort_by newer (
          keep (λ r. leb seed.base (r.started_at + week))
            (uptime_incidents (scenario_monitors v s)
              ++ map (docker_incident encode)
                  (keep (λ r. not (is_normal v) || not r.active) seed.agent_incidents)))
