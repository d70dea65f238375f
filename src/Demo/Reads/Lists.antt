-- ===== src/Demo/Reads/Lists.antt =====
-- The lists that reading requests answer with: services/mockRouter.ts.
use everyup.Common.{
  ℕ, String, Bool, true, false, Option, some, none, List, [], ◌++◌, map, if◌then◌else◌, ◌==◌, not,
  ◌&&◌, ◌||◌, find, keep, length,
}
use everyup.Api.Agents.{ConnectedAgent, AgentCollectionCapability, AgentServiceFlat, AgentIncident}
use everyup.Api.Hosts.{InfrastructureResource, InfrastructureAdapter}
use everyup.Api.Observed.{ObservedService}
use everyup.Api.Projects.{Project, is_in}
use everyup.Demo.Profiles.{has}
use everyup.Demo.Reads.Setup.{has_version}
use everyup.Demo.Scenario.{
  MockScenario, Seed, scenario_agents, scenario_monitors, scenario_observed_services,
  scenario_infrastructure, scenario_services, fixture_time, is_empty_scenario, is_normal,
}
use everyup.Demo.State.{DemoState}

-- The cpu, memory and disk usage of mockHostInfo.
pub record HostUsage : Type 0 where
  pub cpu : ℕ
  pub memory : ℕ
  pub disk : ℕ

module _ (seed : Seed) (now : ℕ) where
  unfoldable pub counted : MockScenario → DemoState → Project → Project
  counted v s p = record p {
    agent_count = length (keep (λ r. is_in p.id r.project_id) (scenario_agents seed now v s));
    monitor_count = length (keep (λ r. is_in p.id r.project_id) (scenario_monitors seed now v s));
    observed_service_count =
        length (keep (λ r. is_in p.id r.project_id) (scenario_observed_services seed now v s));
    infrastructure_resource_count =
        length (keep (λ r. is_in p.id r.project_id) (scenario_infrastructure seed now v s));
  }

  -- GET /projects
  unfoldable pub list_projects : MockScenario → DemoState → List Project
  unfolding counted
  list_projects v s = if is_empty_scenario v then [] else map (counted v s) s.projects

  -- `agent.version && agent.profile?.capabilities.includes('infrastructure')`.
  abbrev pub has_host : ConnectedAgent → Bool
  has_host a = has_version a && (elim a.profile [
    | none ↦ false
    | some p ↦ has p.capabilities AgentCollectionCapability.infrastructure
  ])

  abbrev pub agent_resource : (String → HostUsage) → ConnectedAgent → InfrastructureResource
  agent_resource usage a = record {
    id = a.id;
    name = a.name;
    project_id = a.project_id;
    adapter = InfrastructureAdapter.everyup_agent;
    is_active = true;
    api_key_masked = none;
    api_key = none;
    last_seen_at = some a.last_seen_at;
    cpu_usage = some (usage a.id).cpu;
    memory_usage = some (usage a.id).memory;
    disk_usage = some (usage a.id).disk;
    created_at = a.created_at;
    updated_at = a.updated_at;
  }

  -- GET /infrastructure-resources
  unfoldable pub list_infrastructure :
      (String → HostUsage) → MockScenario → DemoState → List InfrastructureResource
  list_infrastructure usage v s =
      scenario_infrastructure seed now v s
      ++ map (agent_resource usage) (keep has_host (scenario_agents seed now v s))

  -- GET /infrastructure-resources/:id and GET /observed-services/:id; `none` is null.
  unfoldable pub get_infrastructure :
      String → MockScenario → DemoState → Option InfrastructureResource
  get_infrastructure id v s = find (λ r. r.id == id) (scenario_infrastructure seed now v s)

  unfoldable pub get_observed : String → MockScenario → DemoState → Option ObservedService
  get_observed id v s = find (λ r. r.id == id) (scenario_observed_services seed now v s)

  -- GET /agents/:id/services
  unfoldable pub list_services : String → MockScenario → DemoState → List AgentServiceFlat
  list_services agent v s = keep (λ r. r.agent_id == agent) (scenario_services seed now v s)

  abbrev shifted : AgentIncident → AgentIncident
  shifted r = record r {
    started_at = fixture_time seed now r.started_at;
    ended_at = elim r.ended_at [ none ↦ none | some t ↦ some (fixture_time seed now t) ];
  }

  -- GET /agents/:id/incidents
  unfoldable pub list_incidents : String → MockScenario → List AgentIncident
  list_incidents agent v = map shifted (
      keep (λ r. is_in agent r.agent_id && (not (is_normal v) || not r.active))
        seed.agent_incidents)
