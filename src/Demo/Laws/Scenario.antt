-- ===== src/Demo/Laws/Scenario.antt =====
-- What each scenario of the demo shows: mocks/demoScenario.ts and services/mockRouter.ts.
use everyup.Common.{
  ℕ, String, true, false, not, List, [], ◌∷◌, ◌≡◌, ◌≢◌, refl, map, arith, if◌then◌else◌, includes,
  keep, All, is_some, Bool-cases, inl, inr,
}
use everyup.Api.Agents.{AgentServiceFlat}
use everyup.Demo.State.{DemoState}
use everyup.Demo.Scenario.{
  MockScenario, Browser, get_demo_scenario, set_demo_scenario, Seed, scenario_agents,
  scenario_services, healthy_service, scenario_monitors, scenario_observed_services,
  scenario_infrastructure,
}
use everyup.Status.Operational.{is_collector_fresh, docker_uptime_state, DockerUptimeState}

-- A scenario that was chosen is the one that is shown from then on, if the session storage works;
-- if it does not, the choice is lost and the page shows what it showed before.
pub get-set_demo_scenario :
    (v : MockScenario) (w : Browser)
    → w.has_window ≡ true
    → get_demo_scenario (set_demo_scenario v w)
      ≡ (if is_some w.stored then v else get_demo_scenario w)
unfolding get_demo_scenario set_demo_scenario
get-set_demo_scenario MockScenario.attention w h = ground arith
get-set_demo_scenario MockScenario.normal w h = ground arith
get-set_demo_scenario MockScenario.empty w h = ground arith
get-set_demo_scenario MockScenario.partial_failure w h = ground arith

healthy_services :
    (seed : Seed) (now : ℕ) (rows : List AgentServiceFlat)
    → All
        (λ r.
          (docker_uptime_state now r ≢ DockerUptimeState.stale)
          × (docker_uptime_state now r ≢ DockerUptimeState.down))
        (map (healthy_service seed now) rows)
unfolding healthy_service docker_uptime_state is_collector_fresh
healthy_services seed now [] = tt
healthy_services seed now (r ∷ rs) =
    ((λ e. ground arith, λ e. ground arith), healthy_services seed now rs)

-- No service of the normal scenario counts as stale or down, whatever the fixtures hold.
pub scenario_services_normal :
    (seed : Seed) (now : ℕ) (s : DemoState)
    → All
        (λ r.
          (docker_uptime_state now r ≢ DockerUptimeState.stale)
          × (docker_uptime_state now r ≢ DockerUptimeState.down))
        (scenario_services seed now MockScenario.normal s)
unfolding scenario_services
scenario_services_normal seed now s = healthy_services seed now s.services

-- The rows of one kind, after a view that changes the fixtures only.
module _ {A : Type 0} (key : A → String) (ids : List String) (view : A → A) where
  untouched :
      (rows : List A)
      → ((r : A) → includes (key r) ids ≡ false → view r ≡ r)
      → map view (keep (λ r. not (includes (key r) ids)) rows)
        ≡ keep (λ r. not (includes (key r) ids)) rows
  untouched [] h = refl
  untouched (r ∷ rs) h = elim (Bool-cases (includes (key r) ids)) [
    | inl e ↦ rw e (untouched rs h)
    | inr e ↦ rw (e, h r e, untouched rs h)
  ]

-- The empty scenario shows exactly the rows that were made since the page was loaded, as they are
-- stored, and no Docker service.
pub scenario_empty :
    (seed : Seed) (now : ℕ) (s : DemoState)
    → (scenario_agents seed now MockScenario.empty s
        ≡ keep (λ r. not (includes r.id seed.agent_ids)) s.agents)
      × (scenario_services seed now MockScenario.empty s ≡ [])
      × (scenario_monitors seed now MockScenario.empty s
          ≡ keep (λ r. not (includes r.id seed.monitor_ids)) s.monitors)
      × (scenario_observed_services seed now MockScenario.empty s
          ≡ keep (λ r. not (includes r.id seed.observed_ids)) s.observed)
      × (scenario_infrastructure seed now MockScenario.empty s
          ≡ keep (λ r. not (includes r.id seed.infrastructure_ids)) s.infrastructure)
unfolding scenario_agents scenario_services scenario_monitors scenario_observed_services
    scenario_infrastructure
scenario_empty seed now s = (
  untouched (λ r. r.id) seed.agent_ids _ s.agents (λ r h. ground arith),
  refl,
  refl,
  untouched (λ r. r.id) seed.observed_ids _ s.observed (λ r h. ground arith),
  untouched (λ r. r.id) seed.infrastructure_ids _ s.infrastructure (λ r h. ground arith),
)
