-- ===== src/Groups/Deletion.antt =====
-- What the page of a group shows once the group is deleted: pages/projects/projectMembers.ts and
-- pages/projects/ProjectOverviewPage.tsx over the answers of services/mockRouter.ts.
use everyup.Common.{
  ℕ, String, Bool, true, false, Option, some, none, List, [], ◌∷◌, ◌≡◌, ◌≢◌, refl, sort_by, arith,
  keep, All, All-keep, All-append, map, sym, ◌∙◌, if◌then◌else◌, Bool-cases, inl, inr, eq_iff,
}
use everyup.Demo.Route.Segments.{IsSegment}
use everyup.Demo.Route.Client.{ProjectsCall}
use everyup.Demo.State.{DemoState, Env, Body}
use everyup.Demo.Laws.Groups.{IsCleared, answer, delete_project_lem}
use everyup.Api.Agents.{ConnectedAgent}
use everyup.Api.Hosts.{InfrastructureResource}
use everyup.Api.Observed.{ObservedService}
use everyup.Api.Projects.{is_in}
use everyup.Demo.Reads.Lists.{HostUsage, list_infrastructure, agent_resource, has_host}
use everyup.Demo.Scenario.{
  MockScenario, Seed, scenario_agents, scenario_services, scenario_monitors,
  scenario_observed_services, scenario_infrastructure, is_empty_scenario, agent_view, observed_view,
  resource_view,
}
use everyup.Groups.Members.{
  ProjectSources, sources_for_project, project_members, unsorted_members, summarize_members,
}
use everyup.Status.Metrics.{StatusTone}

not_in : (id : String) (q : Option String) → q ≢ some id → is_in id q ≡ false
not_in id none h = refl
not_in id (some q) h = ground (arith, eq_iff q id)

keep_none :
    {A : Type 0} (get : A → Option String) (id : String) (rows : List A)
    → All (λ r. get r ≢ some id) rows
    → keep (λ r. is_in id (get r)) rows ≡ []
keep_none get id [] h = refl
keep_none get id (r ∷ rs) h = rw (not_in id (get r) h.0) (keep_none get id rs h.1)

no_rows_kept : {A : Type 0} (rows : List A) → keep (λ r. false) rows ≡ []
no_rows_kept [] = refl
no_rows_kept (r ∷ rs) = no_rows_kept rs

abbrev is_failing : MockScenario → Bool
is_failing MockScenario.partial_failure = true
is_failing _ = false

-- What the page of a group takes from the answers of the demo: a source that fails is empty, as the
-- Docker services and the observed services are in the scenario of a partial failure.
abbrev pub shown_sources :
    Seed → ℕ → (String → HostUsage) → MockScenario → DemoState → ProjectSources
shown_sources seed now usage v s = record {
  agents = scenario_agents seed now v s;
  services = if is_failing v then [] else scenario_services seed now v s;
  monitors = scenario_monitors seed now v s;
  observed_services = if is_failing v then [] else scenario_observed_services seed now v s;
  infrastructure = list_infrastructure seed now usage v s;
}

abbrev IsOut : String → Option String → Type 0
IsOut id q = q ≢ some id

all_shown :
    {A B : Type 0} (get : A → Option String) (put : B → Option String) (f : A → B) (id : String)
    (rows : List A)
    → ((r : A) → put (f r) ≡ get r)
    → All (λ r. IsOut id (get r)) rows
    → All (λ r. IsOut id (put r)) (map f rows)
all_shown get put f id [] h k = tt
all_shown get put f id (r ∷ rs) h (n, k) = (λ e. n (sym (h r) ∙ e), all_shown get put f id rs h k)

all_left :
    {A : Type 0} (P : A → Type 0) (b : Bool) (p : A → Bool) (rows : List A)
    → All P rows
    → All P (if b then keep p rows else rows)
all_left P true p rows h = All-keep P p rows h
all_left P false p rows h = h

module _ (seed : Seed) (now : ℕ) (v : MockScenario) (id : String) (s : DemoState)
    (c : IsCleared id s) where
  agent_group : (r : ConnectedAgent) → (agent_view seed now v r).project_id ≡ r.project_id
  unfolding agent_view
  agent_group r = ground arith

  observed_group : (r : ObservedService) → (observed_view seed now v r).project_id ≡ r.project_id
  unfolding observed_view
  observed_group r = ground arith

  resource_group :
      (r : InfrastructureResource) → (resource_view seed now v r).project_id ≡ r.project_id
  unfolding resource_view
  resource_group r = ground arith

  agents-IsOut : All (λ r. IsOut id r.project_id) (scenario_agents seed now v s)
  unfolding scenario_agents
  agents-IsOut =
      all_shown (λ r. r.project_id) (λ r. r.project_id) (agent_view seed now v) id _ agent_group
        (all_left _ (is_empty_scenario v) _ s.agents c.agents)

  monitors-IsOut : All (λ r. IsOut id r.project_id) (scenario_monitors seed now v s)
  unfolding scenario_monitors
  monitors-IsOut = all_left _ (is_empty_scenario v) _ s.monitors c.monitors

  observed-IsOut : All (λ r. IsOut id r.project_id) (scenario_observed_services seed now v s)
  unfolding scenario_observed_services
  observed-IsOut =
      all_shown (λ r. r.project_id) (λ r. r.project_id) (observed_view seed now v) id _
        observed_group (all_left _ (is_empty_scenario v) _ s.observed c.observed)

  shown_observed-IsOut :
      All
        (λ r. IsOut id r.project_id)
        (if is_failing v then [] else scenario_observed_services seed now v s)
  shown_observed-IsOut = elim (Bool-cases (is_failing v)) [
    | inl e ↦ rw e tt
    | inr e ↦ rw e observed-IsOut
  ]

  infrastructure-IsOut :
      (usage : String → HostUsage)
      → All (λ r. IsOut id r.project_id) (list_infrastructure seed now usage v s)
  unfolding list_infrastructure scenario_infrastructure
  infrastructure-IsOut usage =
      All-append _ _ _
        (all_shown (λ r. r.project_id) (λ r. r.project_id) (resource_view seed now v) id _
          resource_group (all_left _ (is_empty_scenario v) _ s.infrastructure c.infrastructure))
        (all_shown (λ a. a.project_id) (λ r. r.project_id) (agent_resource seed now usage) id _
          (λ a. refl) (All-keep _ (has_host seed now) (scenario_agents seed now v s) agents-IsOut))

  no_members :
      (encode : String → String) (show_time : ℕ → String) (usage : String → HostUsage)
      → project_members encode show_time now
          (sources_for_project id (shown_sources seed now usage v s))
        ≡ []
  unfolding project_members unsorted_members sources_for_project sort_by
  no_members encode show_time usage =
      rw
        (
          keep_none (λ r. r.project_id) id (scenario_agents seed now v s) agents-IsOut,
          keep_none (λ r. r.project_id) id (scenario_monitors seed now v s) monitors-IsOut,
          keep_none (λ r. r.project_id) id
              (if is_failing v then [] else scenario_observed_services seed now v s)
              shown_observed-IsOut,
          keep_none (λ r. r.project_id) id (list_infrastructure seed now usage v s)
              (infrastructure-IsOut usage),
          no_rows_kept (if is_failing v then [] else scenario_services seed now v s),
        )
        refl

-- In whatever scenario of the demo, a group that was deleted by the client's request, with an id that
-- is non-empty and free of slashes, has no sources left, hosts of agents included, so that its page
-- would list no member and its summary would say so.
pub delete_project_empties :
    (env : Env) (id : String) (b : Body) (s : DemoState) (seed : Seed) (v : MockScenario)
    (usage : String → HostUsage) (encode : String → String) (show_time : ℕ → String) (now : ℕ)
    → IsSegment id
    → (project_members encode show_time now (
          sources_for_project id
            (shown_sources seed now usage v (answer env (ProjectsCall.delete_project id) b s).0))
        ≡ [])
      × (summarize_members (
            project_members encode show_time now (
              sources_for_project id (
                shown_sources seed now usage v
                  (answer env (ProjectsCall.delete_project id) b s).0)))
          ≡ record { tone = StatusTone.idle; label = "대상 없음" })
unfolding summarize_members
delete_project_empties env id b s seed v usage encode show_time now h =
    let c = (delete_project_lem env id b s h).0 in
    let e =
      no_members seed now v id (answer env (ProjectsCall.delete_project id) b s).0 c encode
        show_time usage in
    (e, rw e refl)
