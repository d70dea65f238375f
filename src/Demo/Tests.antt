-- ===== src/Demo/Tests.antt =====
-- Runs of the demo server on the sample rows.
use everyup.Common.{true, some, [], ◌∷◌, ◌≡◌, refl, decimal, map}
use everyup.Api.Agents.{AgentProfileKind, AgentCollectionCapability}
use everyup.Demo.Profiles.{normalize_profile, has}
use everyup.Demo.Route.Client.{AgentsCall, agents_api, ProjectsCall}
use everyup.Demo.Route.Mutations.{Method, Mutation, route, route_parts}
use everyup.Demo.Route.Segments.{split_slash}
use everyup.Demo.Samples.{custom_logs, demo_rows, shop, at_noon}
use everyup.Demo.State.{Body, DemoState, Failure, Reply, empty_payload}
use everyup.Demo.Server.{mock_router}
use everyup.Demo.Handlers.Agents
use everyup.Demo.Handlers.Projects
use everyup.Demo.Laws.Atomic.{mock_router_thrown}
use everyup.Demo.Laws.Groups.{answer, IsMoved, assign_agent-IsMoved}
use everyup.Demo.Laws.Identity.{HasDistinctIds, IsFresh}
use everyup.Demo.Laws.Identity.Requests.{mock_router-HasDistinctIds}
use everyup.Demo.Route.Calls.{ApiCall, route-api_request}
use everyup.Demo.Laws.Profiles.{normalize_profile_lem, as_partial}

mock_router_thrown_example :
    (mock_router at_noon Method.put "/agents/zz/profile" Body.absent demo_rows).0 ≡ demo_rows
unfolding mock_router route route_parts split_slash Agents.put_profile
mock_router_thrown_example =
    mock_router_thrown at_noon Method.put "/agents/zz/profile" Body.absent demo_rows
      Failure.not_found refl

rows-HasDistinctIds : HasDistinctIds demo_rows
rows-HasDistinctIds = record {
  agents = (refl, (refl, tt));
  monitors = (refl, tt);
  projects = (refl, tt);
  observed = (refl, tt);
  infrastructure = (refl, tt);
}

noon-IsFresh : IsFresh at_noon demo_rows
unfolding decimal
noon-IsFresh = record {
  agents = refl;
  monitors = refl;
  projects = refl;
  observed = refl;
  infrastructure = refl;
}

abbrev renames : Body
renames = Body.json (record empty_payload { name = some "Shop 2" })

mock_router-HasDistinctIds_example :
    HasDistinctIds (mock_router at_noon Method.put "/projects/p1" renames demo_rows).0
mock_router-HasDistinctIds_example =
    mock_router-HasDistinctIds at_noon Method.put "/projects/p1" renames demo_rows
      rows-HasDistinctIds noon-IsFresh refl

assign_agent-IsMoved_example :
    IsMoved "p2" "a1" demo_rows
      (answer at_noon (ProjectsCall.assign_agent "p2" "a1") Body.absent demo_rows).0
assign_agent-IsMoved_example =
    assign_agent-IsMoved at_noon "p2" "a1" Body.absent demo_rows (refl, (refl, (refl, tt)))
      (refl, (refl, (refl, tt)))

route-api_request_example :
    route
      (agents_api (λ s. s) (AgentsCall.set_agent_service_log_filter "a1" "nginx" [])).method
      (agents_api (λ s. s) (AgentsCall.set_agent_service_log_filter "a1" "nginx" [])).endpoint
    ≡ Mutation.echo_log_filter "a1" "nginx"
route-api_request_example =
    route-api_request (λ s. s)
      (ApiCall.agents (AgentsCall.set_agent_service_log_filter "a1" "nginx" []))
      ((refl, (refl, (refl, tt))), (refl, (refl, (refl, (refl, (refl, (refl, tt)))))))

normalize_profile_lem_example :
    (has
        (normalize_profile (
          some (record {
            kind = some AgentProfileKind.custom;
            capabilities = some (AgentCollectionCapability.api ∷ []);
          }))).capabilities
        AgentCollectionCapability.uptime
      ≡ true)
    × (normalize_profile (some (as_partial (normalize_profile (some (as_partial custom_logs)))))
        ≡ normalize_profile (some (as_partial custom_logs)))
normalize_profile_lem_example =
    normalize_profile_lem (AgentCollectionCapability.api ∷ []) AgentCollectionCapability.uptime
      (some (as_partial custom_logs))

abbrev names_other : Body
names_other = Body.json (record empty_payload { id = some "p2" })

abbrev two_groups : DemoState
two_groups = record demo_rows { projects = shop ∷ (record shop { id = "p2" }) ∷ [] }

-- A group that is given the id of another by the body of a PUT.
project_id_copied :
    map (λ r. r.id) (Projects.update at_noon "p1" names_other two_groups).0.projects
    ≡ "p2" ∷ "p2" ∷ []
unfolding Projects.update
project_id_copied = refl

-- A run without keys is refused.
run_without_keys :
    (Agents.create_run at_noon "a1" Body.absent demo_rows).1 ≡ Reply.thrown Failure.type_error
unfolding Agents.create_run
run_without_keys = refl
