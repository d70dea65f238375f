-- ===== src/Demo/Laws/Identity/Requests.antt =====
-- Distinct ids over every state-changing request of the demo server.
use everyup.Common.{String, none, ◌≡◌}
use everyup.Demo.Route.Mutations.{Method, Mutation, route}
use everyup.Demo.State.{DemoState, Env, Body, body_id}
use everyup.Demo.Handlers.Agents
use everyup.Demo.Server.{perform, mock_router}
use everyup.Demo.Laws.Identity.{HasDistinctIds, IsFresh}
use everyup.Demo.Laws.Identity.Infrastructure as I
use everyup.Demo.Laws.Identity.Observed as O
use everyup.Demo.Laws.Identity.Members as M

perform-HasDistinctIds :
    (env : Env) (m : Mutation) (b : Body) (s : DemoState)
    → HasDistinctIds s
    → IsFresh env s
    → body_id b ≡ none
    → HasDistinctIds (perform env m b s).0
unfolding perform Agents.renew_join_code Agents.rotate_key
perform-HasDistinctIds env (Mutation.create_run id) b s d f n = M.agents_create_run env s d id b
perform-HasDistinctIds env (Mutation.put_profile id) b s d f n = M.agents_put_profile env s d id b
perform-HasDistinctIds env Mutation.create_infrastructure b s d f n =
    I.infrastructure_create env s d b f
perform-HasDistinctIds env (Mutation.rotate_infrastructure id) b s d f n =
    I.infrastructure_rotate env s d id
perform-HasDistinctIds env (Mutation.revoke_infrastructure id) b s d f n =
    I.infrastructure_revoke env s d id
perform-HasDistinctIds env (Mutation.update_infrastructure id) b s d f n =
    I.infrastructure_update env s d id b n
perform-HasDistinctIds env (Mutation.delete_infrastructure id) b s d f n =
    I.infrastructure_remove env s d id
perform-HasDistinctIds env Mutation.create_observed b s d f n = O.observed_create env s d b f
perform-HasDistinctIds env (Mutation.rotate_observed id) b s d f n = O.observed_rotate env s d id
perform-HasDistinctIds env (Mutation.revoke_observed id) b s d f n = O.observed_revoke env s d id
perform-HasDistinctIds env (Mutation.set_log_filter id) b s d f n =
    O.observed_set_log_filter env s d id b
perform-HasDistinctIds env (Mutation.set_api_exclusions id) b s d f n =
    O.observed_set_api_exclusions env s d id b
perform-HasDistinctIds env (Mutation.update_observed id) b s d f n =
    O.observed_update env s d id b n
perform-HasDistinctIds env (Mutation.delete_observed id) b s d f n = O.observed_remove env s d id
perform-HasDistinctIds env Mutation.create_project b s d f n = M.projects_create env s d b f
perform-HasDistinctIds env (Mutation.assign p k id) b s d f n = M.projects_assign env s d p k id
perform-HasDistinctIds env (Mutation.unassign p k id) b s d f n = M.projects_unassign env s d k id
perform-HasDistinctIds env (Mutation.update_project id) b s d f n = M.projects_update env s d id b n
perform-HasDistinctIds env (Mutation.delete_project id) b s d f n = M.projects_remove env s d id
perform-HasDistinctIds env Mutation.create_monitor b s d f n = M.monitors_create env s d b f
perform-HasDistinctIds env (Mutation.update_monitor id) b s d f n = M.monitors_update env s d id b n
perform-HasDistinctIds env (Mutation.delete_monitor id) b s d f n = M.monitors_remove env s d id
perform-HasDistinctIds env Mutation.create_agent b s d f n = M.agents_create env s d b f
perform-HasDistinctIds env (Mutation.delete_agent id) b s d f n = M.agents_remove env s d id
perform-HasDistinctIds env (Mutation.delete_service id key) b s d f n =
    M.agents_remove_service env s d id key
perform-HasDistinctIds env (Mutation.echo_log_filter id key) b s d f n =
    M.agents_echo_log_filter env s d b
perform-HasDistinctIds env (Mutation.join_code id) b s d f n = d
perform-HasDistinctIds env (Mutation.rotate_agent_key id) b s d f n = d
perform-HasDistinctIds env Mutation.ignored b s d f n = d

-- Whatever request other than GET is sent, with any body that has no `id`, the ids of each kind of
-- row stay distinct, provided no row of the kind was made in the same millisecond. A body with an
-- `id` would be copied into the row that a PUT names.
pub mock_router-HasDistinctIds :
    (env : Env) (method : Method) (endpoint : String) (b : Body) (s : DemoState)
    → HasDistinctIds s
    → IsFresh env s
    → body_id b ≡ none
    → HasDistinctIds (mock_router env method endpoint b s).0
unfolding mock_router
mock_router-HasDistinctIds env method endpoint b s =
    perform-HasDistinctIds env (route method endpoint) b s
