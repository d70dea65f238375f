-- ===== src/Demo/Server.antt =====
-- One state-changing request, as mockRouter answers it: services/mockRouter.ts.
use everyup.Common.{String}
use everyup.Demo.Route.Mutations.{Method, Mutation, route}
use everyup.Demo.State.{DemoState, Env, Body, Reply}
use everyup.Demo.Handlers.Agents
use everyup.Demo.Handlers.Infrastructure
use everyup.Demo.Handlers.Monitors
use everyup.Demo.Handlers.Observed
use everyup.Demo.Handlers.Projects

unfoldable pub perform : Env → Mutation → Body → DemoState → DemoState × Reply
perform env (Mutation.create_run id) b s = Agents.create_run env id b s
perform env (Mutation.put_profile id) b s = Agents.put_profile id b s
perform env Mutation.create_infrastructure b s = Infrastructure.create env b s
perform env (Mutation.rotate_infrastructure id) b s = Infrastructure.rotate env id s
perform env (Mutation.revoke_infrastructure id) b s = Infrastructure.revoke id s
perform env (Mutation.update_infrastructure id) b s = Infrastructure.update env id b s
perform env (Mutation.delete_infrastructure id) b s = Infrastructure.remove id s
perform env Mutation.create_observed b s = Observed.create env b s
perform env (Mutation.rotate_observed id) b s = Observed.rotate env id s
perform env (Mutation.revoke_observed id) b s = Observed.revoke id s
perform env (Mutation.set_log_filter id) b s = Observed.set_log_filter id b s
perform env (Mutation.set_api_exclusions id) b s = Observed.set_api_exclusions id b s
perform env (Mutation.update_observed id) b s = Observed.update env id b s
perform env (Mutation.delete_observed id) b s = Observed.remove id s
perform env Mutation.create_project b s = Projects.create env b s
perform env (Mutation.assign p kind id) b s = Projects.assign p kind id s
perform env (Mutation.unassign p kind id) b s = Projects.unassign kind id s
perform env (Mutation.update_project id) b s = Projects.update env id b s
perform env (Mutation.delete_project id) b s = Projects.remove id s
perform env Mutation.create_monitor b s = Monitors.create env b s
perform env (Mutation.update_monitor id) b s = Monitors.update id b s
perform env (Mutation.delete_monitor id) b s = Monitors.remove id s
perform env Mutation.create_agent b s = Agents.create env b s
perform env (Mutation.join_code id) b s = Agents.renew_join_code env s
perform env (Mutation.rotate_agent_key id) b s = Agents.rotate_key env s
perform env (Mutation.delete_agent id) b s = Agents.remove id s
perform env (Mutation.delete_service id key) b s = Agents.remove_service env id key s
perform env (Mutation.echo_log_filter id key) b s = Agents.echo_log_filter b s
perform env Mutation.ignored b s = (s, Reply.null)

-- A request with a method other than GET.
unfoldable pub mock_router : Env → Method → String → Body → DemoState → DemoState × Reply
unfolding perform
mock_router env method endpoint body s = perform env (route method endpoint) body s
