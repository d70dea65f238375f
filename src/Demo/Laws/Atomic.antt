-- ===== src/Demo/Laws/Atomic.antt =====
-- A request that the demo server refuses changes nothing: services/mockRouter.ts.
use everyup.Common.{String, ◌≡◌, arith}
use everyup.Demo.Route.Mutations.{Method, Mutation, route}
use everyup.Demo.State.{DemoState, Env, Body, Reply, Failure}
use everyup.Demo.Handlers.Agents
use everyup.Demo.Handlers.Infrastructure
use everyup.Demo.Handlers.Monitors
use everyup.Demo.Handlers.Observed
use everyup.Demo.Handlers.Projects
use everyup.Demo.Server.{perform, mock_router}

perform_thrown :
    (env : Env) (m : Mutation) (b : Body) (s : DemoState) (e : Failure)
    → (perform env m b s).1 ≡ Reply.thrown e
    → (perform env m b s).0 ≡ s
unfolding perform Agents.create_run Agents.put_profile Infrastructure.create Infrastructure.rotate
    Infrastructure.revoke Infrastructure.update Infrastructure.remove Observed.create
    Observed.rotate Observed.revoke Observed.update Observed.remove Observed.set_log_filter
    Observed.set_api_exclusions Projects.create Projects.assign Projects.unassign Projects.update
    Projects.remove Monitors.create Monitors.update Monitors.remove Agents.create
    Agents.renew_join_code Agents.rotate_key Agents.remove Agents.remove_service
    Agents.echo_log_filter
perform_thrown env (Mutation.create_run id) b s e h = ground arith
perform_thrown env _ b s e h = ground arith

-- A request that ends in an exception leaves every fixture as it was, whatever the handler.
pub mock_router_thrown :
    (env : Env) (method : Method) (endpoint : String) (b : Body) (s : DemoState) (e : Failure)
    → (mock_router env method endpoint b s).1 ≡ Reply.thrown e
    → (mock_router env method endpoint b s).0 ≡ s
unfolding mock_router
mock_router_thrown env method endpoint b s e h = perform_thrown env (route method endpoint) b s e h
