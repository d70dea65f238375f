-- ===== src/Demo/Route/Client.antt =====
-- The requests by which the client changes agents, groups, monitors, resources and observed
-- services: services/api/*.ts. Their texts are template literals, and `encode` is the platform's
-- encodeURIComponent.
use everyup.Common.{String, List, ◌+++◌}
use everyup.Api.Agents.{AgentProfile}
use everyup.Api.Hosts.{InfrastructureResourceInput}
use everyup.Api.Observed.{ObservedServiceInput}
use everyup.Api.Projects.{ProjectInput}
use everyup.Api.Monitors.{UptimeMonitorInput}
use everyup.Demo.Route.Mutations.{Method}

-- The endpoint and the method that `request` is called with.
pub record Sent : Type 0 where
  pub method : Method
  pub endpoint : String

abbrev send : Method → String → Sent
send m e = record { method = m; endpoint = e }

pub data AgentsCall : Type 0 where
  update_agent_profile : (id : String) → AgentProfile → AgentsCall
  create_agent : (name : String) → AgentProfile → AgentsCall
  create_agent_join_code delete_agent rotate_agent_key : (agent_id : String) → AgentsCall
  set_agent_service_log_filter : (agent_id key : String) → List String → AgentsCall

unfoldable pub agents_api : (String → String) → AgentsCall → Sent
agents_api encode (update_agent_profile id profile) =
    send Method.put ("/agents/" +++ id +++ "/profile")
agents_api encode (create_agent name profile) = send Method.post "/agents"
agents_api encode (create_agent_join_code id) =
    send Method.post ("/agents/" +++ id +++ "/join-code")
agents_api encode (delete_agent id) = send Method.delete ("/agents/" +++ id)
agents_api encode (rotate_agent_key id) = send Method.post ("/agents/" +++ id +++ "/rotate-key")
agents_api encode (set_agent_service_log_filter id key levels) =
    send Method.put ("/agents/" +++ id +++ "/services/" +++ encode key +++ "/log-filter")

pub data ProjectsCall : Type 0 where
  create_project : ProjectInput → ProjectsCall
  update_project : (id : String) → ProjectInput → ProjectsCall
  delete_project : (id : String) → ProjectsCall
  assign_agent unassign_agent : (project_id agent_id : String) → ProjectsCall
  assign_monitor unassign_monitor : (project_id monitor_id : String) → ProjectsCall

unfoldable pub projects_api : ProjectsCall → Sent
projects_api (create_project input) = send Method.post "/projects"
projects_api (update_project id input) = send Method.put ("/projects/" +++ id)
projects_api (delete_project id) = send Method.delete ("/projects/" +++ id)
projects_api (assign_agent project agent) =
    send Method.put ("/projects/" +++ project +++ "/agents/" +++ agent)
projects_api (unassign_agent project agent) =
    send Method.delete ("/projects/" +++ project +++ "/agents/" +++ agent)
projects_api (assign_monitor project monitor) =
    send Method.put ("/projects/" +++ project +++ "/monitors/" +++ monitor)
projects_api (unassign_monitor project monitor) =
    send Method.delete ("/projects/" +++ project +++ "/monitors/" +++ monitor)

pub data HostsCall : Type 0 where
  create_resource : InfrastructureResourceInput → HostsCall
  update_resource : (id : String) → InfrastructureResourceInput → HostsCall
  rotate_resource_key revoke_resource_key delete_resource : (id : String) → HostsCall

unfoldable pub hosts_api : HostsCall → Sent
hosts_api (create_resource input) = send Method.post "/infrastructure-resources"
hosts_api (update_resource id input) = send Method.put ("/infrastructure-resources/" +++ id)
hosts_api (rotate_resource_key id) =
    send Method.post ("/infrastructure-resources/" +++ id +++ "/rotate-key")
hosts_api (revoke_resource_key id) =
    send Method.post ("/infrastructure-resources/" +++ id +++ "/revoke-key")
hosts_api (delete_resource id) = send Method.delete ("/infrastructure-resources/" +++ id)

pub data ObservedCall : Type 0 where
  create_service : ObservedServiceInput → ObservedCall
  update_service : (id : String) → ObservedServiceInput → ObservedCall
  delete_service rotate_service_key revoke_service_key : (id : String) → ObservedCall
  set_service_log_filter set_service_api_exclusions : (id : String) → List String → ObservedCall

unfoldable pub observed_api : ObservedCall → Sent
observed_api (create_service input) = send Method.post "/observed-services"
observed_api (update_service id input) = send Method.put ("/observed-services/" +++ id)
observed_api (delete_service id) = send Method.delete ("/observed-services/" +++ id)
observed_api (rotate_service_key id) =
    send Method.post ("/observed-services/" +++ id +++ "/rotate-key")
observed_api (revoke_service_key id) =
    send Method.post ("/observed-services/" +++ id +++ "/revoke-key")
observed_api (set_service_log_filter id levels) =
    send Method.put ("/observed-services/" +++ id +++ "/log-filter")
observed_api (set_service_api_exclusions id paths) =
    send Method.put ("/observed-services/" +++ id +++ "/api-exclusions")

pub data MonitorsCall : Type 0 where
  create_monitor : UptimeMonitorInput → MonitorsCall
  update_monitor : (id : String) → UptimeMonitorInput → MonitorsCall
  delete_monitor : (id : String) → MonitorsCall

unfoldable pub services_api : MonitorsCall → Sent
services_api (create_monitor input) = send Method.post "/services"
services_api (update_monitor id input) = send Method.put ("/services/" +++ id)
services_api (delete_monitor id) = send Method.delete ("/services/" +++ id)
