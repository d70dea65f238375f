-- ===== src/Demo/Route/Reaches.antt =====
-- Every state-changing request of the client reaches the handler that is meant for it.
use everyup.Common.{String, ◌≡◌, refl, ◌+++◌, arith}
use everyup.Demo.Route.Segments.{IsSegment, split_slash, split_slash-+++, split_slash_whole}
use everyup.Demo.Route.Mutations.{Mutation, route, route_parts, MemberKind}
use everyup.Demo.Route.Client.{
  Sent, AgentsCall, agents_api, ProjectsCall, projects_api, HostsCall, hosts_api, ObservedCall,
  observed_api, MonitorsCall, services_api,
}

-- The handler that each call of the agents API means.
abbrev pub agents_target : (String → String) → AgentsCall → Mutation
agents_target encode (AgentsCall.update_agent_profile id profile) = Mutation.put_profile id
agents_target encode (AgentsCall.create_agent name profile) = Mutation.create_agent
agents_target encode (AgentsCall.create_agent_join_code id) = Mutation.join_code id
agents_target encode (AgentsCall.delete_agent id) = Mutation.delete_agent id
agents_target encode (AgentsCall.rotate_agent_key id) = Mutation.rotate_agent_key id
agents_target encode (AgentsCall.set_agent_service_log_filter id key levels) =
    Mutation.echo_log_filter id (encode key)

-- The ids that a call puts into its endpoint are segments.
abbrev pub AgentsFits : (String → String) → AgentsCall → Type 0
AgentsFits encode (AgentsCall.update_agent_profile id profile) = IsSegment id
AgentsFits encode (AgentsCall.create_agent name profile) = Unit
AgentsFits encode (AgentsCall.create_agent_join_code id) = IsSegment id
AgentsFits encode (AgentsCall.delete_agent id) = IsSegment id
AgentsFits encode (AgentsCall.rotate_agent_key id) = IsSegment id
AgentsFits encode (AgentsCall.set_agent_service_log_filter id key levels) =
    IsSegment id × IsSegment (encode key)

abbrev pub projects_target : ProjectsCall → Mutation
projects_target (ProjectsCall.create_project input) = Mutation.create_project
projects_target (ProjectsCall.update_project id input) = Mutation.update_project id
projects_target (ProjectsCall.delete_project id) = Mutation.delete_project id
projects_target (ProjectsCall.assign_agent p m) = Mutation.assign p MemberKind.agents m
projects_target (ProjectsCall.unassign_agent p m) = Mutation.unassign p MemberKind.agents m
projects_target (ProjectsCall.assign_monitor p m) = Mutation.assign p MemberKind.monitors m
projects_target (ProjectsCall.unassign_monitor p m) = Mutation.unassign p MemberKind.monitors m

abbrev pub ProjectsFits : ProjectsCall → Type 0
ProjectsFits (ProjectsCall.create_project input) = Unit
ProjectsFits (ProjectsCall.update_project id input) = IsSegment id
ProjectsFits (ProjectsCall.delete_project id) = IsSegment id
ProjectsFits (ProjectsCall.assign_agent p m) = IsSegment p × IsSegment m
ProjectsFits (ProjectsCall.unassign_agent p m) = IsSegment p × IsSegment m
ProjectsFits (ProjectsCall.assign_monitor p m) = IsSegment p × IsSegment m
ProjectsFits (ProjectsCall.unassign_monitor p m) = IsSegment p × IsSegment m

abbrev pub hosts_target : HostsCall → Mutation
hosts_target (HostsCall.create_resource input) = Mutation.create_infrastructure
hosts_target (HostsCall.update_resource id input) = Mutation.update_infrastructure id
hosts_target (HostsCall.rotate_resource_key id) = Mutation.rotate_infrastructure id
hosts_target (HostsCall.revoke_resource_key id) = Mutation.revoke_infrastructure id
hosts_target (HostsCall.delete_resource id) = Mutation.delete_infrastructure id

abbrev pub HostsFits : HostsCall → Type 0
HostsFits (HostsCall.create_resource input) = Unit
HostsFits (HostsCall.update_resource id input) = IsSegment id
HostsFits (HostsCall.rotate_resource_key id) = IsSegment id
HostsFits (HostsCall.revoke_resource_key id) = IsSegment id
HostsFits (HostsCall.delete_resource id) = IsSegment id

abbrev pub observed_target : ObservedCall → Mutation
observed_target (ObservedCall.create_service input) = Mutation.create_observed
observed_target (ObservedCall.update_service id input) = Mutation.update_observed id
observed_target (ObservedCall.delete_service id) = Mutation.delete_observed id
observed_target (ObservedCall.rotate_service_key id) = Mutation.rotate_observed id
observed_target (ObservedCall.revoke_service_key id) = Mutation.revoke_observed id
observed_target (ObservedCall.set_service_log_filter id levels) = Mutation.set_log_filter id
observed_target (ObservedCall.set_service_api_exclusions id ps) = Mutation.set_api_exclusions id

abbrev pub ObservedFits : ObservedCall → Type 0
ObservedFits (ObservedCall.create_service input) = Unit
ObservedFits (ObservedCall.update_service id input) = IsSegment id
ObservedFits (ObservedCall.delete_service id) = IsSegment id
ObservedFits (ObservedCall.rotate_service_key id) = IsSegment id
ObservedFits (ObservedCall.revoke_service_key id) = IsSegment id
ObservedFits (ObservedCall.set_service_log_filter id levels) = IsSegment id
ObservedFits (ObservedCall.set_service_api_exclusions id ps) = IsSegment id

abbrev pub services_target : MonitorsCall → Mutation
services_target (MonitorsCall.create_monitor input) = Mutation.create_monitor
services_target (MonitorsCall.update_monitor id input) = Mutation.update_monitor id
services_target (MonitorsCall.delete_monitor id) = Mutation.delete_monitor id

abbrev pub ServicesFits : MonitorsCall → Type 0
ServicesFits (MonitorsCall.create_monitor input) = Unit
ServicesFits (MonitorsCall.update_monitor id input) = IsSegment id
ServicesFits (MonitorsCall.delete_monitor id) = IsSegment id

abbrev arrives : Sent → Mutation
arrives s = route s.method s.endpoint

-- Each state-changing call of the agents API, with ids, and a key once it is encoded, that are
-- non-empty and free of slashes, is answered by the handler meant for it, which captures exactly those ids.
pub route-agents_api :
    (encode : String → String) (c : AgentsCall)
    → AgentsFits encode c
    → arrives (agents_api encode c) ≡ agents_target encode c
unfolding route route_parts split_slash agents_api
route-agents_api encode (AgentsCall.update_agent_profile id profile) h =
    rw (split_slash-+++ id "profile" h.1) (ground arith)
route-agents_api encode (AgentsCall.create_agent name profile) h = refl
route-agents_api encode (AgentsCall.create_agent_join_code id) h =
    rw (split_slash-+++ id "join-code" h.1) (ground arith)
route-agents_api encode (AgentsCall.delete_agent id) h =
    rw (split_slash_whole id h.1) (ground arith)
route-agents_api encode (AgentsCall.rotate_agent_key id) h =
    rw (split_slash-+++ id "rotate-key" h.1) (ground arith)
route-agents_api encode (AgentsCall.set_agent_service_log_filter id key levels) (h, k) =
    rw
      (
        split_slash-+++ id ("services/" +++ encode key +++ "/log-filter") h.1,
        split_slash-+++ (encode key) "log-filter" k.1,
      )
      (ground arith)

-- Each state-changing call of the projects API, with ids that are non-empty and free of slashes, is
-- answered by the handler meant for it, which captures exactly those ids.
pub route-projects_api :
    (c : ProjectsCall) → ProjectsFits c → arrives (projects_api c) ≡ projects_target c
unfolding route route_parts split_slash projects_api
route-projects_api (ProjectsCall.create_project input) h = refl
route-projects_api (ProjectsCall.update_project id input) h =
    rw (split_slash_whole id h.1) (ground arith)
route-projects_api (ProjectsCall.delete_project id) h = rw (split_slash_whole id h.1) (ground arith)
route-projects_api (ProjectsCall.assign_agent p m) (h, k) =
    rw (split_slash-+++ p ("agents/" +++ m) h.1, split_slash_whole m k.1) (ground arith)
route-projects_api (ProjectsCall.unassign_agent p m) (h, k) =
    rw (split_slash-+++ p ("agents/" +++ m) h.1, split_slash_whole m k.1) (ground arith)
route-projects_api (ProjectsCall.assign_monitor p m) (h, k) =
    rw (split_slash-+++ p ("monitors/" +++ m) h.1, split_slash_whole m k.1) (ground arith)
route-projects_api (ProjectsCall.unassign_monitor p m) (h, k) =
    rw (split_slash-+++ p ("monitors/" +++ m) h.1, split_slash_whole m k.1) (ground arith)

-- Each state-changing call of the hosts API, with an id that is non-empty and free of slashes, is
-- answered by the handler meant for it, which captures exactly that id.
pub route-hosts_api : (c : HostsCall) → HostsFits c → arrives (hosts_api c) ≡ hosts_target c
unfolding route route_parts split_slash hosts_api
route-hosts_api (HostsCall.create_resource input) h = refl
route-hosts_api (HostsCall.update_resource id input) h =
    rw (split_slash_whole id h.1) (ground arith)
route-hosts_api (HostsCall.rotate_resource_key id) h =
    rw (split_slash-+++ id "rotate-key" h.1) (ground arith)
route-hosts_api (HostsCall.revoke_resource_key id) h =
    rw (split_slash-+++ id "revoke-key" h.1) (ground arith)
route-hosts_api (HostsCall.delete_resource id) h = rw (split_slash_whole id h.1) (ground arith)

-- Each state-changing call of the observed-services API, with an id that is non-empty and free of
-- slashes, is answered by the handler meant for it, which captures exactly that id.
pub route-observed_api :
    (c : ObservedCall) → ObservedFits c → arrives (observed_api c) ≡ observed_target c
unfolding route route_parts split_slash observed_api
route-observed_api (ObservedCall.create_service input) h = refl
route-observed_api (ObservedCall.update_service id input) h =
    rw (split_slash_whole id h.1) (ground arith)
route-observed_api (ObservedCall.delete_service id) h = rw (split_slash_whole id h.1) (ground arith)
route-observed_api (ObservedCall.rotate_service_key id) h =
    rw (split_slash-+++ id "rotate-key" h.1) (ground arith)
route-observed_api (ObservedCall.revoke_service_key id) h =
    rw (split_slash-+++ id "revoke-key" h.1) (ground arith)
route-observed_api (ObservedCall.set_service_log_filter id levels) h =
    rw (split_slash-+++ id "log-filter" h.1) (ground arith)
route-observed_api (ObservedCall.set_service_api_exclusions id ps) h =
    rw (split_slash-+++ id "api-exclusions" h.1) (ground arith)

-- Each state-changing call of the uptime-monitors API, with an id that is non-empty and free of
-- slashes, is answered by the handler meant for it, which captures exactly that id.
pub route-services_api :
    (c : MonitorsCall) → ServicesFits c → arrives (services_api c) ≡ services_target c
unfolding route route_parts split_slash services_api
route-services_api (MonitorsCall.create_monitor input) h = refl
route-services_api (MonitorsCall.update_monitor id input) h =
    rw (split_slash_whole id h.1) (ground arith)
route-services_api (MonitorsCall.delete_monitor id) h = rw (split_slash_whole id h.1) (ground arith)
