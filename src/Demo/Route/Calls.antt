-- ===== src/Demo/Route/Calls.antt =====
-- The state-changing calls of all the APIs of the client, and the handlers that answer them:
-- services/api and services/mockRouter.ts.
use everyup.Common.{String, ◌≡◌}
use everyup.Demo.Route.Mutations.{Mutation, route}
use everyup.Demo.Route.Client.{
  Sent, AgentsCall, agents_api, ProjectsCall, projects_api, HostsCall, hosts_api, ObservedCall,
  observed_api, MonitorsCall, services_api,
}
use everyup.Demo.Route.Reaches.{
  AgentsFits, agents_target, ProjectsFits, projects_target, HostsFits, hosts_target, ObservedFits,
  observed_target, ServicesFits, services_target, route-agents_api, route-projects_api,
  route-hosts_api, route-observed_api, route-services_api,
}

pub data ApiCall : Type 0 where
  agents : AgentsCall → ApiCall
  projects : ProjectsCall → ApiCall
  hosts : HostsCall → ApiCall
  observed : ObservedCall → ApiCall
  monitors : MonitorsCall → ApiCall

abbrev pub api_request : (String → String) → ApiCall → Sent
api_request encode (agents c) = agents_api encode c
api_request encode (projects c) = projects_api c
api_request encode (hosts c) = hosts_api c
api_request encode (observed c) = observed_api c
api_request encode (monitors c) = services_api c

-- The handler that a call means.
abbrev pub api_target : (String → String) → ApiCall → Mutation
api_target encode (agents c) = agents_target encode c
api_target encode (projects c) = projects_target c
api_target encode (hosts c) = hosts_target c
api_target encode (observed c) = observed_target c
api_target encode (monitors c) = services_target c

abbrev pub ApiFits : (String → String) → ApiCall → Type 0
ApiFits encode (agents c) = AgentsFits encode c
ApiFits encode (projects c) = ProjectsFits c
ApiFits encode (hosts c) = HostsFits c
ApiFits encode (observed c) = ObservedFits c
ApiFits encode (monitors c) = ServicesFits c

-- Each state-changing call of the five APIs, with ids, and a key once it is encoded, that are
-- non-empty and free of slashes, is answered by the handler meant for it, which captures exactly
-- those ids.
pub route-api_request :
    (encode : String → String) (c : ApiCall)
    → ApiFits encode c
    → route (api_request encode c).method (api_request encode c).endpoint ≡ api_target encode c
route-api_request encode (agents c) h = route-agents_api encode c h
route-api_request encode (projects c) h = route-projects_api c h
route-api_request encode (hosts c) h = route-hosts_api c h
route-api_request encode (observed c) h = route-observed_api c h
route-api_request encode (monitors c) h = route-services_api c h
