-- ===== src/Demo/Handlers/Projects.antt =====
-- POST, PUT and DELETE under /projects: groups and their members, services/mockRouter.ts.
use everyup.Common.{
  String, Bool, Option, some, none, [], ◌∷◌, ◌++◌, map, if◌then◌else◌, ◌==◌, ◌+++◌, decimal, find,
  update_first, remove_first, or_else,
}
use everyup.Api.Agents.{ConnectedAgent}
use everyup.Api.Hosts.{InfrastructureResource}
use everyup.Api.Monitors.{UptimeMonitor}
use everyup.Api.Observed.{ObservedService}
use everyup.Api.Projects.{Project}
use everyup.Demo.Route.Mutations.{MemberKind}
use everyup.Demo.State.{DemoState, Env, Body, Payload, parse, parse_object, refusal, Reply, Failure}

abbrev pub is_project : String → Project → Bool
is_project id r = r.id == id

abbrev pub is_agent : String → ConnectedAgent → Bool
is_agent id r = r.id == id

abbrev pub is_monitor : String → UptimeMonitor → Bool
is_monitor id r = r.id == id

new_project : Env → Payload → Project
new_project env p = record {
  id = "project_mock_" +++ decimal env.now;
  name = or_else p.name "새 Project";
  description = p.description;
  agent_count = 0;
  monitor_count = 0;
  observed_service_count = 0;
  infrastructure_resource_count = 0;
  created_at = env.now;
  updated_at = env.now;
}

unfoldable pub create : Env → Body → DemoState → DemoState × Reply
unfolding new_project
create env body s = elim (parse_object body) [
  | none ↦ (s, Reply.thrown (refusal body))
  | some p ↦ (
    record s { projects = s.projects ++ new_project env p ∷ [] },
    Reply.project (new_project env p),
  )
]

abbrev pub place_agent : Option String → ConnectedAgent → ConnectedAgent
place_agent p r = record r { project_id = p }

abbrev pub place_monitor : Option String → UptimeMonitor → UptimeMonitor
place_monitor p r = record r { project_id = p }

-- `none` is `delete row.projectId`.
place : MemberKind → String → Option String → DemoState → DemoState
place MemberKind.agents id p s = record s {
  agents = update_first (is_agent id) (place_agent p) s.agents;
}
place MemberKind.monitors id p s = record s {
  monitors = update_first (is_monitor id) (place_monitor p) s.monitors;
}

-- PUT /projects/:projectId/(agents|monitors)/:memberId
unfoldable pub assign : String → MemberKind → String → DemoState → DemoState × Reply
unfolding place
assign project_id kind id s = (place kind id (some project_id) s, Reply.undefined)

-- DELETE of the same path takes the member out of whatever group it is in.
unfoldable pub unassign : MemberKind → String → DemoState → DemoState × Reply
unfolding place
unassign kind id s = (place kind id none s, Reply.undefined)

abbrev assigned : Env → Payload → Project → Project
assigned env p r = record r {
  id = or_else p.id r.id;
  name = or_else p.name r.name;
  description = elim p.description [ none ↦ r.description | some d ↦ some d ];
  updated_at = env.now;
}

-- The body is parsed only if the project is there.
unfoldable pub update : Env → String → Body → DemoState → DemoState × Reply
update env id body s = elim (find (is_project id) s.projects) [
  | none ↦ (s, Reply.undefined)
  | some r ↦ elim (parse body) [
    | none ↦ (s, Reply.thrown Failure.syntax_error)
    | some p ↦ (
      record s { projects = update_first (is_project id) (assigned env p) s.projects },
      Reply.project (assigned env p r),
    )
  ]
]

-- `if (row.projectId === id) delete row.projectId`.
abbrev pub leave : String → Option String → Option String
leave id none = none
leave id (some p) = if p == id then none else some p

abbrev pub agent_leaves : String → ConnectedAgent → ConnectedAgent
agent_leaves id r = record r { project_id = leave id r.project_id }

abbrev pub monitor_leaves : String → UptimeMonitor → UptimeMonitor
monitor_leaves id r = record r { project_id = leave id r.project_id }

abbrev pub service_leaves : String → ObservedService → ObservedService
service_leaves id r = record r { project_id = leave id r.project_id }

abbrev pub resource_leaves : String → InfrastructureResource → InfrastructureResource
resource_leaves id r = record r { project_id = leave id r.project_id }

unfoldable pub remove : String → DemoState → DemoState × Reply
remove id s = (
  record s {
    projects = remove_first (is_project id) s.projects;
    agents = map (agent_leaves id) s.agents;
    monitors = map (monitor_leaves id) s.monitors;
    observed = map (service_leaves id) s.observed;
    infrastructure = map (resource_leaves id) s.infrastructure;
  },
  Reply.undefined,
)
