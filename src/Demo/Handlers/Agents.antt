-- ===== src/Demo/Handlers/Agents.antt =====
-- POST, PUT and DELETE under /agents: services/mockRouter.ts.
use everyup.Common.{
  ℕ, ◌+◌, ◌*◌, String, Bool, false, Option, some, none, List, [], ◌∷◌, ◌++◌, ◌&&◌, map,
  if◌then◌else◌, ◌==◌, ◌+++◌, decimal, find, update_first, remove_first, or_else,
}
use everyup.Api.Agents.{ConnectedAgent, AgentServiceFlat, AgentProfile, AgentJoinCode}
use everyup.Demo.Profiles.{normalize_profile}
use everyup.Demo.State.{
  DemoState, Env, Body, Payload, parse, parse_object, refusal, Reply, Failure, random_hex, map_set,
  set_add, InstrumentationRun, RunTarget, RunStatus,
}
use everyup.Demo.Handlers.Projects.{is_agent}

abbrev is_service_of : String → String → AgentServiceFlat → Bool
is_service_of agent_id key r = (r.agent_id == agent_id) && (r.key == key)

run_target : List AgentServiceFlat → String → String → RunTarget
run_target rows agent_id key = elim (find (is_service_of agent_id key) rows) [
  | none ↦ record { key = key; name = key; runtime = "node" }
  | some r ↦ record { key = key; name = r.name; runtime = or_else r.runtime "node" }
]

new_run : Env → String → Payload → List String → DemoState → InstrumentationRun
unfolding run_target
new_run env agent_id p keys s = record {
  id = "run-" +++ decimal env.now;
  agent_id = agent_id;
  project = or_else p.project "";
  targets = map (run_target s.services agent_id) keys;
  capture_bodies = or_else p.capture_bodies false;
  status = RunStatus.planned;
  reason = "";
  created_at = env.now;
  updated_at = env.now;
  started_at = none;
  signals = [];
}

-- POST /agents/:id/instrumentation-runs. Without a list of keys `input.keys.map` is a TypeError.
unfoldable pub create_run : Env → String → Body → DemoState → DemoState × Reply
unfolding new_run
create_run env agent_id body s = elim (parse_object body) [
  | none ↦ (s, Reply.thrown (refusal body))
  | some p ↦ elim p.keys [
    | none ↦ (s, Reply.thrown Failure.type_error)
    | some keys ↦
        let row = new_run env agent_id p keys s in
        (record s { runs = map_set row.id row s.runs }, Reply.run row)
  ]
]

abbrev with_profile : AgentProfile → ConnectedAgent → ConnectedAgent
with_profile p r = record r { profile = some p }

-- PUT /agents/:id/profile
unfoldable pub put_profile : String → Body → DemoState → DemoState × Reply
unfolding normalize_profile
put_profile id body s = elim (find (is_agent id) s.agents) [
  | none ↦ (s, Reply.thrown Failure.not_found)
  | some r ↦ elim (parse body) [
    | none ↦ (s, Reply.thrown Failure.syntax_error)
    | some p ↦
        let chosen =
          normalize_profile (some (record { kind = p.kind; capabilities = p.capabilities })) in
        (
          record s {
            agents = update_first (is_agent id) (with_profile chosen) s.agents;
            pending_profiles = set_add r.id s.pending_profiles;
          },
          Reply.profile chosen,
        )
  ]
]

-- The name and the profile that a body asks for; a body that does not parse leaves the defaults.
agent_name : Option Payload → String
agent_name none = "new-service"
agent_name (some p) = elim p.name [
  | none ↦ "new-service"
  | some n ↦ if n == "" then "new-service" else n
]

agent_profile : Option Payload → AgentProfile
unfolding normalize_profile
agent_profile none = normalize_profile none
agent_profile (some p) = normalize_profile p.profile

abbrev join_lifetime_ms : ℕ
join_lifetime_ms = 10 * 60000

new_join : Env → AgentJoinCode
new_join env = record {
  join_code = "evup_join_" +++ random_hex env.byte 16;
  expires_at = env.now + join_lifetime_ms;
}

new_agent : Env → Option Payload → ConnectedAgent
unfolding agent_name agent_profile
new_agent env p = record {
  id = "agent_mock_" +++ decimal env.now;
  name = agent_name p;
  project_id = none;
  version = none;
  last_seen_at = env.now;
  created_at = env.now;
  updated_at = env.now;
  profile = some (agent_profile p);
}

-- POST /agents
unfoldable pub create : Env → Body → DemoState → DemoState × Reply
unfolding new_agent new_join agent_profile
create env body s =
    let row = new_agent env (parse body) in
    (
      record s { agents = s.agents ++ row ∷ [] },
      Reply.created_agent row.id row.name (agent_profile (parse body)) (new_join env),
    )

-- POST /agents/:id/join-code
unfoldable pub renew_join_code : Env → DemoState → DemoState × Reply
unfolding new_join
renew_join_code env s = (s, Reply.join (new_join env))

-- POST /agents/:id/rotate-key
unfoldable pub rotate_key : Env → DemoState → DemoState × Reply
rotate_key env s = (s, Reply.api_key ("evup_svc_" +++ random_hex env.byte 24))

-- DELETE /agents/:id
unfoldable pub remove : String → DemoState → DemoState × Reply
remove id s = (record s { agents = remove_first (is_agent id) s.agents }, Reply.null)

-- DELETE /agents/:id/services/:key
unfoldable pub remove_service : Env → String → String → DemoState → DemoState × Reply
remove_service env agent_id key s = elim (env.decode key) [
  | none ↦ (s, Reply.thrown Failure.uri_error)
  | some k ↦
      (record s { services = remove_first (is_service_of agent_id k) s.services }, Reply.null)
]

-- PUT /agents/:id/services/:key/log-filter answers with the levels it was given and keeps nothing.
unfoldable pub echo_log_filter : Body → DemoState → DemoState × Reply
echo_log_filter body s = elim (parse body) [
  | none ↦ (s, Reply.levels [])
  | some p ↦ (s, Reply.levels (or_else p.levels []))
]
