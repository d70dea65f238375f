-- ===== src/Demo/Handlers/Infrastructure.antt =====
-- POST, PUT and DELETE under /infrastructure-resources: services/mockRouter.ts.
use everyup.Common.{
  String, Bool, true, false, Option, some, none, [], ◌∷◌, ◌++◌, if◌then◌else◌, ◌==◌, ◌+++◌, decimal,
  find, update_first, remove_first, or_else,
}
use everyup.Api.Hosts.{InfrastructureResource, InfrastructureAdapter}
use everyup.Demo.State.{
  DemoState, Env, Body, Payload, parse, parse_object, refusal, is_null, Reply, reply_row, Failure,
  random_hex,
}

-- `({ id }) => id === wanted`.
abbrev pub is_resource : String → InfrastructureResource → Bool
is_resource id r = r.id == id

-- `parsed.projectId || undefined`: an empty text is no group.
abbrev pub or_undefined : Option String → Option String
or_undefined none = none
or_undefined (some p) = if p == "" then none else some p

new_resource : Env → Payload → InfrastructureResource
new_resource env p = record {
  id = "infra_mock_" +++ decimal env.now;
  name = or_else p.name "";
  project_id = p.project_id;
  adapter = InfrastructureAdapter.otel_collector;
  is_active = true;
  api_key_masked = some "everyup_ab.....demo";
  api_key = some ("everyup_" +++ random_hex env.byte 32);
  last_seen_at = none;
  cpu_usage = none;
  memory_usage = none;
  disk_usage = none;
  created_at = env.now;
  updated_at = env.now;
}

unfoldable pub create : Env → Body → DemoState → DemoState × Reply
unfolding new_resource
create env body s = elim (parse_object body) [
  | none ↦ (s, Reply.thrown (refusal body))
  | some p ↦ (
    record s { infrastructure = s.infrastructure ++ new_resource env p ∷ [] },
    Reply.infrastructure (new_resource env p),
  )
]

abbrev rotated : InfrastructureResource → InfrastructureResource
rotated r = record r { is_active = true; api_key_masked = some "everyup_ab.....new1" }

unfoldable pub rotate : Env → String → DemoState → DemoState × Reply
rotate env id s = elim (find (is_resource id) s.infrastructure) [
  | none ↦ (s, Reply.null)
  | some r ↦ (
    record s { infrastructure = update_first (is_resource id) rotated s.infrastructure },
    Reply.infrastructure
        (record (rotated r) { api_key = some ("everyup_" +++ random_hex env.byte 32) }),
  )
]

abbrev revoked : InfrastructureResource → InfrastructureResource
revoked r = record r { is_active = false }

unfoldable pub revoke : String → DemoState → DemoState × Reply
revoke id s =
    let rows = update_first (is_resource id) revoked s.infrastructure in
    (
      record s { infrastructure = rows },
      reply_row Reply.infrastructure (find (is_resource id) rows),
    )

-- `Object.assign(resource, parsed, { projectId, updatedAt })`, with the id and the fields of the
-- input type.
abbrev assigned : Env → Payload → InfrastructureResource → InfrastructureResource
assigned env p r = record r {
  id = or_else p.id r.id;
  name = or_else p.name r.name;
  project_id = or_undefined p.project_id;
  updated_at = env.now;
}

-- The row that is there is read again after the body is parsed, so that `null` is refused only where
-- it is there.
unfoldable pub update : Env → String → Body → DemoState → DemoState × Reply
update env id body s = elim (parse body) [
  | none ↦ (s, Reply.thrown Failure.syntax_error)
  | some p ↦ elim (find (is_resource id) s.infrastructure) [
    | none ↦ (s, Reply.undefined)
    | some r ↦ if is_null body then (s, Reply.thrown Failure.type_error) else (
      record s { infrastructure = update_first (is_resource id) (assigned env p) s.infrastructure },
      Reply.infrastructure (assigned env p r),
    )
  ]
]

unfoldable pub remove : String → DemoState → DemoState × Reply
remove id s =
    (record s { infrastructure = remove_first (is_resource id) s.infrastructure }, Reply.undefined)
