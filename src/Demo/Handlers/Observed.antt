-- ===== src/Demo/Handlers/Observed.antt =====
-- POST, PUT and DELETE under /observed-services: services/mockRouter.ts.
use everyup.Common.{
  String, Bool, true, false, some, none, List, [], ◌∷◌, ◌++◌, ◌==◌, ◌+++◌, not, if◌then◌else◌,
  decimal, find, keep, update_first, remove_first, or_else,
}
use everyup.Api.Observed.{ObservedService}
use everyup.Demo.State.{
  DemoState, Env, Body, Payload, parse, parse_object, refusal, is_null, Reply, reply_row, Failure,
  random_hex, map_set, map_delete,
}
use everyup.Demo.Handlers.Infrastructure.{or_undefined}

abbrev pub is_service : String → ObservedService → Bool
is_service id r = r.id == id

abbrev pub default_levels : List String
default_levels = "error" ∷ "warn" ∷ "info" ∷ []

new_service : Env → Payload → ObservedService
new_service env p = record {
  id = "observed_mock_" +++ decimal env.now;
  name = or_else p.name "";
  project_id = p.project_id;
  signals = or_else p.signals [];
  log_level_filter = some default_levels;
  api_exclude_paths = none;
  is_active = true;
  api_key_masked = some "evup_****demo";
  api_key = some ("evup_direct_" +++ random_hex env.byte 24);
  last_seen_at = none;
  created_at = env.now;
  updated_at = env.now;
}

unfoldable pub create : Env → Body → DemoState → DemoState × Reply
unfolding new_service
create env body s = elim (parse_object body) [
  | none ↦ (s, Reply.thrown (refusal body))
  | some p ↦
      let row = new_service env p in
      (
        record s {
          observed = s.observed ++ row ∷ [];
          log_filters = map_set row.id default_levels s.log_filters;
          api_exclusions = map_set row.id [] s.api_exclusions;
        },
        Reply.observed row,
      )
]

abbrev rotated : ObservedService → ObservedService
rotated r = record r { is_active = true; api_key_masked = some "evup_****new1" }

unfoldable pub rotate : Env → String → DemoState → DemoState × Reply
rotate env id s = elim (find (is_service id) s.observed) [
  | none ↦ (s, Reply.null)
  | some r ↦ (
    record s { observed = update_first (is_service id) rotated s.observed },
    Reply.observed
        (record (rotated r) { api_key = some ("evup_direct_" +++ random_hex env.byte 24) }),
  )
]

abbrev revoked : ObservedService → ObservedService
revoked r = record r { is_active = false }

unfoldable pub revoke : String → DemoState → DemoState × Reply
revoke id s =
    let rows = update_first (is_service id) revoked s.observed in
    (record s { observed = rows }, reply_row Reply.observed (find (is_service id) rows))

-- The map is written whether or not a service has this id.
unfoldable pub set_log_filter : String → Body → DemoState → DemoState × Reply
set_log_filter id body s = elim (parse_object body) [
  | none ↦ (s, Reply.thrown (refusal body))
  | some p ↦
      let levels = or_else p.levels [] in
      (record s { log_filters = map_set id levels s.log_filters }, Reply.levels levels)
]

abbrev excluding : List String → ObservedService → ObservedService
excluding paths r = record r { api_exclude_paths = some paths }

unfoldable pub set_api_exclusions : String → Body → DemoState → DemoState × Reply
set_api_exclusions id body s = elim (parse_object body) [
  | none ↦ (s, Reply.thrown (refusal body))
  | some p ↦
      let paths = keep (λ x. not (x == "")) (or_else p.paths []) in
      (
        record s {
          api_exclusions = map_set id paths s.api_exclusions;
          observed = update_first (is_service id) (excluding paths) s.observed;
        },
        Reply.paths paths,
      )
]

abbrev assigned : Env → Payload → ObservedService → ObservedService
assigned env p r = record r {
  id = or_else p.id r.id;
  name = or_else p.name r.name;
  signals = or_else p.signals r.signals;
  project_id = or_undefined p.project_id;
  updated_at = env.now;
}

-- The row that is there is read again after the body is parsed, so that `null` is refused only where
-- it is there.
unfoldable pub update : Env → String → Body → DemoState → DemoState × Reply
update env id body s = elim (parse body) [
  | none ↦ (s, Reply.thrown Failure.syntax_error)
  | some p ↦ elim (find (is_service id) s.observed) [
    | none ↦ (s, Reply.undefined)
    | some r ↦ if is_null body then (s, Reply.thrown Failure.type_error) else (
      record s { observed = update_first (is_service id) (assigned env p) s.observed },
      Reply.observed (assigned env p r),
    )
  ]
]

unfoldable pub remove : String → DemoState → DemoState × Reply
remove id s = (
  record s {
    observed = remove_first (is_service id) s.observed;
    log_filters = map_delete id s.log_filters;
    api_exclusions = map_delete id s.api_exclusions;
  },
  Reply.undefined,
)
