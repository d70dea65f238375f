-- ===== src/Demo/Handlers/Monitors.antt =====
-- POST, PUT and DELETE under /services: uptime monitors, services/mockRouter.ts.
use everyup.Common.{
  String, true, some, none, [], ◌∷◌, ◌++◌, ◌+++◌, decimal, find, update_first, remove_first,
  or_else,
}
use everyup.Api.Monitors.{UptimeMonitor, UptimeMonitorType, UptimeMonitorStatus}
use everyup.Demo.State.{DemoState, Env, Body, Payload, parse, parse_object, refusal, Reply, Failure}
use everyup.Demo.Handlers.Projects.{is_monitor}

new_monitor : Env → Payload → UptimeMonitor
new_monitor env p = record {
  id = "uptime_mock_" +++ decimal env.now;
  name = or_else p.name "새 업타임";
  project_id = none;
  type = or_else p.type UptimeMonitorType.http;
  is_active = or_else p.is_active true;
  url = or_else p.url (or_else p.host "");
  port = p.port;
  method = or_else p.method "GET";
  expected_status = or_else p.expected_status 200;
  timeout = or_else p.timeout 5000;
  interval = or_else p.interval 30;
  status = UptimeMonitorStatus.unknown;
  last_check_at = none;
  uptime = none;
  response_time = none;
  latency_history = none;
  cert_expires_at = none;
}

unfoldable pub create : Env → Body → DemoState → DemoState × Reply
unfolding new_monitor
create env body s = elim (parse_object body) [
  | none ↦ (s, Reply.thrown (refusal body))
  | some p ↦ (
    record s { monitors = s.monitors ++ new_monitor env p ∷ [] },
    Reply.monitor (new_monitor env p),
  )
]

-- `Object.assign(monitor, parsed)`, with the id and the fields of the input type; a monitor has no
-- `host`.
abbrev assigned : Payload → UptimeMonitor → UptimeMonitor
assigned p r = record r {
  id = or_else p.id r.id;
  name = or_else p.name r.name;
  type = or_else p.type r.type;
  is_active = or_else p.is_active r.is_active;
  url = or_else p.url r.url;
  port = elim p.port [ none ↦ r.port | some n ↦ some n ];
  method = or_else p.method r.method;
  expected_status = or_else p.expected_status r.expected_status;
  timeout = or_else p.timeout r.timeout;
  interval = or_else p.interval r.interval;
}

-- The body is parsed only if the monitor is there.
unfoldable pub update : String → Body → DemoState → DemoState × Reply
update id body s = elim (find (is_monitor id) s.monitors) [
  | none ↦ (s, Reply.undefined)
  | some r ↦ elim (parse body) [
    | none ↦ (s, Reply.thrown Failure.syntax_error)
    | some p ↦ (
      record s { monitors = update_first (is_monitor id) (assigned p) s.monitors },
      Reply.monitor (assigned p r),
    )
  ]
]

unfoldable pub remove : String → DemoState → DemoState × Reply
remove id s = (record s { monitors = remove_first (is_monitor id) s.monitors }, Reply.undefined)
