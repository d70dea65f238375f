-- ===== src/Groups/Members.antt =====
-- The members of a group and their one-line summary: pages/projects/projectMembers.ts.
use everyup.Common.{
  ℕ, ◌+◌, String, Bool, true, false, not, Option, some, none, List, [], ◌∷◌, ◌++◌, map,
  if◌then◌else◌, ◌+++◌, leb, ltb, includes, keep, any, sort_by, decimal, is_some,
}
use everyup.Api.Agents.{ConnectedAgent, AgentServiceFlat, Timestamp}
use everyup.Api.Hosts.{InfrastructureResource, InfrastructureAdapter}
use everyup.Api.Monitors.{UptimeMonitor, UptimeMonitorStatus}
use everyup.Api.Projects.{is_in}
use everyup.Api.Observed.{ObservedService, TelemetrySignal}
use everyup.Status.Metrics.{StatusTone}
use everyup.Status.Operational.{is_collector_fresh}

pub data AssignableTarget : Type 0 where
  agent : ConnectedAgent → AssignableTarget
  monitor : UptimeMonitor → AssignableTarget
  direct : ObservedService → AssignableTarget
  infra : InfrastructureResource → AssignableTarget

pub record Member : Type 0 where
  pub key : String
  pub to : String
  pub icon : String
  pub type : String
  pub name : String
  pub detail : String
  pub state : StatusTone
  pub assignment : Option AssignableTarget

pub record ProjectSources : Type 0 where
  pub agents : List ConnectedAgent
  pub services : List AgentServiceFlat
  pub monitors : List UptimeMonitor
  pub observed_services : List ObservedService
  pub infrastructure : List InfrastructureResource

-- STATE_ORDER: problems first.
abbrev pub state_order : StatusTone → ℕ
state_order StatusTone.error = 0
state_order StatusTone.warn = 1
state_order StatusTone.idle = 2
state_order StatusTone.healthy = 3

-- Docker services follow the group of their agent.
unfoldable pub sources_for_project : String → ProjectSources → ProjectSources
sources_for_project p all =
    let agents = keep (λ r. is_in p r.project_id) all.agents in
    record {
      agents = agents;
      services = keep (λ r. includes r.agent_id (map (λ a. a.id) agents)) all.services;
      monitors = keep (λ r. is_in p r.project_id) all.monitors;
      observed_services = keep (λ r. is_in p r.project_id) all.observed_services;
      infrastructure = keep (λ r. is_in p r.project_id) all.infrastructure;
    }

abbrev is_logs : TelemetrySignal → Bool
is_logs TelemetrySignal.logs = true
is_logs _ = false

abbrev is_metrics : TelemetrySignal → Bool
is_metrics TelemetrySignal.metrics = true
is_metrics _ = false

-- directKind: the path, the icon and the type.
direct_kind : ObservedService → String × String × String
direct_kind r =
    if any is_logs r.signals
    then ("/logs/" +++ r.id, "article", "로그")
    else if any is_metrics r.signals
    then ("/metrics/" +++ r.id, "monitoring", "메트릭")
    else ("/api/" +++ r.id, "api", "API 요청")

abbrev seen_at : Option ℕ → Option Timestamp
seen_at none = none
seen_at (some t) = some (Timestamp.at t)

abbrev pub is_direct_infrastructure : InfrastructureResource → Bool
is_direct_infrastructure r = elim r.adapter [
  | InfrastructureAdapter.otel_collector ↦ true
  | InfrastructureAdapter.everyup_agent ↦ false
]

abbrev monitor_detail : UptimeMonitorStatus → String
monitor_detail UptimeMonitorStatus.unhealthy = "장애"
monitor_detail UptimeMonitorStatus.healthy = "정상"
monitor_detail UptimeMonitorStatus.unknown = "상태 확인 중"

abbrev monitor_tone : UptimeMonitorStatus → StatusTone
monitor_tone UptimeMonitorStatus.unhealthy = StatusTone.error
monitor_tone UptimeMonitorStatus.healthy = StatusTone.healthy
monitor_tone UptimeMonitorStatus.unknown = StatusTone.idle

-- encodeURIComponent and toLocaleString are the platform's.
module _ (encode : String → String) (show_time : ℕ → String) (now : ℕ) where
  agent_member : ConnectedAgent → Member
  agent_member r =
      let fresh = is_collector_fresh (some (Timestamp.at r.last_seen_at)) now in
      record {
        key = "agent-" +++ r.id;
        to = "/agents/" +++ r.id;
        icon = "dns";
        type = "Docker 환경";
        name = r.name;
        detail = if fresh then "데이터 유입 중" else "데이터 지연";
        state = if fresh then StatusTone.healthy else StatusTone.warn;
        assignment = some (agent r);
      }

  service_member : AgentServiceFlat → Member
  service_member r = record {
    key = "service-" +++ r.agent_id +++ "-" +++ r.key;
    to = "/services/" +++ r.agent_id +++ "/" +++ encode r.key +++ "?tab=uptime";
    icon = "deployed_code";
    type = "Docker 서비스";
    name = r.name;
    detail = "장애";
    state = StatusTone.error;
    assignment = none;
  }

  monitor_member : UptimeMonitor → Member
  monitor_member r = record {
    key = "monitor-" +++ r.id;
    to = "/uptime/" +++ r.id;
    icon = "monitor_heart";
    type = "업타임";
    name = r.name;
    detail = monitor_detail r.status;
    state = monitor_tone r.status;
    assignment = some (monitor r);
  }

  direct_member : ObservedService → Member
  unfolding direct_kind
  direct_member r =
      let kind = direct_kind r in
      record {
        key = "direct-" +++ r.id;
        to = kind.0;
        icon = kind.1;
        type = kind.2;
        name = r.name;
        detail =
            if r.is_active
            then elim r.last_seen_at [ none ↦ "데이터 대기 중" | some t ↦ "마지막 수신 " +++ show_time t ]
            else "연결 비활성화됨";
        state =
            if r.is_active
            then (if is_some r.last_seen_at then StatusTone.healthy else StatusTone.warn)
            else StatusTone.idle;
        assignment = some (direct r);
      }

  resource_member : InfrastructureResource → Member
  resource_member r =
      let fresh = is_collector_fresh (seen_at r.last_seen_at) now in
      record {
        key = "infra-" +++ r.id;
        to = "/infrastructure/" +++ r.id;
        icon = "memory";
        type = "인프라";
        name = r.name;
        detail =
            if r.is_active then (if fresh then "데이터 유입 중" else "데이터 확인 필요") else "Collector 비활성화됨";
        state =
            if r.is_active
            then (if fresh then StatusTone.healthy else StatusTone.warn)
            else StatusTone.idle;
        assignment = if is_direct_infrastructure r then some (infra r) else none;
      }

  -- The members in the order of their kinds, before the sort.
  unfoldable pub unsorted_members : ProjectSources → List Member
  unfolding agent_member service_member monitor_member direct_member resource_member
  unsorted_members s =
      map agent_member s.agents
      ++ (map service_member (keep (λ r. not r.healthy) s.services)
          ++ (map monitor_member s.monitors
              ++ (map direct_member s.observed_services ++ map resource_member s.infrastructure)))

-- `STATE_ORDER[a.state] - STATE_ORDER[b.state]` is at most 0.
abbrev pub before : Member → Member → Bool
before a b = leb (state_order a.state) (state_order b.state)

unfoldable pub project_members : (String → String) → (ℕ → String) → ℕ → ProjectSources → List Member
project_members encode show_time now s = sort_by before (unsorted_members encode show_time now s)

unfoldable pub assignable_targets : ProjectSources → List AssignableTarget
assignable_targets all =
    map agent all.agents
    ++ (map monitor all.monitors
        ++ (map direct all.observed_services
            ++ map infra (keep is_direct_infrastructure all.infrastructure)))

pub record Summary : Type 0 where
  pub tone : StatusTone
  pub label : String

abbrev pub is_tone : StatusTone → StatusTone → Bool
is_tone StatusTone.error StatusTone.error = true
is_tone StatusTone.warn StatusTone.warn = true
is_tone StatusTone.idle StatusTone.idle = true
is_tone StatusTone.healthy StatusTone.healthy = true
is_tone _ _ = false

-- `counts[state]` after the loop.
unfoldable pub count_tone : StatusTone → List Member → ℕ
count_tone t [] = 0
count_tone t (m ∷ ms) = (if is_tone t m.state then 1 else 0) + count_tone t ms

-- The keys of STATE_ORDER in their order.
abbrev pub all_tones : List StatusTone
all_tones = StatusTone.error ∷ StatusTone.warn ∷ StatusTone.idle ∷ StatusTone.healthy ∷ []

abbrev tone_label : StatusTone → String
tone_label StatusTone.error = "장애"
tone_label StatusTone.warn = "확인 필요"
tone_label StatusTone.idle = "대기"
tone_label StatusTone.healthy = "정상"

counted : List Member → StatusTone → String
counted ms t = tone_label t +++ " " +++ decimal (count_tone t ms)

join_labels : List String → String
join_labels [] = ""
join_labels (x ∷ []) = x
join_labels (x ∷ y ∷ ys) = x +++ ", " +++ join_labels (y ∷ ys)

abbrev first_tone : List StatusTone → StatusTone
first_tone [] = StatusTone.idle
first_tone (t ∷ ts) = t

unfoldable pub summarize_members : List Member → Summary
unfolding count_tone counted join_labels
summarize_members [] = record { tone = StatusTone.idle; label = "대상 없음" }
summarize_members (m ∷ ms) =
    let states = keep (λ t. ltb 0 (count_tone t (m ∷ ms))) all_tones in
    record { tone = first_tone states; label = join_labels (map (counted (m ∷ ms)) states) }

-- TARGET_KINDS, with the kind of a target as its text.
abbrev pub target_kinds : List (String × String)
target_kinds =
    ("agent", "Docker 환경")
    ∷ ("monitor", "업타임 모니터")
    ∷ ("direct", "직접 연결 서비스")
    ∷ ("infra", "Collector")
    ∷ []

unfoldable pub target_key : AssignableTarget → String
target_key (agent r) = "agent-" +++ r.id
target_key (monitor r) = "monitor-" +++ r.id
target_key (direct r) = "direct-" +++ r.id
target_key (infra r) = "infra-" +++ r.id
