-- ===== src/Alerts/Labels.antt =====
-- The texts of an alert rule: its target, condition and trigger in the list of rules of
-- features/alerts/components/AlertRulesTab.tsx, and its default message in AlertRuleForm.tsx.
use everyup.Common.{
  ℕ, ◌*◌, ◌/◌, ◌%◌, String, Option, some, none, List, ◌≡◌, refl, ◌&&◌, if◌then◌else◌, ◌==◌, ◌+++◌,
  nat_eq, leb, find, decimal, arith, Bool-cases, inl, inr,
}
use everyup.Api.Agents.{AgentServiceFlat, ConnectedAgent}
use everyup.Api.Hosts.{InfrastructureResource}
use everyup.Api.Observed.{ObservedService}
use everyup.Alerts.Target.{AlertMetric, AlertOperator, AlertRule, AlertRuleType}

-- The category of a rule, without "all".
pub data CategoryKey : Type 0 where
  endpoint request log resource system : CategoryKey

abbrev type_category : AlertRuleType → CategoryKey
type_category AlertRuleType.service = CategoryKey.endpoint
type_category AlertRuleType.request = CategoryKey.request
type_category AlertRuleType.log = CategoryKey.log
type_category _ = CategoryKey.resource

unfoldable pub rule_category : AlertRule → CategoryKey
rule_category r = if r.is_system then CategoryKey.system else type_category r.type

-- The lists in which a target is looked up.
pub record TargetRows : Type 0 where
  pub agent_services : List AgentServiceFlat
  pub agents : List ConnectedAgent
  pub direct_services : List ObservedService
  pub infrastructure_resources : List InfrastructureResource

-- An id, unless it is absent or blank.
abbrev given : Option String → Option String
given none = none
given (some s) = if s == "" then none else some s

abbrev direct_name : TargetRows → String → String
direct_name rows id = elim (find (λ s. s.id == id) rows.direct_services) [
  | none ↦ id
  | some s ↦ s.name
]

abbrev agent_name : TargetRows → String → String
agent_name rows id = elim (find (λ a. a.id == id) rows.agents) [ none ↦ id | some a ↦ a.name ]

abbrev service_name : TargetRows → String → String → String
service_name rows a k = elim (find (λ s. s.agent_id == a && (s.key == k)) rows.agent_services) [
  | none ↦ k
  | some s ↦ s.agent_name +++ " / " +++ s.name
]

abbrev host_name : TargetRows → String → String
host_name rows id = elim (find (λ r. r.id == id) rows.infrastructure_resources) [
  | none ↦ agent_name rows id
  | some r ↦ r.name
]

abbrev all_label : AlertRuleType → String
all_label AlertRuleType.log = "전체 로그 서비스"
all_label _ = "전체 헬스체크"

abbrev whole_agent : TargetRows → AlertRuleType → Option String → String
whole_agent rows AlertRuleType.request (some a) = agent_name rows a
whole_agent rows t agent = all_label t

abbrev docker_label : TargetRows → AlertRuleType → Option String → Option String → String
docker_label rows t (some a) (some k) = service_name rows a k
docker_label rows t agent key = whole_agent rows t agent

abbrev service_label : TargetRows → AlertRule → String
service_label rows r = elim (given r.service_id) [
  | some id ↦ direct_name rows id
  | none ↦ docker_label rows r.type (given r.agent_id) (given r.service_key)
]

abbrev host_label : TargetRows → AlertRule → String
host_label rows r = elim (given r.agent_id) [ none ↦ "전체 인프라" | some a ↦ host_name rows a ]

unfoldable pub target_label : TargetRows → AlertRule → String
target_label rows r = elim r.type [
  | AlertRuleType.service ↦ service_label rows r
  | AlertRuleType.log ↦ service_label rows r
  | AlertRuleType.request ↦ service_label rows r
  | AlertRuleType.resource ↦ host_label rows r
  | AlertRuleType.system ↦ host_label rows r
]

abbrev pub category_text : CategoryKey → String
category_text CategoryKey.endpoint = "endpoint"
category_text CategoryKey.request = "request"
category_text CategoryKey.log = "log"
category_text CategoryKey.resource = "resource"
category_text CategoryKey.system = "system"

unfoldable pub category_label : CategoryKey → String
category_label CategoryKey.endpoint = "헬스체크"
category_label CategoryKey.request = "API 요청"
category_label CategoryKey.log = "로그"
category_label CategoryKey.resource = "인프라"
category_label CategoryKey.system = "시스템"

-- METRIC_LABELS, which has no label for an OTel metric.
unfoldable pub metric_label : AlertMetric → String
metric_label AlertMetric.cpu = "CPU"
metric_label AlertMetric.memory = "메모리"
metric_label AlertMetric.disk = "디스크"
metric_label AlertMetric.status_change = "상태 변경"
metric_label AlertMetric.http_status = "HTTP 상태"
metric_label AlertMetric.response_time = "응답 시간"
metric_label AlertMetric.log_level = "로그 레벨"
metric_label AlertMetric.api_status_code = "API 상태"
metric_label AlertMetric.error_rate = "에러율"
metric_label AlertMetric.latency_p95 = "p95 지연"
metric_label AlertMetric.latency_p99 = "p99 지연"
metric_label AlertMetric.otel_metric = "otel_metric"

-- OPERATOR_WORDS, which has a word for each operator.
abbrev operator_word : AlertOperator → String
operator_word AlertOperator.gt = "초과"
operator_word AlertOperator.gte = "이상"
operator_word AlertOperator.lt = "미만"
operator_word AlertOperator.lte = "이하"
operator_word AlertOperator.eq = "같음"

abbrev threshold_unit : AlertMetric → String
threshold_unit AlertMetric.response_time = "ms"
threshold_unit AlertMetric.latency_p95 = "ms"
threshold_unit AlertMetric.latency_p99 = "ms"
threshold_unit AlertMetric.http_status = ""
threshold_unit AlertMetric.log_level = ""
threshold_unit AlertMetric.api_status_code = ""
threshold_unit _ = "%"

unfoldable pub threshold_value : AlertRule → String
threshold_value r = decimal r.threshold +++ threshold_unit r.metric

unfoldable pub condition_expr : AlertRule → String
unfolding threshold_value metric_label
condition_expr r =
    metric_label r.metric +++ " " +++ threshold_value r +++ " " +++ operator_word r.operator

unfoldable pub format_minutes : ℕ → String
format_minutes n =
    if leb 60 n && nat_eq (n % 60) 0 then decimal (n / 60) +++ "시간" else decimal n +++ "분"

unfoldable pub format_seconds : ℕ → String
format_seconds n =
    if leb 3600 n && nat_eq (n % 3600) 0
    then decimal (n / 3600) +++ "시간"
    else if leb 60 n && nat_eq (n % 60) 0
    then decimal (n / 60) +++ "분"
    else decimal n +++ "초"

unfoldable pub evaluation_summary : AlertRule → String
unfolding format_minutes format_seconds
evaluation_summary r = elim r.type [
  | AlertRuleType.service ↦ "헬스체크 결과가 조건에 맞을 때마다 평가"
  | AlertRuleType.log ↦ "로그/API 이벤트마다 평가"
  | AlertRuleType.request ↦
      "최근 "
      +++ format_minutes r.duration
      +++ " 구간을 1분마다 평가 · "
      +++ format_seconds r.cooldown
      +++ " 쿨다운"
  | AlertRuleType.resource ↦ evaluated_after r
  | AlertRuleType.system ↦ evaluated_after r
]
  where
    evaluated_after : AlertRule → String
    evaluated_after q =
        if q.is_system
        then "시스템에서 자동 평가"
        else format_minutes q.duration +++ " 동안 지속 · " +++ format_seconds q.cooldown +++ " 쿨다운"

abbrev trigger_text : AlertRuleType → AlertRule → String
trigger_text AlertRuleType.log r = condition_expr r +++ " · 즉시"
trigger_text AlertRuleType.request r = condition_expr r +++ " · 최근 " +++ format_minutes r.duration
trigger_text AlertRuleType.service r = condition_expr r +++ " · " +++ decimal r.duration +++ "회 연속"
trigger_text _ r = condition_expr r +++ " · " +++ format_minutes r.duration +++ " 지속"

unfoldable pub compact_trigger : AlertRule → String
compact_trigger r = if r.is_system then "시스템에서 자동 평가" else trigger_text r.type r

-- A unit of time, with its length in seconds.
pub data TimeUnit : Type 0 where
  hours minutes seconds : TimeUnit

abbrev pub unit_text : TimeUnit → String
unit_text TimeUnit.hours = "시간"
unit_text TimeUnit.minutes = "분"
unit_text TimeUnit.seconds = "초"

abbrev pub unit_seconds : TimeUnit → ℕ
unit_seconds TimeUnit.hours = 3600
unit_seconds TimeUnit.minutes = 60
unit_seconds TimeUnit.seconds = 1

seconds_exact :
    (n : ℕ)
    → (u : TimeUnit) × ((k : ℕ) × ((format_seconds n ≡ decimal k +++ unit_text u)
          × (k * unit_seconds u ≡ n)))
unfolding format_seconds
seconds_exact n = elim (Bool-cases (leb 3600 n && nat_eq (n % 3600) 0)) [
  | inl e ↦ (TimeUnit.hours, (n / 3600, (rw e refl, ground arith)))
  | inr e ↦ elim (Bool-cases (leb 60 n && nat_eq (n % 60) 0)) [
    | inl f ↦ (TimeUnit.minutes, (n / 60, (rw (e, f) refl, ground arith)))
    | inr f ↦ (TimeUnit.seconds, (n, (rw (e, f) refl, omega arith)))
  ]
]

minutes_exact :
    (n : ℕ)
    → (u : TimeUnit) × ((k : ℕ) × ((format_minutes n ≡ decimal k +++ unit_text u)
          × (k * unit_seconds u ≡ n * 60)))
unfolding format_minutes
minutes_exact n = elim (Bool-cases (leb 60 n && nat_eq (n % 60) 0)) [
  | inl e ↦ (TimeUnit.hours, (n / 60, (rw e refl, ground arith)))
  | inr e ↦ (TimeUnit.minutes, (n, (rw e refl, omega arith)))
]

-- A time that is shown is exact: whatever unit it is shown in, the number before the unit is the
-- time in that unit, for the seconds of a cooldown and the minutes of a duration.
pub format_seconds_exact :
    (n : ℕ)
    → ((u : TimeUnit) × ((k : ℕ) × ((format_seconds n ≡ decimal k +++ unit_text u)
            × (k * unit_seconds u ≡ n))))
      × ((u : TimeUnit) × ((k : ℕ) × ((format_minutes n ≡ decimal k +++ unit_text u)
              × (k * unit_seconds u ≡ n * 60))))
format_seconds_exact n = (seconds_exact n, minutes_exact n)
