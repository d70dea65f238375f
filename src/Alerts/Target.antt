-- ===== src/Alerts/Target.antt =====
-- The target of an alert rule: features/alerts/alertTarget.ts and useAlertThresholds.ts.
use everyup.Common.{
  ℕ, String, Bool, true, false, Option, some, none, List, [], ◌∷◌, ◌≡◌, ◌≢◌, ◌&&◌, if◌then◌else◌,
  ◌==◌, any, keep, keep_gives, arith, eq_iff, inl, inr, All, ◌⊎◌,
}

-- services/api/alerts.ts
pub data AlertMetric : Type 0 where
  cpu memory disk status_change http_status response_time log_level api_status_code otel_metric :
      AlertMetric
  error_rate latency_p95 latency_p99 : AlertMetric

pub data AlertRuleType : Type 0 where
  resource service log system request : AlertRuleType

pub data AlertOperator : Type 0 where
  gt lt gte lte eq : AlertOperator

pub data AlertSeverity : Type 0 where
  critical warning info : AlertSeverity

-- A field that may be null and may be absent is `none`.
pub record AlertRule : Type 0 where
  pub id : String
  pub name : String
  pub type : AlertRuleType
  pub agent_id : Option String
  pub service_key : Option String
  pub service_id : Option String
  pub metric : AlertMetric
  pub metric_name : Option String
  pub operator : AlertOperator
  pub threshold : ℕ
  pub duration : ℕ
  pub severity : AlertSeverity
  pub is_enabled : Bool
  pub is_system : Bool
  pub cooldown : ℕ
  pub message : Option String
  pub channel_ids : List String
  pub last_triggered_at : Option ℕ
  pub created_at : ℕ
  pub updated_at : ℕ

pub data AlertTarget : Type 0 where
  direct : (service_id : String) → AlertTarget
  agent : (agent_id service_key : String) → AlertTarget
  infrastructure : (resource_id : String) → AlertTarget

-- The entries of URLSearchParams in their order.
abbrev pub Params : Type 0
Params = List (String × String)

abbrev pub get : String → Params → Option String
get k [] = none
get k ((j, v) ∷ m) = if j == k then some v else get k m

-- `params.get(k)`, where an empty text is falsy.
abbrev given : String → Params → Option String
given k q = elim (get k q) [ none ↦ none | some v ↦ if v == "" then none else some v ]

abbrev target_is : String → Params → Bool
target_is t q = elim (get "target" q) [ none ↦ false | some v ↦ v == t ]

parse_infrastructure : Params → Option AlertTarget
parse_infrastructure q =
    if target_is "infrastructure" q
    then elim (given "resourceId" q) [ none ↦ none | some r ↦ some (infrastructure r) ]
    else none

parse_agent : Params → Option AlertTarget
parse_agent q =
    if target_is "agent" q
    then elim (given "agentId" q) [
      | none ↦ none
      | some a ↦ elim (given "serviceKey" q) [ none ↦ none | some k ↦ some (agent a k) ]
    ]
    else none

parse_direct : Params → Option AlertTarget
parse_direct q =
    if target_is "direct" q
    then elim (given "serviceId" q) [ none ↦ none | some s ↦ some (direct s) ]
    else none

abbrev or_next : Option AlertTarget → Option AlertTarget → Option AlertTarget
or_next none t = t
or_next (some t) s = some t

unfoldable pub parse_alert_target : Params → Option AlertTarget
unfolding parse_infrastructure parse_agent parse_direct
parse_alert_target q = or_next (parse_direct q) (or_next (parse_agent q) (parse_infrastructure q))

-- The entries of the query of `/alerts?...`; `params.set` adds keys that are not there yet.
unfoldable pub alert_rules_params : AlertTarget → Params
alert_rules_params (direct s) = ("tab", "rules") ∷ ("target", "direct") ∷ ("serviceId", s) ∷ []
alert_rules_params (infrastructure r) =
    ("tab", "rules") ∷ ("target", "infrastructure") ∷ ("resourceId", r) ∷ []
alert_rules_params (agent a k) =
    ("tab", "rules") ∷ ("target", "agent") ∷ ("agentId", a) ∷ ("serviceKey", k) ∷ []

-- `field === id`.
abbrev is_id : String → Option String → Bool
is_id id none = false
is_id id (some v) = v == id

-- `!field`.
abbrev is_blank : Option String → Bool
is_blank none = true
is_blank (some v) = v == ""

unfoldable pub matches_alert_target : AlertRule → AlertTarget → Bool
matches_alert_target r (direct s) = is_id s r.service_id
matches_alert_target r (infrastructure i) = is_id i r.agent_id && is_blank r.service_key
matches_alert_target r (agent a k) = is_id a r.agent_id && is_id k r.service_key

abbrev pub same_metric : AlertMetric → AlertMetric → Bool
same_metric AlertMetric.cpu AlertMetric.cpu = true
same_metric AlertMetric.memory AlertMetric.memory = true
same_metric AlertMetric.disk AlertMetric.disk = true
same_metric AlertMetric.status_change AlertMetric.status_change = true
same_metric AlertMetric.http_status AlertMetric.http_status = true
same_metric AlertMetric.response_time AlertMetric.response_time = true
same_metric AlertMetric.log_level AlertMetric.log_level = true
same_metric AlertMetric.api_status_code AlertMetric.api_status_code = true
same_metric AlertMetric.otel_metric AlertMetric.otel_metric = true
same_metric AlertMetric.error_rate AlertMetric.error_rate = true
same_metric AlertMetric.latency_p95 AlertMetric.latency_p95 = true
same_metric AlertMetric.latency_p99 AlertMetric.latency_p99 = true
same_metric _ _ = false

abbrev name_fits : Option String → Option String → Bool
name_fits none n = true
name_fits (some w) n = is_id w n

-- The rules that useAlertThresholds draws, once they are loaded.
unfoldable pub alert_thresholds :
    AlertTarget → List AlertMetric → Option String → List AlertRule → List AlertRule
alert_thresholds t metrics name rules =
    keep
      (λ r.
        r.is_enabled
        && (any (same_metric r.metric) metrics
            && (name_fits name r.metric_name && matches_alert_target r t)))
      rules

abbrev pub HasIds : AlertTarget → Type 0
HasIds (direct s) = (s == "") ≡ false
HasIds (infrastructure r) = (r == "") ≡ false
HasIds (agent a k) = ((a == "") ≡ false) × ((k == "") ≡ false)

-- The link to the rules of a target leads to that target, if its ids are not empty.
pub parse-alert_rules_params :
    (t : AlertTarget) → HasIds t → parse_alert_target (alert_rules_params t) ≡ some t
unfolding parse_alert_target alert_rules_params
parse-alert_rules_params (direct s) h = ground arith
parse-alert_rules_params (infrastructure r) h = ground arith
parse-alert_rules_params (agent a k) h = ground arith

aimed_apart :
    (i a k : String) (agent_id key : Option String)
    → (k == "") ≡ false
    → (is_id i agent_id && is_blank key) ≡ true
    → (is_id a agent_id && is_id k key) ≡ false
aimed_apart i a k agent_id none h e = ground arith
aimed_apart i a k agent_id (some v) h e = ground (arith, eq_iff v "", eq_iff v k, eq_iff k "")

-- A rule that is aimed at a host is drawn on no chart of a Docker service, and a global rule, which
-- has no agent and no service, is drawn on no chart at all.
pub matches_one_kind :
    (r : AlertRule) (i a k : String)
    → (k == "") ≡ false
    → (matches_alert_target r (infrastructure i) ≡ true
        → matches_alert_target r (agent a k) ≡ false)
      × (r.agent_id ≡ none
          → r.service_id ≡ none
          → (t : AlertTarget) → matches_alert_target r t ≡ false)
unfolding matches_alert_target
matches_one_kind r i a k h =
    (λ e. aimed_apart i a k r.agent_id r.service_key h e, λ e f t. ground arith)

matched : (a b c m : Bool) → (a && (b && (c && m))) ≡ true → m ≡ true
matched a b c m e = ground arith

is_local :
    (r : AlertRule) (t : AlertTarget)
    → matches_alert_target r t ≡ true
    → (matches_alert_target r t ≡ true) × ((r.agent_id ≢ none) ⊎ (r.service_id ≢ none))
unfolding matches_alert_target
is_local r (direct s) e = (e, inr (λ h. ground arith))
is_local r (agent a k) e = (e, inl (λ h. ground arith))
is_local r (infrastructure i) e = (e, inl (λ h. ground arith))

-- Whatever rules there are, the thresholds drawn for a target are enabled, are aimed at it, and
-- none of them is a global rule.
pub alert_thresholds_lem :
    (t : AlertTarget) (metrics : List AlertMetric) (name : Option String) (rules : List AlertRule)
    → All
        (λ r.
          (r.is_enabled ≡ true)
          × ((matches_alert_target r t ≡ true) × ((r.agent_id ≢ none) ⊎ (r.service_id ≢ none))))
        (alert_thresholds t metrics name rules)
unfolding alert_thresholds
alert_thresholds_lem t metrics name rules =
    keep_gives _ _ rules
      (λ r e. (ground arith, is_local r t (matched r.is_enabled _ _ (matches_alert_target r t) e)))
