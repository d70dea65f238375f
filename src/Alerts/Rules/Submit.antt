-- ===== src/Alerts/Rules/Submit.antt =====
-- The schema of the form, and the request that it sends: ruleSchema and onSubmit of
-- features/alerts/components/AlertRuleForm.tsx.
use everyup.Common.{
  ℕ, String, Bool, true, false, Option, some, none, ◌≡◌, not, ◌&&◌, ◌||◌, if◌then◌else◌, leb,
  or_else, ◌==◌,
}
use everyup.Alerts.Target.{AlertMetric, AlertRule, AlertRuleType}
use everyup.Alerts.Requests.{CreateAlertRuleData}
use everyup.Alerts.Rules.Form.{RuleCategory, RuleFormValues, FullRuleForm}

abbrev pub is_form_metric : AlertMetric → Bool
is_form_metric AlertMetric.status_change = false
is_form_metric _ = true

abbrev pub is_metric : RuleCategory → Bool
is_metric RuleCategory.metric = true
is_metric _ = false

abbrev pub is_request : RuleCategory → Bool
is_request RuleCategory.request = true
is_request _ = false

-- `scoped`: every category but that of hosts.
abbrev pub is_scoped : RuleCategory → Bool
is_scoped RuleCategory.resource = false
is_scoped _ = true

abbrev pub duration_allowed : Option ℕ → Bool
duration_allowed none = false
duration_allowed (some n) = leb 1 n && leb n 60

abbrev pub cooldown_allowed : Option ℕ → Bool
cooldown_allowed none = false
cooldown_allowed (some n) = leb n 86400

-- Whether ruleSchema accepts the values, with String.prototype.trim as `trim`.
unfoldable pub rule_schema : (String → String) → RuleFormValues → Bool
rule_schema trim v =
    not (v.name == "")
    && (is_form_metric v.metric
        && (duration_allowed v.duration
            && (cooldown_allowed v.cooldown
                && (not (trim v.name == "")
                    && (not (is_metric v.rule_category && (trim v.metric_name == ""))
                        && not (
                            is_request v.rule_category
                            && (v.service_key == "" && (v.service_id == ""))))))))

-- `field || null`.
abbrev pub or_null : String → Option String
or_null s = if s == "" then none else some s

abbrev pub payload_type : RuleCategory → AlertRuleType
payload_type RuleCategory.request = AlertRuleType.request
payload_type RuleCategory.log = AlertRuleType.log
payload_type RuleCategory.endpoint = AlertRuleType.service
payload_type RuleCategory.metric = AlertRuleType.service
payload_type RuleCategory.resource = AlertRuleType.resource

unfoldable pub payload : (String → String) → FullRuleForm → CreateAlertRuleData
payload trim f =
    let v = f.values in
    let scoped = is_scoped v.rule_category in
    record {
      name = v.name;
      type = payload_type v.rule_category;
      metric = v.metric;
      metric_name = some (if is_metric v.rule_category then v.metric_name else "");
      agent_id = or_null v.agent_id;
      service_key = if scoped then or_null v.service_key else none;
      service_id = if scoped then or_null v.service_id else none;
      operator = some v.operator;
      threshold = v.threshold;
      duration = v.duration;
      severity = some v.severity;
      is_enabled = none;
      cooldown = if scoped && not (is_request v.rule_category) then some 0 else v.cooldown;
      message = some (trim f.custom_message);
      channel_ids = some v.channel_ids;
    }

pub data SentRule : Type 0 where
  created : CreateAlertRuleData → SentRule
  updated : (id : String) → CreateAlertRuleData → SentRule

abbrev sent_rule : Option AlertRule → CreateAlertRuleData → SentRule
sent_rule none d = created d
sent_rule (some r) d = updated r.id d

abbrev pub sent_data : SentRule → CreateAlertRuleData
sent_data (created d) = d
sent_data (updated id d) = d

-- The request of a submission, or `none` where the fields are asked for again.
unfoldable pub submit : (String → String) → Option AlertRule → FullRuleForm → Option SentRule
unfolding rule_schema payload
submit trim rule f =
    if rule_schema trim f.values then some (sent_rule rule (payload trim f)) else none

-- What a rule has that the form can have sent.
abbrev pub fits_type : AlertRuleType → AlertMetric → Bool
fits_type AlertRuleType.resource AlertMetric.cpu = true
fits_type AlertRuleType.resource AlertMetric.memory = true
fits_type AlertRuleType.resource AlertMetric.disk = true
fits_type AlertRuleType.service AlertMetric.http_status = true
fits_type AlertRuleType.service AlertMetric.response_time = true
fits_type AlertRuleType.service AlertMetric.otel_metric = true
fits_type AlertRuleType.log AlertMetric.log_level = true
fits_type AlertRuleType.log AlertMetric.api_status_code = true
fits_type AlertRuleType.request AlertMetric.error_rate = true
fits_type AlertRuleType.request AlertMetric.latency_p95 = true
fits_type AlertRuleType.request AlertMetric.latency_p99 = true
fits_type _ _ = false

abbrev pub fits_name : (String → String) → AlertMetric → String → Bool
fits_name trim AlertMetric.otel_metric s = not (trim s == "")
fits_name trim _ s = s == ""

abbrev pub is_given : Option String → Bool
is_given none = true
is_given (some s) = not (s == "")

abbrev pub absent : Option String → Bool
absent none = true
absent (some s) = false

abbrev pub fits_scope : AlertRuleType → Option String → Option String → Bool
fits_scope AlertRuleType.resource key id = absent key && absent id
fits_scope AlertRuleType.request key id = not (absent key) || not (absent id)
fits_scope _ key id = true

abbrev pub fits_cooldown : AlertRuleType → Option ℕ → Bool
fits_cooldown AlertRuleType.service none = false
fits_cooldown AlertRuleType.service (some n) = leb n 0
fits_cooldown AlertRuleType.log none = false
fits_cooldown AlertRuleType.log (some n) = leb n 0
fits_cooldown _ c = cooldown_allowed c

abbrev pub aims_once : Option String → Option String → Option String → Bool
aims_once agent key none = true
aims_once agent key (some s) = absent agent && absent key

-- A rule is well-formed if its metric is one of its type, its texts are not blank, it is aimed at
-- one target, a request rule at a service, and its times are in their ranges.
pub record IsWellFormed (trim : String → String) (d : CreateAlertRuleData) : Type 0 where
  pub measured : fits_type d.type d.metric ≡ true
  pub named : (not (d.name == "") && not (trim d.name == "")) ≡ true
  pub metric_named : fits_name trim d.metric (or_else d.metric_name "") ≡ true
  pub given : (is_given d.agent_id && (is_given d.service_key && is_given d.service_id)) ≡ true
  pub aimed : aims_once d.agent_id d.service_key d.service_id ≡ true
  pub scoped : fits_scope d.type d.service_key d.service_id ≡ true
  pub lasts : duration_allowed d.duration ≡ true
  pub cools : fits_cooldown d.type d.cooldown ≡ true
  pub trimmed : trim (or_else d.message "") ≡ or_else d.message ""
