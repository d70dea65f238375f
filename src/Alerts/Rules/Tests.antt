-- ===== src/Alerts/Rules/Tests.antt =====
-- Runs of the form of an alert rule.
use everyup.Common.{String, true, false, some, none, [], ◌∷◌, ◌≡◌, ◌≢◌, refl, or_else, Distinct}
use everyup.Alerts.Target.{AlertMetric, AlertOperator, AlertRule, AlertRuleType, AlertSeverity}
use everyup.Alerts.Rules.Presets.{
  ConditionPreset, HasValues, get_preset_values, detect_condition_preset,
  detect_condition_preset_lem,
}
use everyup.Alerts.Rules.Form.{
  RuleCategory, FullRuleForm, new_form, load_rule, handle_category_change, apply_preset,
  choose_service,
}
use everyup.Alerts.Rules.Submit.{IsWellFormed, SentRule, submit, payload, rule_schema}
use everyup.Alerts.Rules.Reopen.{data_of, reopened, submit-load_rule}
use everyup.Alerts.Rules.Steps.{Event, IsCoherent}
use everyup.Alerts.Rules.Sessions.{Session, IsLoadable, Session-IsCoherent, submit-IsWellFormed}

-- Texts without white space at their ends.
abbrev trim : String → String
trim s = s

abbrev host_rule : AlertRule
host_rule = record {
  id = "r1";
  name = "cpu";
  type = AlertRuleType.resource;
  agent_id = some "a1";
  service_key = none;
  service_id = none;
  metric = AlertMetric.cpu;
  metric_name = none;
  operator = AlertOperator.gt;
  threshold = 80;
  duration = 3;
  severity = AlertSeverity.warning;
  is_enabled = true;
  is_system = false;
  cooldown = 0;
  message = none;
  channel_ids = "c1" ∷ [];
  last_triggered_at = none;
  created_at = 100;
  updated_at = 100;
}

host_rule-IsWellFormed : IsWellFormed trim (data_of host_rule)
host_rule-IsWellFormed = record {
  measured = refl;
  named = refl;
  metric_named = refl;
  given = refl;
  aimed = refl;
  scoped = refl;
  lasts = refl;
  cools = refl;
  trimmed = refl;
}

-- The cooldown of 0 is sent as 300.
reopened_zero : (reopened host_rule).cooldown ≡ some 300
reopened_zero = refl

submit-load_rule_example :
    submit trim (some host_rule) (load_rule host_rule new_form)
    ≡ some (SentRule.updated "r1" (reopened host_rule))
submit-load_rule_example = submit-load_rule trim host_rule new_form host_rule-IsWellFormed

detect_condition_preset_lem_example :
    HasValues
      (get_preset_values AlertMetric.cpu
        (detect_condition_preset AlertMetric.cpu AlertOperator.gt 80 3))
      AlertOperator.gt
      80
      (some 3)
    × ((p : ConditionPreset)
        → p ≢ ConditionPreset.custom
        → HasValues (get_preset_values AlertMetric.cpu p) AlertOperator.gt 80 (some 3)
        → detect_condition_preset AlertMetric.cpu AlertOperator.gt 80 3 ≡ p)
detect_condition_preset_lem_example =
    detect_condition_preset_lem AlertMetric.cpu AlertOperator.gt 80 3

-- A request rule on a service of its own, made from the new form.
abbrev request_form : FullRuleForm
request_form = handle_category_change RuleCategory.request new_form

abbrev aimed_form : FullRuleForm
aimed_form = choose_service (some ("direct", "s1")) request_form

abbrev named_form : FullRuleForm
named_form = record aimed_form { values = record aimed_form.values { name = "errors" } }

named_form-Session : Session named_form
unfolding new_form handle_category_change apply_preset get_preset_values
named_form-Session =
    Session.next _ _
      (Session.next _ _
        (Session.next _ _ Session.opened (Event.category_changed RuleCategory.request))
        (Event.service_chosen (some ("direct", "s1")) refl))
      (Event.named "errors")

Session-IsCoherent_example : IsCoherent named_form
Session-IsCoherent_example = Session-IsCoherent named_form named_form-Session

named_form_sent : submit trim none named_form ≡ some (SentRule.created (payload trim named_form))
unfolding submit rule_schema new_form handle_category_change apply_preset choose_service
    get_preset_values
named_form_sent = refl

submit-IsWellFormed_example :
    IsWellFormed trim (payload trim named_form)
    × Distinct (or_else (payload trim named_form).channel_ids [])
submit-IsWellFormed_example =
    submit-IsWellFormed trim none named_form (SentRule.created (payload trim named_form))
      (λ t. refl) named_form-Session named_form_sent

-- The category of metrics keeps the threshold of the category before it, and shows none.
metric_threshold :
    ((handle_category_change RuleCategory.metric new_form).values.threshold ≡ 400)
    × ((handle_category_change RuleCategory.metric new_form).custom_threshold ≡ "")
unfolding handle_category_change apply_preset get_preset_values new_form
metric_threshold = (refl, refl)

-- A request rule on an OTel metric, as the demo has one, can be shown.
abbrev queue_rule : AlertRule
queue_rule = record host_rule {
  type = AlertRuleType.request;
  agent_id = none;
  service_id = some "s1";
  metric = AlertMetric.otel_metric;
  metric_name = some "queue.messages.pending";
}

queue_rule-IsLoadable : IsLoadable queue_rule
queue_rule-IsLoadable = record {
  measured = refl;
  metric_named = refl;
  aimed = refl;
  channels = (refl, tt);
}
