-- ===== src/Alerts/Rules/Form.antt =====
-- The form of an alert rule and its handlers: FullRuleForm of
-- features/alerts/components/AlertRuleForm.tsx. Thresholds and times are natural numbers, so the
-- lower bound 0 of the schema always holds.
use everyup.Common.{
  ℕ, String, Option, some, none, List, [], ◌∷◌, ◌++◌, if◌then◌else◌, nat_eq, or_else, keep,
  includes, not, ◌==◌, decimal,
}
use everyup.Alerts.Target.{AlertMetric, AlertOperator, AlertRule, AlertRuleType, AlertSeverity}
use everyup.Alerts.Rules.Presets.{
  ConditionPreset, PresetValues, get_preset_values, detect_condition_preset,
}

pub data RuleCategory : Type 0 where
  resource endpoint request log metric : RuleCategory

-- A number input that is empty is NaN, here `none`.
pub record RuleFormValues : Type 0 where
  pub name : String
  pub rule_category : RuleCategory
  pub metric : AlertMetric
  pub metric_name : String
  pub agent_id : String
  pub service_key : String
  pub service_id : String
  pub operator : AlertOperator
  pub threshold : ℕ
  pub duration : Option ℕ
  pub severity : AlertSeverity
  pub cooldown : Option ℕ
  pub channel_ids : List String

-- The state of the form: its values and the three states beside them.
pub record FullRuleForm : Type 0 where
  pub values : RuleFormValues
  pub condition_preset : ConditionPreset
  pub custom_message : String
  pub custom_threshold : String

unfoldable pub new_form : FullRuleForm
new_form = record {
  values = record {
    name = "";
    rule_category = RuleCategory.endpoint;
    metric = AlertMetric.http_status;
    metric_name = "";
    agent_id = "";
    service_key = "";
    service_id = "";
    operator = AlertOperator.gte;
    threshold = 400;
    duration = some 1;
    severity = AlertSeverity.warning;
    cooldown = some 300;
    channel_ids = [];
  };
  condition_preset = ConditionPreset.error;
  custom_message = "";
  custom_threshold = "";
}

abbrev type_category : AlertRuleType → RuleCategory
type_category AlertRuleType.request = RuleCategory.request
type_category AlertRuleType.service = RuleCategory.endpoint
type_category AlertRuleType.log = RuleCategory.log
type_category _ = RuleCategory.resource

abbrev pub category_of_rule : AlertMetric → AlertRuleType → RuleCategory
category_of_rule AlertMetric.otel_metric t = RuleCategory.metric
category_of_rule _ t = type_category t

-- `rule.cooldown || 300`.
abbrev pub cooldown_or : ℕ → ℕ → ℕ
cooldown_or d n = if nat_eq n 0 then d else n

abbrev load_values : AlertRule → RuleFormValues
load_values r = record {
  name = r.name;
  rule_category = category_of_rule r.metric r.type;
  metric = r.metric;
  metric_name = or_else r.metric_name "";
  agent_id = or_else r.agent_id "";
  service_key = or_else r.service_key "";
  service_id = or_else r.service_id "";
  operator = r.operator;
  threshold = r.threshold;
  duration = some r.duration;
  severity = r.severity;
  cooldown = some (cooldown_or 300 r.cooldown);
  channel_ids = r.channel_ids;
}

abbrev loaded_threshold : ConditionPreset → ℕ → String → String
loaded_threshold ConditionPreset.custom n s = decimal n
loaded_threshold _ n s = s

-- The effect that shows the rule to edit.
unfoldable pub load_rule : AlertRule → FullRuleForm → FullRuleForm
load_rule r f =
    let preset = detect_condition_preset r.metric r.operator r.threshold r.duration in
    record {
      values = load_values r;
      condition_preset = preset;
      custom_message = or_else r.message "";
      custom_threshold = loaded_threshold preset r.threshold f.custom_threshold;
    }

abbrev pub set_duration : Option ℕ → RuleFormValues → RuleFormValues
set_duration none v = v
set_duration (some n) v = record v { duration = some n }

abbrev pub set_preset : Option PresetValues → RuleFormValues → RuleFormValues
set_preset none v = v
set_preset (some p) v =
    set_duration p.duration (record v { operator = p.operator; threshold = p.threshold })

unfoldable pub apply_preset : ConditionPreset → AlertMetric → FullRuleForm → FullRuleForm
apply_preset p m f = record f {
  values = set_preset (get_preset_values m p) f.values;
  condition_preset = p;
}

abbrev pub new_metric : RuleCategory → AlertMetric
new_metric RuleCategory.resource = AlertMetric.cpu
new_metric RuleCategory.log = AlertMetric.log_level
new_metric RuleCategory.metric = AlertMetric.otel_metric
new_metric RuleCategory.request = AlertMetric.error_rate
new_metric RuleCategory.endpoint = AlertMetric.http_status

abbrev pub first_preset : RuleCategory → ConditionPreset
first_preset RuleCategory.metric = ConditionPreset.custom
first_preset _ = ConditionPreset.error

abbrev pub cleared : RuleCategory → RuleFormValues → RuleFormValues
cleared c v = record v {
  rule_category = c;
  agent_id = "";
  service_key = "";
  service_id = "";
  metric_name = "";
  metric = new_metric c;
}

unfoldable pub handle_category_change : RuleCategory → FullRuleForm → FullRuleForm
unfolding apply_preset
handle_category_change c f =
    apply_preset (first_preset c) (new_metric c) (record f { values = cleared c f.values })

unfoldable pub handle_metric_change : AlertMetric → FullRuleForm → FullRuleForm
unfolding apply_preset
handle_metric_change m f =
    apply_preset ConditionPreset.error m (record f { values = record f.values { metric = m } })

abbrev chosen_threshold : ConditionPreset → ℕ → String
chosen_threshold ConditionPreset.custom n = decimal n
chosen_threshold _ n = ""

unfoldable pub handle_condition_preset : ConditionPreset → FullRuleForm → FullRuleForm
unfolding apply_preset
handle_condition_preset p f = record (apply_preset p f.values.metric f) {
  custom_threshold = chosen_threshold p f.values.threshold;
}

-- The next list of chosen channels, here and in SystemRuleEditor.
unfoldable pub toggled : String → List String → List String
toggled id ids = if includes id ids then keep (λ c. not (c == id)) ids else ids ++ id ∷ []

unfoldable pub handle_toggle_channel : String → FullRuleForm → FullRuleForm
unfolding toggled
handle_toggle_channel id f = record f {
  values = record f.values { channel_ids = toggled id f.values.channel_ids };
}

abbrev target_ids : String → String → String → RuleFormValues → RuleFormValues
target_ids a k s v = record v { agent_id = a; service_key = k; service_id = s }

-- The select of a service: the empty option, or the two parts of the value around ":::".
unfoldable pub choose_service : Option (String × String) → FullRuleForm → FullRuleForm
choose_service none f = record f { values = target_ids "" "" "" f.values }
choose_service (some (scope, key)) f = record f {
  values =
      if scope == "direct" then target_ids "" "" key f.values else target_ids scope key "" f.values;
}

-- The select of a host.
unfoldable pub choose_resource : String → FullRuleForm → FullRuleForm
choose_resource id f = record f { values = record f.values { agent_id = id; service_key = "" } }

-- The input of the threshold, with what parseFloat makes of the text.
unfoldable pub type_threshold : String → Option ℕ → FullRuleForm → FullRuleForm
type_threshold text none f = record f { custom_threshold = text }
type_threshold text (some n) f = record f {
  values = record f.values { threshold = n };
  custom_threshold = text;
}
