-- ===== src/Alerts/Rules/Display.antt =====
-- The default message of a rule and the editor of a system rule: buildDefaultMessage and
-- SystemRuleEditor of features/alerts/components/AlertRuleForm.tsx.
use everyup.Common.{
  ℕ, String, some, none, List, ◌+++◌, decimal, or_else, if◌then◌else◌, length, nat_eq,
}
use everyup.Alerts.Target.{AlertMetric, AlertOperator, AlertRule}
use everyup.Alerts.Requests.{UpdateAlertRuleData}
use everyup.Alerts.Rules.Form.{toggled}

-- OPERATOR_SYMBOLS.
abbrev pub operator_symbol : AlertOperator → String
operator_symbol AlertOperator.gt = ">"
operator_symbol AlertOperator.gte = ">="
operator_symbol AlertOperator.lt = "<"
operator_symbol AlertOperator.lte = "<="
operator_symbol AlertOperator.eq = "="

abbrev window_message : String → String → ℕ → ℕ → String
window_message label op threshold duration =
    "{service_name}: "
    +++ label
    +++ " {value} over the last "
    +++ decimal duration
    +++ "min (threshold "
    +++ op
    +++ " {threshold})"

abbrev usage_message : String → String → ℕ → ℕ → String
usage_message label op threshold duration =
    label
    +++ " usage "
    +++ op
    +++ " "
    +++ decimal threshold
    +++ "%, sustained for "
    +++ decimal duration
    +++ "min on {host_name}"

unfoldable pub build_default_message : AlertMetric → AlertOperator → ℕ → ℕ → String
build_default_message m o threshold duration =
    let op = operator_symbol o in
    elim m [
      | AlertMetric.http_status ↦
          "HTTP Status " +++ op +++ " " +++ decimal threshold +++ " detected"
      | AlertMetric.response_time ↦
          "Response Time " +++ op +++ " " +++ decimal threshold +++ "ms detected"
      | AlertMetric.log_level ↦ "Log {level}: {message}"
      | AlertMetric.api_status_code ↦ "{method} {path} → {status} ({duration}ms)"
      | AlertMetric.otel_metric ↦
          "{service_name} {metric} = {value} (threshold " +++ op +++ " {threshold})"
      | AlertMetric.error_rate ↦ window_message "error rate" op threshold duration
      | AlertMetric.latency_p95 ↦ window_message "p95 latency" op threshold duration
      | AlertMetric.latency_p99 ↦ window_message "p99 latency" op threshold duration
      | AlertMetric.cpu ↦ usage_message "CPU" op threshold duration
      | AlertMetric.memory ↦ usage_message "Memory" op threshold duration
      | AlertMetric.disk ↦ usage_message "Disk" op threshold duration
      | AlertMetric.status_change ↦ usage_message "STATUS_CHANGE" op threshold duration
    ]

pub record SystemRuleEditor : Type 0 where
  pub message : String
  pub selected_channels : List String

unfoldable pub open_system_rule : AlertRule → SystemRuleEditor
open_system_rule r = record { message = or_else r.message ""; selected_channels = r.channel_ids }

-- No channel means all of them.
unfoldable pub effective_channel_count : ℕ → SystemRuleEditor → ℕ
effective_channel_count all e =
    if nat_eq (length e.selected_channels) 0 then all else length e.selected_channels

unfoldable pub toggle_system_channel : String → SystemRuleEditor → SystemRuleEditor
unfolding toggled
toggle_system_channel id e = record e { selected_channels = toggled id e.selected_channels }

-- Only the message and the channels are sent.
unfoldable pub submit_system_rule : SystemRuleEditor → UpdateAlertRuleData
submit_system_rule e = record {
  name = none;
  agent_id = none;
  service_key = none;
  service_id = none;
  metric = none;
  metric_name = none;
  operator = none;
  threshold = none;
  duration = none;
  severity = none;
  is_enabled = none;
  cooldown = none;
  message = some e.message;
  channel_ids = some e.selected_channels;
}
