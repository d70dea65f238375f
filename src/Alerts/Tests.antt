-- ===== src/Alerts/Tests.antt =====
-- Runs of the targets of alert rules.
use everyup.Common.{some, ◌≡◌, refl}
use everyup.Alerts.Target.{
  AlertTarget, parse_alert_target, alert_rules_params, parse-alert_rules_params,
}

parse-alert_rules_params_example :
    parse_alert_target (alert_rules_params (AlertTarget.agent "a1" "nginx"))
    ≡ some (AlertTarget.agent "a1" "nginx")
parse-alert_rules_params_example =
    parse-alert_rules_params (AlertTarget.agent "a1" "nginx") (refl, refl)
