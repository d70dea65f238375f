-- ===== src/Alerts/Requests.antt =====
-- The requests of the alerts API, with their data and the query of the history:
-- services/api/alerts.ts.
use everyup.Common.{
  ℕ, String, Bool, Option, some, none, List, [], ◌∷◌, ◌++◌, if◌then◌else◌, ◌==◌, ◌+++◌, decimal,
  nat_eq,
}
use everyup.Alerts.Target.{AlertMetric, AlertRuleType, AlertOperator, AlertSeverity}
use everyup.Demo.Route.Client.{Sent}
use everyup.Demo.Route.Mutations.{Method}

-- A field that may be null and may be absent is `none`.
pub record CreateAlertRuleData : Type 0 where
  pub name : String
  pub type : AlertRuleType
  pub agent_id : Option String
  pub service_key : Option String
  pub service_id : Option String
  pub metric : AlertMetric
  pub metric_name : Option String
  pub operator : Option AlertOperator
  pub threshold : ℕ
  pub duration : Option ℕ
  pub severity : Option AlertSeverity
  pub is_enabled : Option Bool
  pub cooldown : Option ℕ
  pub message : Option String
  pub channel_ids : Option (List String)

pub record UpdateAlertRuleData : Type 0 where
  pub name : Option String
  pub agent_id : Option String
  pub service_key : Option String
  pub service_id : Option String
  pub metric : Option AlertMetric
  pub metric_name : Option String
  pub operator : Option AlertOperator
  pub threshold : Option ℕ
  pub duration : Option ℕ
  pub severity : Option AlertSeverity
  pub is_enabled : Option Bool
  pub cooldown : Option ℕ
  pub message : Option String
  pub channel_ids : Option (List String)

pub data ChannelConfig : Type 0 where
  telegram : (bot_token chat_id : String) → ChannelConfig
  discord slack : (webhook_url : String) → ChannelConfig

pub record CreateNotificationChannelData : Type 0 where
  pub name : String
  pub type : String
  pub config : ChannelConfig

pub record NotificationHistoryFilter : Type 0 where
  pub channel_id : Option String
  pub alert_type : Option String
  pub status : Option String
  pub q : Option String
  pub from : Option String
  pub to : Option String
  pub limit : Option ℕ
  pub offset : Option ℕ

-- `if (value) params.append(key, value)`, for texts and for numbers.
abbrev given : String → Option String → List (String × String)
given k none = []
given k (some v) = if v == "" then [] else (k, v) ∷ []

abbrev given_number : String → Option ℕ → List (String × String)
given_number k none = []
given_number k (some n) = if nat_eq n 0 then [] else (k, decimal n) ∷ []

unfoldable pub history_params : NotificationHistoryFilter → List (String × String)
history_params f =
    given "channel_id" f.channel_id
    ++ (given "alert_type" f.alert_type
        ++ (given "status" f.status
            ++ (given "q" f.q
                ++ (given "from" f.from
                    ++ (given "to" f.to
                        ++ (given_number "limit" f.limit ++ given_number "offset" f.offset))))))

abbrev no_filter : NotificationHistoryFilter
no_filter = record {
  channel_id = none;
  alert_type = none;
  status = none;
  q = none;
  from = none;
  to = none;
  limit = none;
  offset = none;
}

pub data AlertsCall : Type 0 where
  get_alert_rules get_notification_channels get_settings reset_account : AlertsCall
  get_alert_rule_by_id delete_alert_rule toggle_alert_rule : (id : String) → AlertsCall
  create_alert_rule : CreateAlertRuleData → AlertsCall
  update_alert_rule : (id : String) → UpdateAlertRuleData → AlertsCall
  get_notification_channel_health get_notification_history_stats : (days : Option ℕ) → AlertsCall
  cleanup_notification_history : (days : Option ℕ) → AlertsCall
  create_notification_channel test_notification_channel_config :
      CreateNotificationChannelData → AlertsCall
  update_notification_channel : (id : String) → CreateNotificationChannelData → AlertsCall
  toggle_notification_channel test_notification_channel : (id : String) → AlertsCall
  delete_notification_channel : (id : String) → AlertsCall
  get_notification_history : Option NotificationHistoryFilter → AlertsCall
  get_notification_history_by_id : (id : ℕ) → AlertsCall
  update_settings : AlertsCall

abbrev sent : Method → String → Sent
sent m e = record { method = m; endpoint = e }

-- The default of a parameter.
abbrev days_or : ℕ → Option ℕ → String
days_or d none = decimal d
days_or d (some n) = decimal n

abbrev filter_params : Option NotificationHistoryFilter → List (String × String)
filter_params none = history_params no_filter
filter_params (some f) = history_params f

-- `queryString ? ... : ...`, with `toString` of URLSearchParams as `query`.
abbrev history_endpoint : String → String
history_endpoint query =
    if query == "" then "/notification-history" else "/notification-history?" +++ query

unfoldable pub alerts_api : (List (String × String) → String) → AlertsCall → Sent
alerts_api query AlertsCall.get_alert_rules = sent Method.get "/alert-rules"
alerts_api query (AlertsCall.get_alert_rule_by_id id) = sent Method.get ("/alert-rules/" +++ id)
alerts_api query (AlertsCall.create_alert_rule rule) = sent Method.post "/alert-rules"
alerts_api query (AlertsCall.update_alert_rule id rule) = sent Method.put ("/alert-rules/" +++ id)
alerts_api query (AlertsCall.delete_alert_rule id) = sent Method.delete ("/alert-rules/" +++ id)
alerts_api query (AlertsCall.toggle_alert_rule id) =
    sent Method.post ("/alert-rules/" +++ id +++ "/toggle")
alerts_api query AlertsCall.get_notification_channels = sent Method.get "/notifications"
alerts_api query (AlertsCall.get_notification_channel_health days) =
    sent Method.get ("/notifications/health?days=" +++ days_or 7 days)
alerts_api query (AlertsCall.create_notification_channel channel) =
    sent Method.post "/notifications"
alerts_api query (AlertsCall.update_notification_channel id channel) =
    sent Method.put ("/notifications/" +++ id)
alerts_api query (AlertsCall.toggle_notification_channel id) =
    sent Method.post ("/notifications/" +++ id +++ "/toggle")
alerts_api query (AlertsCall.test_notification_channel id) =
    sent Method.post ("/notifications/" +++ id +++ "/test")
alerts_api query (AlertsCall.test_notification_channel_config channel) =
    sent Method.post "/notifications/test"
alerts_api query (AlertsCall.delete_notification_channel id) =
    sent Method.delete ("/notifications/" +++ id)
alerts_api query (AlertsCall.get_notification_history filter) =
    sent Method.get (history_endpoint (query (filter_params filter)))
alerts_api query (AlertsCall.get_notification_history_stats days) =
    sent Method.get ("/notification-history/stats?days=" +++ days_or 7 days)
alerts_api query (AlertsCall.get_notification_history_by_id id) =
    sent Method.get ("/notification-history/" +++ decimal id)
alerts_api query (AlertsCall.cleanup_notification_history days) =
    sent Method.delete ("/notification-history/cleanup?days=" +++ days_or 30 days)
alerts_api query AlertsCall.get_settings = sent Method.get "/settings"
alerts_api query AlertsCall.update_settings = sent Method.put "/settings"
alerts_api query AlertsCall.reset_account = sent Method.post "/auth/reset"
