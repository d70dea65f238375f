-- ===== src/Alerts/PageTests.antt =====
-- Runs of the list of alert rules and of the form of a channel.
use everyup.Common.{
  ◌↔◌, String, Bool, true, false, Option, some, none, List, [], ◌∷◌, ◌≡◌, refl, ◌&&◌, ◌==◌, keep,
  IsSorted, arith,
}
use everyup.Alerts.Target.{AlertMetric, AlertOperator, AlertRule, AlertRuleType, AlertSeverity}
use everyup.Alerts.Labels.{TargetRows}
use everyup.Alerts.RulesTab.{
  SortKey, SortDir, RuleFilters, Sign, opposite, not_positive, shows_rule, filtered_rules,
}
use everyup.Alerts.RulesOrder.{precedes, MeetsAll, filtered_rules-IsSorted}
use everyup.Alerts.RulesPage.{
  RulesData, World, PageReached, PageEvent, new_page, start_toggle, settle_toggle,
}
use everyup.Alerts.RulesPage
use everyup.Alerts.RulesSettling.{IsSettling, PageReached-IsSettling}
use everyup.Alerts.Channels.{
  ChannelType, ChannelFormValues, ParsedConfig, TextLength, SentChannel, channel_schema,
  build_payload, built_config, load_channel, parsed, submit_channel, is_web_url,
}
use everyup.Alerts.ChannelLaws.{config_fields, stored, submit_channel-load_channel}

abbrev rule_named : String → AlertSeverity → AlertRule
rule_named name s = record {
  id = name;
  name = name;
  type = AlertRuleType.resource;
  agent_id = some "a1";
  service_key = none;
  service_id = none;
  metric = AlertMetric.cpu;
  metric_name = none;
  operator = AlertOperator.gt;
  threshold = 90;
  duration = 3;
  severity = s;
  is_enabled = true;
  is_system = false;
  cooldown = 300;
  message = none;
  channel_ids = [];
  last_triggered_at = none;
  created_at = 100;
  updated_at = 100;
}

-- A comparison that puts the text "a" before all others.
abbrev signed : Bool → Bool → Sign
signed true false = Sign.negative
signed false true = Sign.positive
signed _ _ = Sign.zero

abbrev a_first : String → String → Sign
a_first s t = signed (s == "a") (t == "a")

a_first_reversed : (s t : String) → a_first t s ≡ opposite (a_first s t)
a_first_reversed s t = ground arith

a_first_chained :
    (s t u : String)
    → not_positive (a_first s t) ≡ true
    → not_positive (a_first t u) ≡ true
    → not_positive (a_first s u) ≡ true
a_first_chained s t u h k = ground arith

abbrev no_targets : TargetRows
no_targets = record {
  agent_services = [];
  agents = [];
  direct_services = [];
  infrastructure_resources = [];
}

abbrev no_filters : RuleFilters
no_filters = record {
  category_filter = none;
  severity_filter = none;
  enabled_filter = none;
  search_query = "";
}

abbrev two_rules : List AlertRule
two_rules = rule_named "b" AlertSeverity.info ∷ rule_named "a" AlertSeverity.critical ∷ []

abbrev lower : String → String
lower s = s

abbrev contains : String → String → Bool
contains s t = s == t

filtered_rules-IsSorted_example :
    IsSorted (precedes lower contains a_first no_targets SortKey.name SortDir.desc) (
      filtered_rules lower contains a_first no_targets none no_filters SortKey.name SortDir.desc
        two_rules)
    × (((a : AlertRule)
          → keep
              (λ b.
                precedes lower contains a_first no_targets SortKey.name SortDir.desc a b
                && precedes lower contains a_first no_targets SortKey.name SortDir.desc b a)
              (filtered_rules lower contains a_first no_targets none no_filters SortKey.name
                SortDir.desc two_rules)
            ≡ keep
                (λ b.
                  precedes lower contains a_first no_targets SortKey.name SortDir.desc a b
                  && precedes lower contains a_first no_targets SortKey.name SortDir.desc b a)
                (keep (shows_rule lower contains a_first no_targets none no_filters) two_rules))
        × ((r : AlertRule)
            → (shows_rule lower contains a_first no_targets none no_filters r ≡ true)
              ↔ MeetsAll lower contains a_first no_targets none no_filters r))
filtered_rules-IsSorted_example =
    filtered_rules-IsSorted lower contains a_first no_targets a_first_reversed a_first_chained none
      no_filters SortKey.name SortDir.desc two_rules

abbrev opened_world : World
opened_world = record { page = new_page no_targets; toggles = []; edits = [] }

abbrev toggled_world : World
toggled_world = record {
  page = start_toggle "r1" (new_page no_targets);
  toggles = "r1" ∷ [];
  edits = [];
}

toggled_world-PageReached : PageReached no_targets toggled_world
unfolding new_page
toggled_world-PageReached =
    RulesPage.next opened_world _ RulesPage.start (RulesPage.toggle_asked "r1" refl)

PageReached-IsSettling_example : IsSettling toggled_world
PageReached-IsSettling_example =
    PageReached-IsSettling no_targets toggled_world toggled_world-PageReached

-- Texts without white space, all of them long enough.
abbrev plain : TextLength
plain = record { trim = λ s. s; size = λ s. 4 }

abbrev alarm : ChannelFormValues
alarm = record {
  name = "alarm";
  type = ChannelType.slack;
  bot_token = "";
  chat_id = "";
  webhook_url = "https://hooks.test/1";
}

abbrev parse_any : String → Option ParsedConfig
parse_any s = some (config_fields (built_config alarm))

alarm_sent :
    submit_channel plain none alarm
    ≡ some (SentChannel.created (build_payload (parsed plain alarm)))
unfolding submit_channel channel_schema is_web_url
alarm_sent = refl

alarm_valid : channel_schema plain alarm ≡ true
unfolding channel_schema is_web_url
alarm_valid = refl

submit_channel-load_channel_example :
    submit_channel plain
      (some (stored "c1" alarm "{}" 100))
      (load_channel parse_any (some (stored "c1" alarm "{}" 100)))
    ≡ some (SentChannel.updated "c1" (build_payload alarm))
submit_channel-load_channel_example =
    submit_channel-load_channel plain parse_any "c1" "{}" alarm 100 alarm_valid refl refl
