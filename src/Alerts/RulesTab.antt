-- ===== src/Alerts/RulesTab.antt =====
-- The list of alert rules: the filter and the order of the rows, and the handlers of the page, of
-- features/alerts/components/AlertRulesTab.tsx.
use everyup.Common.{
  ℕ, String, Bool, true, false, Option, some, none, List, not, ◌&&◌, ◌||◌, if◌then◌else◌, ◌==◌, ltb,
  nat_eq, keep, sort_by,
}
use everyup.Alerts.Target.{AlertRule, AlertSeverity, AlertTarget, matches_alert_target}
use everyup.Alerts.Labels.{CategoryKey, TargetRows, rule_category, target_label, category_text}

pub data SortKey : Type 0 where
  severity name target category : SortKey

pub data SortDir : Type 0 where
  asc desc : SortDir

-- The choices above the list; `none` is "all".
pub record RuleFilters : Type 0 where
  pub category_filter : Option CategoryKey
  pub severity_filter : Option AlertSeverity
  pub enabled_filter : Option Bool
  pub search_query : String

unfoldable pub clear_filters : RuleFilters → RuleFilters
clear_filters f = record {
  category_filter = none;
  severity_filter = none;
  enabled_filter = none;
  search_query = "";
}

abbrev pub severity_order : AlertSeverity → ℕ
severity_order AlertSeverity.critical = 0
severity_order AlertSeverity.warning = 1
severity_order AlertSeverity.info = 2

abbrev pub in_category : Option CategoryKey → AlertRule → Bool
in_category none r = true
in_category (some c) r = category_text (rule_category r) == category_text c

abbrev same_severity : AlertSeverity → AlertSeverity → Bool
same_severity AlertSeverity.critical AlertSeverity.critical = true
same_severity AlertSeverity.warning AlertSeverity.warning = true
same_severity AlertSeverity.info AlertSeverity.info = true
same_severity _ _ = false

abbrev pub has_severity : Option AlertSeverity → AlertRule → Bool
has_severity none r = true
has_severity (some s) r = same_severity r.severity s

abbrev pub has_state : Option Bool → AlertRule → Bool
has_state none r = true
has_state (some on) r = if on then r.is_enabled else not r.is_enabled

abbrev pub aimed_at : Option AlertTarget → AlertRule → Bool
aimed_at none r = true
aimed_at (some t) r = matches_alert_target r t

-- The sign of a comparison.
pub data Sign : Type 0 where
  negative zero positive : Sign

abbrev pub opposite : Sign → Sign
opposite Sign.negative = Sign.positive
opposite Sign.zero = Sign.zero
opposite Sign.positive = Sign.negative

abbrev pub not_positive : Sign → Bool
not_positive Sign.positive = false
not_positive _ = true

-- The sign of `m - n`.
abbrev difference : ℕ → ℕ → Sign
difference m n = if ltb m n then Sign.negative else if nat_eq m n then Sign.zero else Sign.positive

-- toLowerCase, includes and localeCompare of texts are the platform's.
module _ (to_lower : String → String) (contains : String → String → Bool)
    (locale_compare : String → String → Sign) (rows : TargetRows) where
  abbrev pub found : String → AlertRule → Bool
  found query r =
      if query == ""
      then true
      else contains (to_lower r.name) (to_lower query)
        || contains (to_lower (target_label rows r)) (to_lower query)

  unfoldable pub shows_rule : Option AlertTarget → RuleFilters → AlertRule → Bool
  shows_rule t f r =
      aimed_at t r
      && (in_category f.category_filter r
          && (has_severity f.severity_filter r
              && (has_state f.enabled_filter r && found f.search_query r)))

  unfoldable pub compare_rules : SortKey → AlertRule → AlertRule → Sign
  compare_rules SortKey.severity a b =
      difference (severity_order a.severity) (severity_order b.severity)
  compare_rules SortKey.name a b = locale_compare a.name b.name
  compare_rules SortKey.target a b = locale_compare (target_label rows a) (target_label rows b)
  compare_rules SortKey.category a b =
      locale_compare (category_text (rule_category a)) (category_text (rule_category b))

  abbrev directed : SortDir → Sign → Sign
  directed SortDir.asc v = v
  directed SortDir.desc v = opposite v

  unfoldable pub comes_before : SortKey → SortDir → AlertRule → AlertRule → Bool
  unfolding compare_rules
  comes_before k d a b = not_positive (directed d (compare_rules k a b))

  unfoldable pub filtered_rules :
      Option AlertTarget → RuleFilters → SortKey → SortDir → List AlertRule → List AlertRule
  unfolding shows_rule comes_before
  filtered_rules t f k d rules = sort_by (comes_before k d) (keep (shows_rule t f) rules)
