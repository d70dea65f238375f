-- ===== src/Alerts/Rules/Reopen.antt =====
-- Opening a rule in the form of features/alerts/components/AlertRuleForm.tsx and saving it as it is.
use everyup.Common.{
  ℕ, String, true, Option, some, none, ◌≡◌, refl, not, ◌&&◌, if◌then◌else◌, nat_eq, or_else, ◌==◌,
  eq_iff, arith,
}
use everyup.Alerts.Target.{AlertMetric, AlertRule, AlertRuleType}
use everyup.Alerts.Requests.{CreateAlertRuleData}
use everyup.Alerts.Rules.Form.{FullRuleForm, load_rule, category_of_rule, cooldown_or}
use everyup.Alerts.Rules.Submit.{
  is_form_metric, is_metric, is_request, is_scoped, IsWellFormed, SentRule, submit, rule_schema,
  payload, fits_type, fits_name, fits_scope, is_given, fits_cooldown, cooldown_allowed, or_null,
  payload_type,
}

-- The data of a rule, as a request spells them.
abbrev pub data_of : AlertRule → CreateAlertRuleData
data_of r = record {
  name = r.name;
  type = r.type;
  metric = r.metric;
  metric_name = some (or_else r.metric_name "");
  agent_id = r.agent_id;
  service_key = r.service_key;
  service_id = r.service_id;
  operator = some r.operator;
  threshold = r.threshold;
  duration = some r.duration;
  severity = some r.severity;
  is_enabled = none;
  cooldown = some r.cooldown;
  message = some (or_else r.message "");
  channel_ids = some r.channel_ids;
}

-- A cooldown of 0 where the type has one becomes 300.
abbrev pub reopened_cooldown : AlertRuleType → ℕ → ℕ
reopened_cooldown AlertRuleType.service n = n
reopened_cooldown AlertRuleType.log n = n
reopened_cooldown _ n = if nat_eq n 0 then 300 else n

abbrev pub reopened : AlertRule → CreateAlertRuleData
reopened r = record (data_of r) { cooldown = some (reopened_cooldown r.type r.cooldown) }

type_again :
    (t : AlertRuleType) (m : AlertMetric)
    → fits_type t m ≡ true
    → payload_type (category_of_rule m t) ≡ t
type_again t m h = ground arith

null_again : (o : Option String) → is_given o ≡ true → or_null (or_else o "") ≡ o
null_again none h = refl
null_again (some s) h = ground arith

name_again :
    (trim : String → String) (t : AlertRuleType) (m : AlertMetric) (s : String)
    → fits_type t m ≡ true
    → fits_name trim m s ≡ true
    → (if is_metric (category_of_rule m t) then s else "") ≡ s
name_again trim t m s h k = ground (arith, eq_iff s "")

scope_again :
    (t : AlertRuleType) (m : AlertMetric) (o : Option String)
    → fits_type t m ≡ true
    → is_given o ≡ true
    → (t ≡ AlertRuleType.resource → o ≡ none)
    → (if is_scoped (category_of_rule m t) then or_null (or_else o "") else none) ≡ o
scope_again t m o h g e = ground (arith, null_again o g)

cooldown_again :
    (t : AlertRuleType) (m : AlertMetric) (n : ℕ)
    → fits_type t m ≡ true
    → fits_cooldown t (some n) ≡ true
    → (if is_scoped (category_of_rule m t) && not (is_request (category_of_rule m t))
        then some 0
        else some (cooldown_or 300 n))
      ≡ some (reopened_cooldown t n)
cooldown_again t m n h k = ground arith

allowed_again :
    (t : AlertRuleType) (n : ℕ)
    → fits_cooldown t (some n) ≡ true
    → cooldown_allowed (some (cooldown_or 300 n)) ≡ true
allowed_again t n h = ground arith

-- A rule of a metric has its name, and a request rule has a service.
asked_again :
    (trim : String → String) (t : AlertRuleType) (m : AlertMetric) (s : String)
    (key id : Option String)
    → fits_type t m ≡ true
    → fits_name trim m s ≡ true
    → (is_given key && is_given id) ≡ true
    → fits_scope t key id ≡ true
    → (is_form_metric m
        && (not (is_metric (category_of_rule m t) && (trim s == ""))
            && not (
                is_request (category_of_rule m t)
                && (or_else key "" == "" && (or_else id "" == "")))))
      ≡ true
asked_again trim t m s key id h k g e = ground arith

schema_again :
    (trim : String → String) (r : AlertRule) (f : FullRuleForm)
    → IsWellFormed trim (data_of r)
    → rule_schema trim (load_rule r f).values ≡ true
unfolding rule_schema load_rule
schema_again trim r f w = ground (
  arith,
  w.named,
  w.lasts,
  allowed_again r.type r.cooldown w.cools,
  asked_again trim r.type r.metric (or_else r.metric_name "") r.service_key r.service_id,
)

payload_again :
    (trim : String → String) (r : AlertRule) (f : FullRuleForm)
    → IsWellFormed trim (data_of r)
    → payload trim (load_rule r f) ≡ reopened r
unfolding payload load_rule
payload_again trim r f w =
    rw
      (
        name_again trim r.type r.metric (or_else r.metric_name "") w.measured w.metric_named,
        scope_again r.type r.metric r.service_key w.measured (ground arith) (λ e. ground arith),
        scope_again r.type r.metric r.service_id w.measured (ground arith) (λ e. ground arith),
        null_again r.agent_id (ground arith),
        cooldown_again r.type r.metric r.cooldown w.measured w.cools,
        w.trimmed,
        type_again r.type r.metric w.measured,
      )
      refl

-- A rule that the form can have sent is, when it is opened and saved as it is, sent again with all
-- that it has, but with the cooldown 300 in place of 0 if its type has a cooldown.
pub submit-load_rule :
    (trim : String → String) (r : AlertRule) (f : FullRuleForm)
    → IsWellFormed trim (data_of r)
    → submit trim (some r) (load_rule r f) ≡ some (SentRule.updated r.id (reopened r))
unfolding submit
submit-load_rule trim r f w = rw (schema_again trim r f w, payload_again trim r f w) refl
