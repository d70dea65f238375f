-- ===== src/Alerts/Rules/Sessions.antt =====
-- The form of features/alerts/components/AlertRuleForm.tsx from the moment it is opened to the
-- request it sends.
use everyup.Common.{
  ℕ, String, true, Option, some, none, [], ◌≡◌, refl, not, ◌&&◌, or_else, if◌then◌else◌, ◌==◌,
  arith, Distinct,
}
use everyup.Alerts.Target.{AlertMetric, AlertRule, AlertRuleType}
use everyup.Alerts.Rules.Presets.{get_preset_values, detect_condition_preset_lem}
use everyup.Alerts.Rules.Form.{RuleCategory, FullRuleForm, new_form, load_rule, category_of_rule}
use everyup.Alerts.Rules.Submit.{
  IsWellFormed, SentRule, submit, sent_data, rule_schema, payload, payload_type, or_null, fits_type,
  fits_name, fits_scope, fits_cooldown, is_given, aims_once, cooldown_allowed, is_metric,
  is_request, is_scoped,
}
use everyup.Alerts.Rules.Reopen.{data_of}
use everyup.Alerts.Rules.Steps.{
  IsCoherent, Event, Event-IsCoherent, fits_category, name_kept, one_target, offers,
}

-- A rule that the form can show: its metric is one that its type has, only an OTel metric has a name,
-- it has one target, and it names no channel twice. Its name, its message, its threshold, its duration
-- and its cooldown may be any.
pub record IsLoadable (r : AlertRule) : Type 0 where
  pub measured : fits_category (category_of_rule r.metric r.type) r.metric ≡ true
  pub metric_named : name_kept (category_of_rule r.metric r.type) (or_else r.metric_name "") ≡ true
  pub aimed :
      one_target
        (category_of_rule r.metric r.type)
        (or_else r.agent_id "")
        (or_else r.service_key "")
        (or_else r.service_id "")
      ≡ true
  pub channels : Distinct r.channel_ids

-- The forms that come of a new rule, or of one that the form can show, by any events.
pub data Session : FullRuleForm → Type 0 where
  opened : Session new_form
  loaded : (r : AlertRule) → IsLoadable r → Session (load_rule r new_form)
  next : (f g : FullRuleForm) → Session f → Event f g → Session g

opened-IsCoherent : IsCoherent new_form
unfolding new_form get_preset_values offers
opened-IsCoherent = (refl, ((refl, (refl, tt)), (refl, (refl, tt))))

category_fits :
    (t : AlertRuleType) (m : AlertMetric)
    → fits_type t m ≡ true
    → fits_category (category_of_rule m t) m ≡ true
unfolding offers
category_fits t m h = ground arith

name_fits :
    (trim : String → String) (t : AlertRuleType) (m : AlertMetric) (s : String)
    → fits_type t m ≡ true
    → fits_name trim m s ≡ true
    → name_kept (category_of_rule m t) s ≡ true
name_fits trim t m s h k = ground arith

target_fits :
    (t : AlertRuleType) (m : AlertMetric) (a k s : Option String)
    → fits_type t m ≡ true
    → aims_once a k s ≡ true
    → fits_scope t k s ≡ true
    → one_target (category_of_rule m t) (or_else a "") (or_else k "") (or_else s "") ≡ true
target_fits t m a none none h e g = ground arith
target_fits t m a (some k) none h e g = ground arith
target_fits t m none none (some s) h e g = ground arith
target_fits t m (some a) none (some s) h e g = absurd (ground arith)
target_fits t m a (some k) (some s) h e g = absurd (ground arith)

-- A rule that is well-formed, as every rule that the form sends is, can be shown.
pub IsWellFormed-IsLoadable :
    (trim : String → String) (r : AlertRule)
    → IsWellFormed trim (data_of r)
    → Distinct r.channel_ids
    → IsLoadable r
IsWellFormed-IsLoadable trim r w d = record {
  measured = category_fits r.type r.metric w.measured;
  metric_named =
      name_fits trim r.type r.metric (or_else r.metric_name "") w.measured w.metric_named;
  aimed =
      target_fits r.type r.metric r.agent_id r.service_key r.service_id w.measured w.aimed w.scoped;
  channels = d;
}

loaded-IsCoherent : (r : AlertRule) → IsLoadable r → IsCoherent (load_rule r new_form)
unfolding load_rule
loaded-IsCoherent r l = (
  l.measured,
  (
    (detect_condition_preset_lem r.metric r.operator r.threshold r.duration).0,
    (l.metric_named, (l.aimed, l.channels)),
  ),
)

-- In every form that a user can reach from a new rule, or from one whose metric is one that its type
-- has, of which only an OTel metric has a name, and which has one target and no channel twice: the
-- metric is one of the category's, a preset that is shown as chosen is the condition that would be
-- sent, only a metric rule has the name of a metric, the rule has one target, and no channel is
-- chosen twice.
pub Session-IsCoherent : (f : FullRuleForm) → Session f → IsCoherent f
Session-IsCoherent _ opened = opened-IsCoherent
Session-IsCoherent _ (loaded r l) = loaded-IsCoherent r l
Session-IsCoherent _ (next f g r s) = Event-IsCoherent f g s (Session-IsCoherent f r)

null_given : (s : String) → is_given (or_null s) ≡ true
null_given s = ground arith

-- What is sent, by the category alone.
sent_measured :
    (c : RuleCategory) (m : AlertMetric)
    → fits_category c m ≡ true
    → fits_type (payload_type c) m ≡ true
unfolding offers
sent_measured c m h = ground arith

sent_name :
    (trim : String → String) (c : RuleCategory) (m : AlertMetric) (s : String)
    → fits_category c m ≡ true
    → not (is_metric c && (trim s == "")) ≡ true
    → fits_name trim m (if is_metric c then s else "") ≡ true
unfolding offers
sent_name trim RuleCategory.resource m s h e = ground arith
sent_name trim RuleCategory.endpoint m s h e = ground arith
sent_name trim RuleCategory.request m s h e = ground arith
sent_name trim RuleCategory.log m s h e = ground arith
sent_name trim RuleCategory.metric m s h e = ground arith

sent_given :
    (c : RuleCategory) (s : String) → is_given (if is_scoped c then or_null s else none) ≡ true
sent_given c s = ground (arith, null_given s)

sent_aimed :
    (c : RuleCategory) (a k s : String)
    → one_target c a k s ≡ true
    → aims_once
        (or_null a)
        (if is_scoped c then or_null k else none)
        (if is_scoped c then or_null s else none)
      ≡ true
sent_aimed c a k s h = ground arith

sent_scoped :
    (c : RuleCategory) (k s : String)
    → not (is_request c && (k == "" && (s == ""))) ≡ true
    → fits_scope
        (payload_type c)
        (if is_scoped c then or_null k else none)
        (if is_scoped c then or_null s else none)
      ≡ true
sent_scoped c k s h = ground arith

sent_cools :
    (c : RuleCategory) (d : Option ℕ)
    → cooldown_allowed d ≡ true
    → fits_cooldown (payload_type c) (if is_scoped c && not (is_request c) then some 0 else d)
      ≡ true
sent_cools c d h = ground arith

payload-IsWellFormed :
    (trim : String → String) (f : FullRuleForm)
    → ((s : String) → trim (trim s) ≡ trim s)
    → rule_schema trim f.values ≡ true
    → IsCoherent f
    → IsWellFormed trim (payload trim f)
unfolding rule_schema payload offers
payload-IsWellFormed trim f again e (h, (w, (n, (t, d)))) = record {
  measured = sent_measured f.values.rule_category f.values.metric h;
  named = ground arith;
  metric_named = sent_name trim f.values.rule_category f.values.metric _ h (ground arith);
  given = ground (
    arith,
    null_given f.values.agent_id,
    sent_given f.values.rule_category f.values.service_key,
    sent_given f.values.rule_category f.values.service_id,
  );
  aimed =
      sent_aimed f.values.rule_category f.values.agent_id f.values.service_key f.values.service_id
        t;
  scoped =
      sent_scoped f.values.rule_category f.values.service_key f.values.service_id (ground arith);
  lasts = ground arith;
  cools = sent_cools f.values.rule_category f.values.cooldown (ground arith);
  trimmed = again f.custom_message;
}

sent_payload :
    (trim : String → String) (rule : Option AlertRule) (f : FullRuleForm) (s : SentRule)
    → submit trim rule f ≡ some s
    → (rule_schema trim f.values ≡ true) × (sent_data s ≡ payload trim f)
unfolding submit
sent_payload trim rule f s h = ground arith

-- Whatever a user does in the form of a new rule, or of a rule whose metric is one that its type has,
-- of which only an OTel metric has a name, and which has one target and no channel twice, however
-- blank its name and whatever its message, its duration and its cooldown: the rule that the form
-- sends is well-formed and names no channel twice. Trimming a text a second time is taken to change
-- nothing.
pub submit-IsWellFormed :
    (trim : String → String) (rule : Option AlertRule) (f : FullRuleForm) (s : SentRule)
    → ((t : String) → trim (trim t) ≡ trim t)
    → Session f
    → submit trim rule f ≡ some s
    → IsWellFormed trim (sent_data s) × Distinct (or_else (sent_data s).channel_ids [])
unfolding payload
submit-IsWellFormed trim rule f s again r h =
    let sent = sent_payload trim rule f s h in
    let (m, (w, (n, (t, d)))) = Session-IsCoherent f r in
    rw sent.1 (payload-IsWellFormed trim f again sent.0 (m, (w, (n, (t, d)))), d)
