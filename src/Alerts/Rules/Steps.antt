-- ===== src/Alerts/Rules/Steps.antt =====
-- What a user can do in the form of features/alerts/components/AlertRuleForm.tsx, in any order, and
-- what the form sends after it.
use everyup.Common.{
  ℕ, String, Bool, true, false, Option, some, none, List, [], ◌∷◌, ◌≡◌, refl, ◌&&◌, ◌||◌, ◌==◌,
  arith, Bool-cases, inl, inr, Distinct, includes, keep, Distinct-append, Option-cases,
}
use everyup.Alerts.Target.{AlertMetric, AlertOperator, AlertSeverity}
use everyup.Alerts.Rules.Presets.{ConditionPreset, PresetValues, HasValues, get_preset_values}
use everyup.Alerts.Rules.Form.{
  RuleCategory, FullRuleForm, RuleFormValues, apply_preset, handle_category_change,
  handle_metric_change, handle_condition_preset, handle_toggle_channel, toggled, choose_service,
  choose_resource, type_threshold, new_metric, set_preset, cleared,
}

-- The metrics that the form offers in a category.
unfoldable pub offers : RuleCategory → AlertMetric → Bool
offers RuleCategory.resource AlertMetric.cpu = true
offers RuleCategory.resource AlertMetric.memory = true
offers RuleCategory.resource AlertMetric.disk = true
offers RuleCategory.endpoint AlertMetric.http_status = true
offers RuleCategory.endpoint AlertMetric.response_time = true
offers RuleCategory.log AlertMetric.log_level = true
offers RuleCategory.log AlertMetric.api_status_code = true
offers RuleCategory.request AlertMetric.error_rate = true
offers RuleCategory.request AlertMetric.latency_p95 = true
offers RuleCategory.request AlertMetric.latency_p99 = true
offers _ _ = false

-- The inputs that the page shows, by the category and the preset.
abbrev shows_name : RuleCategory → Bool
shows_name RuleCategory.metric = true
shows_name _ = false

abbrev shows_services : RuleCategory → Bool
shows_services RuleCategory.resource = false
shows_services _ = true

abbrev shows_condition : ConditionPreset → Bool
shows_condition ConditionPreset.custom = true
shows_condition _ = false

abbrev shows_duration : RuleCategory → ConditionPreset → Bool
shows_duration RuleCategory.endpoint p = true
shows_duration RuleCategory.log p = false
shows_duration _ p = shows_condition p

abbrev shows_cooldown : RuleCategory → Bool
shows_cooldown RuleCategory.endpoint = false
shows_cooldown RuleCategory.log = false
shows_cooldown _ = true

abbrev edit : (RuleFormValues → RuleFormValues) → FullRuleForm → FullRuleForm
edit g f = record f { values = g f.values }

-- One event on an input that the page shows.
pub data Event (f : FullRuleForm) : FullRuleForm → Type 0 where
  category_changed : (c : RuleCategory) → Event f (handle_category_change c f)
  metric_changed :
      (m : AlertMetric)
      → offers f.values.rule_category m ≡ true
      → Event f (handle_metric_change m f)
  metric_named :
      (s : String)
      → shows_name f.values.rule_category ≡ true
      → Event f (edit (λ v. record v { metric_name = s }) f)
  service_chosen :
      (o : Option (String × String))
      → shows_services f.values.rule_category ≡ true
      → Event f (choose_service o f)
  resource_chosen :
      (id : String) → shows_services f.values.rule_category ≡ false → Event f (choose_resource id f)
  preset_chosen : (p : ConditionPreset) → Event f (handle_condition_preset p f)
  operator_chosen :
      (o : AlertOperator)
      → shows_condition f.condition_preset ≡ true
      → Event f (edit (λ v. record v { operator = o }) f)
  threshold_typed :
      (text : String) (n : Option ℕ)
      → shows_condition f.condition_preset ≡ true
      → Event f (type_threshold text n f)
  level_chosen :
      (n : ℕ)
      → shows_condition f.condition_preset ≡ true
      → Event f (edit (λ v. record v { threshold = n }) f)
  duration_typed :
      (d : Option ℕ)
      → shows_duration f.values.rule_category f.condition_preset ≡ true
      → Event f (edit (λ v. record v { duration = d }) f)
  cooldown_typed :
      (d : Option ℕ)
      → shows_cooldown f.values.rule_category ≡ true
      → Event f (edit (λ v. record v { cooldown = d }) f)
  named : (s : String) → Event f (edit (λ v. record v { name = s }) f)
  severity_chosen : (s : AlertSeverity) → Event f (edit (λ v. record v { severity = s }) f)
  channel_toggled : (id : String) → Event f (handle_toggle_channel id f)
  message_typed : (s : String) → Event f (record f { custom_message = s })

abbrev pub fits_category : RuleCategory → AlertMetric → Bool
fits_category RuleCategory.metric AlertMetric.otel_metric = true
fits_category c m = offers c m

abbrev pub name_kept : RuleCategory → String → Bool
name_kept RuleCategory.metric s = true
name_kept _ s = s == ""

-- A service of its own, or an agent with perhaps one of its services; a host alone.
abbrev pub one_target : RuleCategory → String → String → String → Bool
one_target RuleCategory.resource a k s = k == "" && (s == "")
one_target _ a k s = s == "" || (a == "" && (k == ""))

abbrev pub PresetShown : FullRuleForm → Type 0
PresetShown f =
    HasValues (get_preset_values f.values.metric f.condition_preset) f.values.operator
      f.values.threshold f.values.duration

-- The metric is one of the category's, a preset that is shown as chosen is the condition that is
-- sent, only a metric rule has the name of a metric, the rule has one target, and no channel is
-- chosen twice.
abbrev pub IsCoherent : FullRuleForm → Type 0
IsCoherent f =
    (fits_category f.values.rule_category f.values.metric ≡ true)
    × (PresetShown f
        × ((name_kept f.values.rule_category f.values.metric_name ≡ true)
            × ((one_target f.values.rule_category f.values.agent_id f.values.service_key
                    f.values.service_id
                  ≡ true)
                × Distinct f.values.channel_ids)))

IsCoherent-set_preset :
    (w : Option PresetValues) (p : ConditionPreset) (f : FullRuleForm)
    → get_preset_values f.values.metric p ≡ w
    → fits_category f.values.rule_category f.values.metric ≡ true
    → name_kept f.values.rule_category f.values.metric_name ≡ true
    → one_target f.values.rule_category f.values.agent_id f.values.service_key f.values.service_id
      ≡ true
    → Distinct f.values.channel_ids
    → IsCoherent (record f { values = set_preset w f.values; condition_preset = p })
IsCoherent-set_preset none p f e h n t d = (h, (rw e tt, (n, (t, d))))
IsCoherent-set_preset (some v) p f e h n t d = elim (Option-cases v.duration) [
  | inl g ↦ rw g (h, (rw (e, g) (refl, (refl, tt)), (n, (t, d))))
  | inr (k, g) ↦ rw g (h, (rw (e, g) (refl, (refl, refl)), (n, (t, d))))
]

new_metric_fits : (c : RuleCategory) → fits_category c (new_metric c) ≡ true
unfolding offers
new_metric_fits c = ground arith

includes-keep :
    (k : String) (p : String → Bool) (xs : List String)
    → includes k xs ≡ false
    → includes k (keep p xs) ≡ false
includes-keep k p [] h = h
includes-keep k p (x ∷ xs) h = ground (arith, includes-keep k p xs)

Distinct-keep : (p : String → Bool) (xs : List String) → Distinct xs → Distinct (keep p xs)
Distinct-keep p [] d = tt
Distinct-keep p (x ∷ xs) d = ground (arith, includes-keep x p xs d.0, Distinct-keep p xs d.1)

Distinct-toggled : (id : String) (ids : List String) → Distinct ids → Distinct (toggled id ids)
unfolding toggled
Distinct-toggled id ids d = elim (Bool-cases (includes id ids)) [
  | inl e ↦ rw e (Distinct-keep _ ids d)
  | inr e ↦ rw e (Distinct-append id ids e d)
]

category-IsCoherent :
    (c : RuleCategory) (f : FullRuleForm) → IsCoherent f → IsCoherent (handle_category_change c f)
unfolding handle_category_change apply_preset
category-IsCoherent c f (h, (w, (n, (t, d)))) =
    IsCoherent-set_preset _ _ (record f { values = cleared c f.values }) refl (new_metric_fits c)
      (ground arith) (ground arith) d

metric-IsCoherent :
    (m : AlertMetric) (f : FullRuleForm)
    → offers f.values.rule_category m ≡ true
    → IsCoherent f
    → IsCoherent (handle_metric_change m f)
unfolding handle_metric_change apply_preset offers
metric-IsCoherent m f o (h, (w, (n, (t, d)))) =
    IsCoherent-set_preset _ _ (record f { values = record f.values { metric = m } }) refl
      (ground arith) n t d

preset-IsCoherent :
    (p : ConditionPreset) (f : FullRuleForm)
    → IsCoherent f
    → IsCoherent (handle_condition_preset p f)
unfolding handle_condition_preset apply_preset
preset-IsCoherent p f (h, (w, (n, (t, d)))) = IsCoherent-set_preset _ p f refl h n t d

service-IsCoherent :
    (o : Option (String × String)) (f : FullRuleForm)
    → shows_services f.values.rule_category ≡ true
    → IsCoherent f
    → IsCoherent (choose_service o f)
unfolding choose_service
service-IsCoherent none f e (h, (w, (n, (t, d)))) = (h, (w, (n, (ground arith, d))))
service-IsCoherent (some (scope, key)) f e (h, (w, (n, (t, d)))) =
    elim (Bool-cases (scope == "direct")) [
      | inl g ↦ rw g (h, (w, (n, (ground arith, d))))
      | inr g ↦ rw g (h, (w, (n, (ground arith, d))))
    ]

custom_free :
    (m : AlertMetric) (p : ConditionPreset) (o : AlertOperator) (t : ℕ) (d : Option ℕ)
    → shows_condition p ≡ true
    → HasValues (get_preset_values m p) o t d
unfolding get_preset_values
custom_free m ConditionPreset.custom o t d e = tt
custom_free m ConditionPreset.normal o t d e = absurd (ground arith)
custom_free m ConditionPreset.error o t d e = absurd (ground arith)

-- The presets of the metrics of an endpoint have no duration.
duration_free :
    (c : RuleCategory) (m : AlertMetric) (p : ConditionPreset) (o : AlertOperator) (t : ℕ)
    (d k : Option ℕ)
    → fits_category c m ≡ true
    → shows_duration c p ≡ true
    → HasValues (get_preset_values m p) o t d
    → HasValues (get_preset_values m p) o t k
unfolding get_preset_values offers
duration_free c m ConditionPreset.custom o t d k h e w = tt
duration_free c m ConditionPreset.normal o t d k h e w = ground arith
duration_free c m ConditionPreset.error o t d k h e w = ground arith

threshold-IsCoherent :
    (text : String) (k : Option ℕ) (f : FullRuleForm)
    → shows_condition f.condition_preset ≡ true
    → IsCoherent f
    → IsCoherent (type_threshold text k f)
unfolding type_threshold
threshold-IsCoherent text none f e i = i
threshold-IsCoherent text (some k) f e (h, (w, r)) =
    (h, (custom_free f.values.metric f.condition_preset _ _ _ e, r))

duration-IsCoherent :
    (k : Option ℕ) (f : FullRuleForm)
    → shows_duration f.values.rule_category f.condition_preset ≡ true
    → IsCoherent f
    → IsCoherent (edit (λ v. record v { duration = k }) f)
duration-IsCoherent k f e (h, (w, r)) =
    (h, (duration_free f.values.rule_category f.values.metric f.condition_preset _ _ _ k h e w, r))

-- Whatever is done on the inputs that the form shows, a consistent form stays consistent.
pub Event-IsCoherent : (f g : FullRuleForm) → Event f g → IsCoherent f → IsCoherent g
unfolding choose_resource handle_toggle_channel
Event-IsCoherent f _ (category_changed c) i = category-IsCoherent c f i
Event-IsCoherent f _ (metric_changed m o) i = metric-IsCoherent m f o i
Event-IsCoherent f _ (metric_named s e) (h, (w, (n, r))) = (h, (w, (ground arith, r)))
Event-IsCoherent f _ (service_chosen o e) i = service-IsCoherent o f e i
Event-IsCoherent f _ (resource_chosen id e) (h, (w, (n, (t, d)))) = (h, (w, (n, (ground arith, d))))
Event-IsCoherent f _ (preset_chosen p) i = preset-IsCoherent p f i
Event-IsCoherent f _ (operator_chosen o e) (h, (w, r)) =
    (h, (custom_free f.values.metric f.condition_preset _ _ _ e, r))
Event-IsCoherent f _ (threshold_typed text k e) i = threshold-IsCoherent text k f e i
Event-IsCoherent f _ (level_chosen k e) (h, (w, r)) =
    (h, (custom_free f.values.metric f.condition_preset _ _ _ e, r))
Event-IsCoherent f _ (duration_typed k e) i = duration-IsCoherent k f e i
Event-IsCoherent f _ (cooldown_typed k e) i = i
Event-IsCoherent f _ (named s) i = i
Event-IsCoherent f _ (severity_chosen s) i = i
Event-IsCoherent f _ (channel_toggled id) (h, (w, (n, (t, d)))) =
    (h, (w, (n, (t, Distinct-toggled id f.values.channel_ids d))))
Event-IsCoherent f _ (message_typed s) i = i
