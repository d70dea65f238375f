-- ===== src/Alerts/Rules/Presets.antt =====
-- The presets of an alert rule's condition: getPresetValues, detectConditionPreset and
-- buildDefaultMessage of features/alerts/components/AlertRuleForm.tsx.
use everyup.Common.{
  ℕ, Bool, true, false, Option, some, none, ◌≡◌, ◌≢◌, refl, ◌&&◌, if◌then◌else◌, nat_eq, arith,
  Bool-cases, inl, inr,
}
use everyup.Alerts.Target.{AlertMetric, AlertOperator}

pub data ConditionPreset : Type 0 where
  normal error custom : ConditionPreset

pub record PresetValues : Type 0 where
  pub operator : AlertOperator
  pub threshold : ℕ
  pub duration : Option ℕ

abbrev values : AlertOperator → ℕ → Option ℕ → Option PresetValues
values o t d = some (record { operator = o; threshold = t; duration = d })

abbrev normal_values : AlertMetric → Option PresetValues
normal_values AlertMetric.http_status = values AlertOperator.lte 299 none
normal_values AlertMetric.response_time = values AlertOperator.lt 1000 none
normal_values AlertMetric.log_level = values AlertOperator.eq 4 none
normal_values AlertMetric.api_status_code = values AlertOperator.lt 400 none
normal_values AlertMetric.error_rate = values AlertOperator.lt 1 (some 5)
normal_values AlertMetric.latency_p95 = values AlertOperator.lt 500 (some 5)
normal_values AlertMetric.latency_p99 = values AlertOperator.lt 1000 (some 5)
normal_values _ = values AlertOperator.lt 70 (some 1)

abbrev error_values : AlertMetric → Option PresetValues
error_values AlertMetric.http_status = values AlertOperator.gte 400 none
error_values AlertMetric.response_time = values AlertOperator.gt 3000 none
error_values AlertMetric.log_level = values AlertOperator.gte 3 none
error_values AlertMetric.api_status_code = values AlertOperator.gte 500 none
error_values AlertMetric.otel_metric = values AlertOperator.gt 0 none
error_values AlertMetric.error_rate = values AlertOperator.gt 5 (some 5)
error_values AlertMetric.latency_p95 = values AlertOperator.gt 1000 (some 5)
error_values AlertMetric.latency_p99 = values AlertOperator.gt 2000 (some 5)
error_values _ = values AlertOperator.gt 80 (some 3)

unfoldable pub get_preset_values : AlertMetric → ConditionPreset → Option PresetValues
get_preset_values m ConditionPreset.custom = none
get_preset_values m ConditionPreset.normal = normal_values m
get_preset_values m ConditionPreset.error = error_values m

abbrev same_operator : AlertOperator → AlertOperator → Bool
same_operator AlertOperator.gt AlertOperator.gt = true
same_operator AlertOperator.lt AlertOperator.lt = true
same_operator AlertOperator.gte AlertOperator.gte = true
same_operator AlertOperator.lte AlertOperator.lte = true
same_operator AlertOperator.eq AlertOperator.eq = true
same_operator _ _ = false

abbrev duration_fits : Option ℕ → ℕ → Bool
duration_fits none d = true
duration_fits (some n) d = nat_eq d n

abbrev preset_fits : Option PresetValues → AlertOperator → ℕ → ℕ → Bool
preset_fits none o t d = false
preset_fits (some v) o t d =
    same_operator o v.operator && (nat_eq t v.threshold && duration_fits v.duration d)

unfoldable pub detect_condition_preset : AlertMetric → AlertOperator → ℕ → ℕ → ConditionPreset
unfolding get_preset_values
detect_condition_preset m o t d =
    if preset_fits (get_preset_values m ConditionPreset.normal) o t d
    then ConditionPreset.normal
    else if preset_fits (get_preset_values m ConditionPreset.error) o t d
    then ConditionPreset.error
    else ConditionPreset.custom

-- The operator, the threshold and, where the preset has one, the duration are the preset's.
abbrev pub HasDuration : Option ℕ → Option ℕ → Type 0
HasDuration none d = Unit
HasDuration (some n) d = d ≡ some n

abbrev pub HasValues : Option PresetValues → AlertOperator → ℕ → Option ℕ → Type 0
HasValues none o t d = Unit
HasValues (some v) o t d = (o ≡ v.operator) × ((t ≡ v.threshold) × HasDuration v.duration d)

operator_agrees : (o p : AlertOperator) → same_operator o p ≡ true → o ≡ p
operator_agrees o p h = ground arith

duration_agrees : (n : Option ℕ) (d : ℕ) → duration_fits n d ≡ true → HasDuration n (some d)
duration_agrees none d h = tt
duration_agrees (some n) d h = ground arith

fits_sound :
    (v : Option PresetValues) (o : AlertOperator) (t d : ℕ)
    → preset_fits v o t d ≡ true
    → HasValues v o t (some d)
fits_sound none o t d h = absurd (ground arith)
fits_sound (some v) o t d h = (
  operator_agrees o v.operator (ground arith),
  (ground arith, duration_agrees v.duration d (ground arith)),
)

operator_self : (o : AlertOperator) → same_operator o o ≡ true
operator_self o = ground arith

duration_complete : (n : Option ℕ) (d : ℕ) → HasDuration n (some d) → duration_fits n d ≡ true
duration_complete none d h = refl
duration_complete (some n) d h = ground arith

fits_complete :
    (v : PresetValues) (o : AlertOperator) (t d : ℕ)
    → HasValues (some v) o t (some d)
    → preset_fits (some v) o t d ≡ true
fits_complete v o t d (e, (f, h)) =
    ground (arith, operator_self v.operator, duration_complete v.duration d h)

values_complete :
    (w : Option PresetValues) (o : AlertOperator) (t d : ℕ)
    → w ≢ none
    → HasValues w o t (some d)
    → preset_fits w o t d ≡ true
values_complete none o t d ne h = absurd (ne refl)
values_complete (some v) o t d ne h = fits_complete v o t d h

normal_given : (m : AlertMetric) → normal_values m ≢ none
normal_given m h = ground arith

error_given : (m : AlertMetric) → error_values m ≢ none
error_given m h = ground arith

-- No condition is that of both presets of a metric.
presets_apart :
    (m : AlertMetric) (o : AlertOperator) (t d : ℕ)
    → preset_fits (error_values m) o t d ≡ true
    → preset_fits (normal_values m) o t d ≡ false
presets_apart m o t d h = ground arith

-- The condition found for a rule is one whose values the rule has, and a rule that has a preset's
-- values is found under that preset.
pub detect_condition_preset_lem :
    (m : AlertMetric) (o : AlertOperator) (t d : ℕ)
    → HasValues (get_preset_values m (detect_condition_preset m o t d)) o t (some d)
      × ((p : ConditionPreset)
          → p ≢ ConditionPreset.custom
          → HasValues (get_preset_values m p) o t (some d)
          → detect_condition_preset m o t d ≡ p)
unfolding detect_condition_preset get_preset_values
detect_condition_preset_lem m o t d = (found, complete)
  where
    found : HasValues (get_preset_values m (detect_condition_preset m o t d)) o t (some d)
    found = elim (Bool-cases (preset_fits (normal_values m) o t d)) [
      | inl e ↦ rw e (fits_sound (normal_values m) o t d e)
      | inr e ↦ elim (Bool-cases (preset_fits (error_values m) o t d)) [
        | inl f ↦ rw (e, f) (fits_sound (error_values m) o t d f)
        | inr f ↦ rw (e, f) tt
      ]
    ]

    complete :
        (p : ConditionPreset)
        → p ≢ ConditionPreset.custom
        → HasValues (get_preset_values m p) o t (some d)
        → detect_condition_preset m o t d ≡ p
    complete ConditionPreset.custom ne h = absurd (ne refl)
    complete ConditionPreset.normal ne h =
        rw (values_complete (normal_values m) o t d (normal_given m) h) refl
    complete ConditionPreset.error ne h =
        let e = values_complete (error_values m) o t d (error_given m) h in
        rw (presets_apart m o t d e, e) refl
