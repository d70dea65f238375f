-- ===== src/Alerts/RulesOrder.antt =====
-- Which rules the list shows and in which order: features/alerts/components/AlertRulesTab.tsx.
use everyup.Common.{
  String, Bool, true, false, Option, some, none, List, ◌≡◌, refl, sym, ap, ◌∙◌, ◌&&◌, if◌then◌else◌,
  ◌==◌, eq_iff, keep, IsSorted, sort_by-IsSorted, sort_by_stable, IsSorted-as, keep_as, arith, ◌↔◌,
  ◌⊎◌,
}
use everyup.Alerts.Target.{AlertRule, AlertSeverity, AlertTarget, matches_alert_target}
use everyup.Alerts.Labels.{CategoryKey, TargetRows, rule_category, target_label, category_text}
use everyup.Alerts.RulesTab.{
  SortKey, SortDir, RuleFilters, Sign, opposite, not_positive, shows_rule, compare_rules,
  comes_before, filtered_rules, in_category, has_severity, has_state, aimed_at, found,
}

-- The more severe first.
abbrev pub as_severe : AlertSeverity → AlertSeverity → Bool
as_severe AlertSeverity.critical _ = true
as_severe AlertSeverity.warning AlertSeverity.critical = false
as_severe AlertSeverity.warning _ = true
as_severe AlertSeverity.info AlertSeverity.info = true
as_severe AlertSeverity.info _ = false

-- A choice that is not "all" is met by `P`.
abbrev pub Meets {ℓ} : {A : Type ℓ} → Option A → (A → Type 0) → Type 0
Meets none P = Unit
Meets (some a) P = P a

abbrev category_of : String → CategoryKey
category_of s =
    if s == "endpoint"
    then CategoryKey.endpoint
    else (if s == "request"
        then CategoryKey.request
        else (if s == "log"
            then CategoryKey.log
            else (if s == "resource" then CategoryKey.resource else CategoryKey.system)))

category_of-category_text : (c : CategoryKey) → category_of (category_text c) ≡ c
category_of-category_text CategoryKey.endpoint = refl
category_of-category_text CategoryKey.request = refl
category_of-category_text CategoryKey.log = refl
category_of-category_text CategoryKey.resource = refl
category_of-category_text CategoryKey.system = refl

text_category : (c d : CategoryKey) → (category_text c == category_text d) ≡ true → c ≡ d
text_category c d h =
    sym (category_of-category_text c)
    ∙ (ap category_of ((eq_iff (category_text c) (category_text d)).0 h)
        ∙ category_of-category_text d)

category_met :
    (o : Option CategoryKey) (r : AlertRule)
    → (in_category o r ≡ true) ↔ Meets o (λ c. rule_category r ≡ c)
category_met none r = (λ h. tt, λ h. refl)
category_met (some c) r = (
  λ h. text_category (rule_category r) c h,
  λ h. (eq_iff (category_text (rule_category r)) (category_text c)).1 (ap category_text h),
)

severity_met :
    (o : Option AlertSeverity) (r : AlertRule)
    → (has_severity o r ≡ true) ↔ Meets o (λ s. r.severity ≡ s)
severity_met none r = (λ h. tt, λ h. refl)
severity_met (some s) r = (λ h. ground arith, λ h. ground arith)

state_met :
    (o : Option Bool) (r : AlertRule) → (has_state o r ≡ true) ↔ Meets o (λ on. r.is_enabled ≡ on)
state_met none r = (λ h. tt, λ h. refl)
state_met (some true) r = (λ h. h, λ h. h)
state_met (some false) r = (λ h. ground arith, λ h. ground arith)

target_met :
    (o : Option AlertTarget) (r : AlertRule)
    → (aimed_at o r ≡ true) ↔ Meets o (λ t. matches_alert_target r t ≡ true)
target_met none r = (λ h. tt, λ h. refl)
target_met (some t) r = (λ h. h, λ h. h)

both_met :
    {P Q : Type 0} (a b : Bool) → ((a ≡ true) ↔ P) → ((b ≡ true) ↔ Q) → ((a && b) ≡ true) ↔ (P × Q)
both_met true b p q = (λ h. (p.0 refl, q.0 h), λ h. q.1 h.1)
both_met false b p q = (λ h. ground arith, λ h. p.1 h.0)

module _ (to_lower : String → String) (contains : String → String → Bool)
    (locale_compare : String → String → Sign) (rows : TargetRows) where
  -- The text of the search is in the rule's name or in its target's, whatever their case.
  abbrev pub IsFound : String → AlertRule → Type 0
  IsFound query r =
      (query ≡ "")
      ⊎ ((contains (to_lower r.name) (to_lower query) ≡ true)
          ⊎ (contains (to_lower (target_label rows r)) (to_lower query) ≡ true))

  found_met :
      (query : String) (r : AlertRule)
      → (found to_lower contains locale_compare rows query r ≡ true) ↔ IsFound query r
  found_met query r = (λ h. ground (arith, eq_iff query ""), λ h. ground (arith, eq_iff query ""))

  -- A rule meets every choice above the list.
  abbrev pub MeetsAll : Option AlertTarget → RuleFilters → AlertRule → Type 0
  MeetsAll t f r =
      Meets t (λ u. matches_alert_target r u ≡ true)
      × (Meets f.category_filter (λ c. rule_category r ≡ c)
          × (Meets f.severity_filter (λ s. r.severity ≡ s)
              × (Meets f.enabled_filter (λ on. r.is_enabled ≡ on) × IsFound f.search_query r)))

  shows_rule_met :
      (t : Option AlertTarget) (f : RuleFilters) (r : AlertRule)
      → (shows_rule to_lower contains locale_compare rows t f r ≡ true) ↔ MeetsAll t f r
  unfolding shows_rule
  shows_rule_met t f r = both_met (aimed_at t r) _ (target_met t r) (
      both_met (in_category f.category_filter r) _ (category_met f.category_filter r) (
        both_met (has_severity f.severity_filter r) _ (severity_met f.severity_filter r) (
          both_met (has_state f.enabled_filter r) _ (state_met f.enabled_filter r)
            (found_met f.search_query r))))

  -- The order that is chosen: for `desc` the two rules change places.
  abbrev pub precedes : SortKey → SortDir → AlertRule → AlertRule → Bool
  precedes SortKey.severity SortDir.asc a b = as_severe a.severity b.severity
  precedes SortKey.severity SortDir.desc a b = as_severe b.severity a.severity
  precedes SortKey.name SortDir.asc a b = not_positive (locale_compare a.name b.name)
  precedes SortKey.name SortDir.desc a b = not_positive (locale_compare b.name a.name)
  precedes SortKey.target SortDir.asc a b =
      not_positive (locale_compare (target_label rows a) (target_label rows b))
  precedes SortKey.target SortDir.desc a b =
      not_positive (locale_compare (target_label rows b) (target_label rows a))
  precedes SortKey.category SortDir.asc a b =
      not_positive
        (locale_compare (category_text (rule_category a)) (category_text (rule_category b)))
  precedes SortKey.category SortDir.desc a b =
      not_positive
        (locale_compare (category_text (rule_category b)) (category_text (rule_category a)))

  module _ (reversed : (a b : String) → locale_compare b a ≡ opposite (locale_compare a b))
      (chained : (a b c : String)
        → not_positive (locale_compare a b) ≡ true
        → not_positive (locale_compare b c) ≡ true
        → not_positive (locale_compare a c) ≡ true) where
    compare_reversed :
        (k : SortKey) (a b : AlertRule)
        → compare_rules to_lower contains locale_compare rows k b a
          ≡ opposite (compare_rules to_lower contains locale_compare rows k a b)
    unfolding compare_rules
    compare_reversed SortKey.severity a b = ground arith
    compare_reversed SortKey.name a b = reversed a.name b.name
    compare_reversed SortKey.target a b = reversed (target_label rows a) (target_label rows b)
    compare_reversed SortKey.category a b = reversed _ _

    compare_chained :
        (k : SortKey) (a b c : AlertRule)
        → not_positive (compare_rules to_lower contains locale_compare rows k a b) ≡ true
        → not_positive (compare_rules to_lower contains locale_compare rows k b c) ≡ true
        → not_positive (compare_rules to_lower contains locale_compare rows k a c) ≡ true
    unfolding compare_rules
    compare_chained SortKey.severity a b c h g = ground arith
    compare_chained SortKey.name a b c h g = chained a.name b.name c.name h g
    compare_chained SortKey.target a b c h g = chained _ _ _ h g
    compare_chained SortKey.category a b c h g = chained _ _ _ h g

    total :
        (k : SortKey) (d : SortDir) (a b : AlertRule)
        → comes_before to_lower contains locale_compare rows k d a b ≡ false
        → comes_before to_lower contains locale_compare rows k d b a ≡ true
    unfolding comes_before
    total k SortDir.asc a b h = ground (arith, compare_reversed k a b)
    total k SortDir.desc a b h = ground (arith, compare_reversed k a b)

    transitive :
        (k : SortKey) (d : SortDir) (a b c : AlertRule)
        → comes_before to_lower contains locale_compare rows k d a b ≡ true
        → comes_before to_lower contains locale_compare rows k d b c ≡ true
        → comes_before to_lower contains locale_compare rows k d a c ≡ true
    unfolding comes_before
    transitive k SortDir.asc a b c h g = compare_chained k a b c h g
    transitive k SortDir.desc a b c h g = ground (
      arith,
      compare_reversed k a b,
      compare_reversed k b c,
      compare_reversed k a c,
      compare_chained k c b a,
    )

    precedes_lem :
        (k : SortKey) (d : SortDir) (a b : AlertRule)
        → comes_before to_lower contains locale_compare rows k d a b ≡ precedes k d a b
    unfolding comes_before compare_rules
    precedes_lem SortKey.severity SortDir.asc a b = ground arith
    precedes_lem SortKey.severity SortDir.desc a b = ground arith
    precedes_lem SortKey.name SortDir.asc a b = refl
    precedes_lem SortKey.name SortDir.desc a b = sym (ap not_positive (reversed _ _))
    precedes_lem SortKey.target SortDir.asc a b = refl
    precedes_lem SortKey.target SortDir.desc a b = sym (ap not_positive (reversed _ _))
    precedes_lem SortKey.category SortDir.asc a b = refl
    precedes_lem SortKey.category SortDir.desc a b = sym (ap not_positive (reversed _ _))

    level_lem :
        (k : SortKey) (d : SortDir) (a b : AlertRule)
        → (comes_before to_lower contains locale_compare rows k d a b
            && comes_before to_lower contains locale_compare rows k d b a)
          ≡ (precedes k d a b && precedes k d b a)
    level_lem k d a b = rw (precedes_lem k d a b, precedes_lem k d b a) refl

    -- The list shows, in the order that is chosen, the rules that meet every choice above it: those
    -- that compare level stand in the order in which they were loaded, so that none is lost or
    -- doubled. localeCompare is taken to change its sign with its arguments and to be transitive.
    pub filtered_rules-IsSorted :
        (t : Option AlertTarget) (f : RuleFilters) (k : SortKey) (d : SortDir)
        (rules : List AlertRule)
        → IsSorted
            (precedes k d)
            (filtered_rules to_lower contains locale_compare rows t f k d rules)
          × (((a : AlertRule)
                → keep
                    (λ b. precedes k d a b && precedes k d b a)
                    (filtered_rules to_lower contains locale_compare rows t f k d rules)
                  ≡ keep
                      (λ b. precedes k d a b && precedes k d b a)
                      (keep (shows_rule to_lower contains locale_compare rows t f) rules))
              × ((r : AlertRule)
                  → (shows_rule to_lower contains locale_compare rows t f r ≡ true)
                    ↔ MeetsAll t f r))
    unfolding filtered_rules
    filtered_rules-IsSorted t f k d rules = (
      IsSorted-as (comes_before to_lower contains locale_compare rows k d) (precedes k d) _
          (λ a b h. sym (precedes_lem k d a b) ∙ h)
          (sort_by-IsSorted (comes_before to_lower contains locale_compare rows k d) (total k d)
            (transitive k d) _),
      (
        λ a.
            sym (keep_as _ _ _ (level_lem k d a))
            ∙ (sort_by_stable (comes_before to_lower contains locale_compare rows k d) (total k d)
                  (transitive k d) a _
                ∙ keep_as _ _ _ (level_lem k d a)),
        shows_rule_met t f,
      ),
    )
