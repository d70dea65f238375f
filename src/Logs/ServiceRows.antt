-- ===== src/Logs/ServiceRows.antt =====
-- The rows of the logs page with their summaries: features/logs/logServiceRows.ts.
use everyup.Common.{
  ℕ, ◌-◌, ◌*◌, String, Bool, true, false, Option, some, none, List, [], ◌∷◌, ◌≡◌, refl, map,
  if◌then◌else◌, ◌==◌, ◌+++◌, ltb, leb, nat_eq, ◌||◌, ◌&&◌, sort_by, IsSorted, sort_by-IsSorted,
  keep-sort_by, All, keep, is_some, arith, Option-cases, inl, inr, ap, eq_iff,
}
use everyup.Api.Logs.{LogServiceSummary, LogPattern}

pub record Scope : Type 0 where
  pub service_id : Option String
  pub agent_id : Option String
  pub service_name : String

-- A template literal of an absent value.
abbrev shown : Option String → String
shown none = "undefined"
shown (some s) = s

unfoldable pub log_scope_key : Scope → String
log_scope_key c = elim c.agent_id [
  | none ↦ "direct:" +++ shown c.service_id
  | some a ↦
      if a == ""
      then "direct:" +++ shown c.service_id
      else "agent:" +++ a +++ ":" +++ c.service_name
]

pub record LogServiceRow : Type 0 where
  pub key : String
  pub name : String
  pub subtitle : Option String
  pub stopped : Bool
  pub to : String
  pub summary : Option LogServiceSummary

abbrev pub summary_key : LogServiceSummary → String
summary_key s =
    log_scope_key
      (record { service_id = s.service_id; agent_id = s.agent_id; service_name = s.service_name })

abbrev pub pattern_key : LogPattern → String
pattern_key p =
    log_scope_key
      (record { service_id = p.service_id; agent_id = p.agent_id; service_name = p.service_name })

-- `new Map(rows.map(row => [key(row), row])).get(k)`: the last row of a key wins.
abbrev pub last_by {ℓ} : {A : Type ℓ} → (A → String) → String → List A → Option A
last_by key k [] = none
last_by key k (r ∷ rs) = elim (last_by key k rs) [
  | some s ↦ some s
  | none ↦ if key r == k then some r else none
]

abbrev pub with_summary : List LogServiceSummary → LogServiceRow → LogServiceRow
with_summary ss r = record r { summary = last_by summary_key r.key ss }

abbrev pub errors : LogServiceRow → ℕ
errors r = elim r.summary [ none ↦ 0 | some s ↦ s.error ]

abbrev pub warns : LogServiceRow → ℕ
warns r = elim r.summary [ none ↦ 0 | some s ↦ s.warn ]

-- The comparison gives at most 0.
abbrev pub worse : LogServiceRow → LogServiceRow → Bool
worse a b = ltb (errors b) (errors a) || (nat_eq (errors a) (errors b) && leb (warns b) (warns a))

pub record LogPatternRow : Type 0 where
  pub pattern : LogPattern
  pub row : LogServiceRow

abbrev pub window_ms : ℕ
window_ms = 24 * 60 * 60 * 1000

attach_rows : List LogServiceRow → List LogPattern → List LogPatternRow
attach_rows rows [] = []
attach_rows rows (p ∷ ps) = elim (last_by (λ r. r.key) (pattern_key p) rows) [
  | none ↦ attach_rows rows ps
  | some r ↦ (record { pattern = p; row = r }) ∷ attach_rows rows ps
]

pub record LogRows : Type 0 where
  pub rows : List LogServiceRow
  pub patterns : List LogPatternRow
  pub span : ℕ × ℕ

unfoldable pub with_log_summaries :
    List LogServiceRow → List LogServiceSummary → List LogPattern → ℕ → LogRows
unfolding attach_rows
with_log_summaries base ss ps now =
    let rows = sort_by worse (map (with_summary ss) base) in
    record { rows = rows; patterns = attach_rows rows ps; span = (now - window_ms, now) }

worse_total : (a b : LogServiceRow) → worse a b ≡ false → worse b a ≡ true
worse_total a b h = ground arith

worse_trans : (a b c : LogServiceRow) → worse a b ≡ true → worse b c ≡ true → worse a c ≡ true
worse_trans a b c h k = ground arith

abbrev pub has_counts : ℕ → ℕ → LogServiceRow → Bool
has_counts e w r = nat_eq (errors r) e && nat_eq (warns r) w

same_counts :
    (e w : ℕ) (a b : LogServiceRow)
    → has_counts e w a ≡ true
    → has_counts e w b ≡ true
    → worse a b ≡ true
same_counts e w a b h k = ground arith

-- The rows stand with more errors first, and with more warnings first among as many errors; those
-- with the same two counts are the base rows with their summaries, in the order of the list.
pub with_log_summaries-IsSorted :
    (base : List LogServiceRow) (ss : List LogServiceSummary) (ps : List LogPattern) (now : ℕ)
    → IsSorted worse (with_log_summaries base ss ps now).rows
      × ((e w : ℕ)
          → keep (has_counts e w) (with_log_summaries base ss ps now).rows
            ≡ keep (has_counts e w) (map (with_summary ss) base))
unfolding with_log_summaries
with_log_summaries-IsSorted base ss ps now = (
  sort_by-IsSorted worse worse_total worse_trans (map (with_summary ss) base),
  λ e w. keep-sort_by worse (has_counts e w) (map (with_summary ss) base) (same_counts e w),
)

last_by_key :
    (k : String) (rows : List LogServiceRow) (r : LogServiceRow)
    → last_by (λ x. x.key) k rows ≡ some r
    → r.key ≡ k
last_by_key k [] r h = ground arith
last_by_key k (x ∷ xs) r h = elim (Option-cases (last_by (λ y. y.key) k xs)) [
  | inl e ↦ ground (arith, eq_iff x.key k)
  | inr (y, e) ↦ last_by_key k xs r (ground arith)
]

attach_none :
    (rows : List LogServiceRow) (p : LogPattern) (ps : List LogPattern)
    → last_by (λ r. r.key) (pattern_key p) rows ≡ none
    → attach_rows rows (p ∷ ps) ≡ attach_rows rows ps
unfolding attach_rows
attach_none rows p ps e = ground arith

attach_some :
    (rows : List LogServiceRow) (p : LogPattern) (ps : List LogPattern) (r : LogServiceRow)
    → last_by (λ x. x.key) (pattern_key p) rows ≡ some r
    → attach_rows rows (p ∷ ps) ≡ (record { pattern = p; row = r }) ∷ attach_rows rows ps
unfolding attach_rows
attach_some rows p ps r e = ground arith

attached_keys :
    (rows : List LogServiceRow) (ps : List LogPattern)
    → All (λ x. x.row.key ≡ pattern_key x.pattern) (attach_rows rows ps)
unfolding attach_rows
attached_keys rows [] = tt
attached_keys rows (p ∷ ps) = elim (Option-cases (last_by (λ r. r.key) (pattern_key p) rows)) [
  | inl e ↦ rw (attach_none rows p ps e) (attached_keys rows ps)
  | inr (r, e) ↦
      rw (attach_some rows p ps r e) (last_by_key (pattern_key p) rows r e, attached_keys rows ps)
]

listed_patterns :
    (rows : List LogServiceRow) (ps : List LogPattern)
    → map (λ x. x.pattern) (attach_rows rows ps)
      ≡ keep (λ p. is_some (last_by (λ r. r.key) (pattern_key p) rows)) ps
unfolding attach_rows
listed_patterns rows [] = refl
listed_patterns rows (p ∷ ps) = elim (Option-cases (last_by (λ r. r.key) (pattern_key p) rows)) [
  | inl e ↦ rw (attach_none rows p ps e, e) (listed_patterns rows ps)
  | inr (r, e) ↦ rw (attach_some rows p ps r e, e) (ap (λ qs. p ∷ qs) (listed_patterns rows ps))
]

-- Each pattern is shown with the row of its own service, and the patterns shown are those given, in
-- their order, less those whose service has no row.
pub with_log_summaries_patterns :
    (base : List LogServiceRow) (ss : List LogServiceSummary) (ps : List LogPattern) (now : ℕ)
    → All (λ x. x.row.key ≡ pattern_key x.pattern) (with_log_summaries base ss ps now).patterns
      × (map (λ x. x.pattern) (with_log_summaries base ss ps now).patterns
          ≡ keep
              (λ p.
                is_some
                  (last_by (λ r. r.key) (pattern_key p) (with_log_summaries base ss ps now).rows))
              ps)
unfolding with_log_summaries
with_log_summaries_patterns base ss ps now = (
  attached_keys (sort_by worse (map (with_summary ss) base)) ps,
  listed_patterns (sort_by worse (map (with_summary ss) base)) ps,
)
