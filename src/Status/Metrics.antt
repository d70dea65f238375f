-- ===== src/Status/Metrics.antt =====
-- The collection status and the flags of a metric: features/metrics/metricPresentation.ts.
use everyup.Common.{
  ℕ, ◌+◌, ◌≤◌, String, Bool, true, false, Option, some, none, List, [], ◌∷◌, ◌++◌, if◌then◌else◌,
  ltb, keep, is_some, ◌≡◌, ◌≢◌, ◌↔◌, arith,
}

pub data StatusTone : Type 0 where
  healthy warn error idle : StatusTone

pub data MetricType : Type 0 where
  gauge sum histogram : MetricType

-- services/api/telemetry.ts
pub record OtelMetricName : Type 0 where
  pub metric_name : String
  pub metric_type : MetricType
  pub unit : Option String
  pub last_at : ℕ
  pub last_received_at : Option ℕ
  pub description : Option String
  pub breached : Option Bool
  pub conflicting : Option Bool
  pub fresh_series : Option ℕ

pub record MetricStatus : Type 0 where
  pub tone : StatusTone
  pub label : String

abbrev status : StatusTone → String → MetricStatus
status t l = record { tone = t; label = l }

-- A metric that is received: the tests of `metricCollection` after the first two.
received_status : ℕ → Option ℕ → ℕ → MetricStatus
received_status received none now =
    if ltb (received + 300000) now then status warn "5분 이상 수신 없음" else status healthy "수집 중"
received_status received (some measured) now =
    if ltb (received + 300000) now
    then status warn "5분 이상 수신 없음"
    else if ltb (now + 60000) measured
    then status warn "측정 시각 확인 필요"
    else if ltb (measured + 300000) now
    then status warn "측정 지연"
    else status healthy "수집 중"

unfoldable pub metric_collection : Bool → Option ℕ → Option ℕ → ℕ → MetricStatus
unfolding received_status
metric_collection false received measured now = status idle "수집 중지"
metric_collection true none measured now =
    status idle (if is_some measured then "수신 시각 미확인" else "수신 대기")
metric_collection true (some received) measured now = received_status received measured now

-- An absent flag is falsy.
abbrev is_set : Option Bool → Bool
is_set none = false
is_set (some b) = b

abbrev is_healthy : StatusTone → Bool
is_healthy healthy = true
is_healthy _ = false

unfoldable pub metric_flags : OtelMetricName → ℕ → List MetricStatus
unfolding metric_collection
metric_flags m now =
    let collection = metric_collection true m.last_received_at (some m.last_at) now in
    (if is_set m.conflicting then status warn "타입·단위 충돌" ∷ [] else [])
    ++ (if is_set m.breached then status error "임계값 초과" ∷ [] else [])
    ++ (if is_healthy collection.tone then [] else collection ∷ [])

abbrev has_flags : List MetricStatus → Bool
has_flags [] = false
has_flags (f ∷ fs) = true

unfoldable pub flagged_metrics : Bool → List OtelMetricName → ℕ → List OtelMetricName
unfolding metric_flags
flagged_metrics true ms now = keep (λ m. has_flags (metric_flags m now)) ms
flagged_metrics false ms now = []

-- A measured time that is neither late nor ahead of the clock, and a recent reception.
abbrev pub IsOnTime : Option ℕ → ℕ → Type 0
IsOnTime none now = Unit
IsOnTime (some m) now = (m ≤ now + 60000) × (now ≤ m + 300000)

abbrev pub IsReceived : Option ℕ → ℕ → Type 0
IsReceived none now = ⊥
IsReceived (some r) now = now ≤ r + 300000

-- The collection of a metric is healthy exactly when its source is active, something was received
-- within five minutes, and the measured time, if there is one, is at most a minute ahead of the clock
-- and at most five minutes behind it.
pub metric_collection_healthy_iff :
    (active : Bool) (received measured : Option ℕ) (now : ℕ)
    → ((metric_collection active received measured now).tone ≡ healthy)
      ↔ ((active ≡ true) × IsReceived received now × IsOnTime measured now)
unfolding metric_collection
metric_collection_healthy_iff false received measured now = (λ h. ground arith, λ h. ground arith)
metric_collection_healthy_iff true none none now = (λ h. ground arith, λ h. ground arith)
metric_collection_healthy_iff true none (some m) now = (λ h. ground arith, λ h. ground arith)
metric_collection_healthy_iff true (some r) none now = (λ h. ground arith, λ h. ground arith)
metric_collection_healthy_iff true (some r) (some m) now = (λ h. ground arith, λ h. ground arith)

-- A metric has no flag exactly when it neither conflicts nor breaches a threshold and its
-- collection is healthy.
pub metric_flags-eq-nil_iff :
    (m : OtelMetricName) (now : ℕ)
    → (metric_flags m now ≡ []) ↔ (
        (m.conflicting ≢ some true)
        × (m.breached ≢ some true)
        × IsReceived m.last_received_at now
        × IsOnTime (some m.last_at) now)
unfolding metric_flags
metric_flags-eq-nil_iff m now = (λ h. ground arith, λ h. ground arith)
