-- ===== src/Metrics/Rates.antt =====
-- The rates of a cumulative or a delta sum: metricRates of features/metrics/metricSeries.ts.
use everyup.Common.{
  ℕ, ◌-◌, ◌*◌, String, Bool, true, false, Option, some, none, List, [], ◌∷◌, ◌&&◌, ◌||◌, ◌==◌,
  ◌+++◌, if◌then◌else◌, leb, ltb, nat_eq, or_else, sort_by,
}

-- A number of a row, in the unit that the caller takes.
pub data Value : Type 0 where
  natural : ℕ → Value
  below_zero not_finite : Value

-- The fields of OtelMetricPoint that the rates read; a flag that is missing is false.
pub record OtelMetricPoint (A : Type 0) : Type 0 where
  pub id : ℕ
  pub metric_type : String
  pub attributes : Option A
  pub value : Value
  pub created_at : ℕ
  pub stream_key : Option String
  pub temporality : Option ℕ
  pub is_monotonic : Bool
  pub start_time_unix_nano : Option ℕ

-- An amount in a number of nanoseconds, or NaN.
pub data Rate : Type 0 where
  per : ℕ → ℕ → Rate
  no_rate : Rate

abbrev pub is_natural : Value → Bool
is_natural (Value.natural n) = true
is_natural _ = false

abbrev pub amount : Value → ℕ
amount (Value.natural n) = n
amount _ = 0

abbrev is_temporality : ℕ → Option ℕ → Bool
is_temporality n none = false
is_temporality n (some m) = nat_eq m n

abbrev same_start : Option ℕ → Option ℕ → Bool
same_start none none = true
same_start none (some b) = false
same_start (some a) none = false
same_start (some a) (some b) = nat_eq a b

-- An instant in nanoseconds.
abbrev pub nanos : ℕ → ℕ
nanos t = t * 1000000

module _ {A : Type 0} (series_identity : Option A → String) where
  unfoldable pub point_identity : OtelMetricPoint A → String
  point_identity p = or_else p.stream_key "" +++ "|" +++ series_identity p.attributes

  abbrev pub starts : OtelMetricPoint A → ℕ
  starts p = or_else p.start_time_unix_nano 0

  abbrev pub ends : OtelMetricPoint A → ℕ
  ends p = nanos p.created_at

  abbrev is_rated : OtelMetricPoint A → Bool
  is_rated p =
      p.metric_type == "sum"
      && (p.is_monotonic && (ltb 0 (starts p) && (ltb (starts p) (ends p) && is_natural p.value)))

  abbrev starts_after : OtelMetricPoint A → Option (OtelMetricPoint A) → Bool
  starts_after p none = true
  starts_after p (some last) = leb (ends last) (starts p)

  abbrev continues : OtelMetricPoint A → OtelMetricPoint A → Bool
  continues p last =
      last.is_monotonic
      && (is_temporality 2 last.temporality
          && (same_start last.start_time_unix_nano p.start_time_unix_nano
              && (is_natural last.value
                  && (leb (amount last.value) (amount p.value)
                      && ltb last.created_at p.created_at))))

  abbrev pub cumulative_rate : OtelMetricPoint A → Option (OtelMetricPoint A) → Rate
  cumulative_rate p none = Rate.no_rate
  cumulative_rate p (some last) =
      if is_temporality 2 p.temporality && continues p last
      then Rate.per (amount p.value - amount last.value) (ends p - ends last)
      else Rate.no_rate

  unfoldable pub rate_of : OtelMetricPoint A → Option (OtelMetricPoint A) → Rate
  rate_of p last =
      if is_rated p
      then (if is_temporality 1 p.temporality && starts_after p last
          then Rate.per (amount p.value) (ends p - starts p)
          else cumulative_rate p last)
      else Rate.no_rate

  -- The points by time and, at one time, by id.
  abbrev pub earlier : OtelMetricPoint A → OtelMetricPoint A → Bool
  earlier a b = ltb a.created_at b.created_at || (nat_eq a.created_at b.created_at && leb a.id b.id)

  -- `previous.set(id, point)`.
  abbrev pub recorded :
      OtelMetricPoint A
      → (String → Option (OtelMetricPoint A))
      → String
      → Option (OtelMetricPoint A)
  recorded p previous k = if k == point_identity p then some p else previous k

  unfoldable pub rates_from :
      (String → Option (OtelMetricPoint A))
      → List (OtelMetricPoint A)
      → List (OtelMetricPoint A × Rate)
  unfolding point_identity
  rates_from previous [] = []
  rates_from previous (p ∷ ps) =
      (p, rate_of p (previous (point_identity p))) ∷ rates_from (recorded p previous) ps

  unfoldable pub metric_rates : List (OtelMetricPoint A) → List (OtelMetricPoint A × Rate)
  metric_rates points = rates_from (λ k. none) (sort_by earlier points)
