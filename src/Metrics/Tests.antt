-- ===== src/Metrics/Tests.antt =====
-- Runs of the rates and of the loading of a metric: features/metrics/metricSeries.ts and
-- features/metrics/useMetricRead.ts.
use everyup.Common.{
  ℕ, String, true, false, Option, some, none, List, [], ◌∷◌, ◌≡◌, refl, All, map, or_else, ◌==◌,
  sort_by, if◌then◌else◌,
}
use everyup.Uptime.Detail.{fulfilled}
use everyup.Metrics.Rates.{OtelMetricPoint, Value, Rate, metric_rates, rates_from, rate_of}
use everyup.Metrics.Intervals.{AreDisjoint, IsTimed, metric_rates-AreDisjoint}
use everyup.Metrics.Read.{
  Input, MetricSource, MetricWindow, MetricRead, Stage, first_read, settle_data,
}
use everyup.Metrics.Reading.{
  ReadReached, all_answered, reading_ends, IsEnded, IsReading, mounted, went_on, data_answered,
  ReadReached-IsReading,
}

abbrev identity : Option String → String
identity a = or_else a "{}"

abbrev point : ℕ → ℕ → ℕ → OtelMetricPoint String
point i t n = record {
  id = i;
  metric_type = "sum";
  attributes = none;
  value = Value.natural n;
  created_at = t;
  stream_key = some "k";
  temporality = some 2;
  is_monotonic = true;
  start_time_unix_nano = some 1000000;
}

-- A counter that is read at 1000, 3000 and 4000, and that the last reading shows to be set back.
abbrev readings : List (OtelMetricPoint String)
readings = point 2 3000 50 ∷ point 1 1000 10 ∷ point 3 4000 5 ∷ []

rates_run :
    map (λ x. x.1) (metric_rates identity readings)
    ≡ Rate.no_rate ∷ Rate.per 40 2000000000 ∷ Rate.no_rate ∷ []
unfolding metric_rates rates_from sort_by rate_of
rates_run = refl

metric_rates-AreDisjoint_example :
    AreDisjoint identity (metric_rates identity readings)
    × All (IsTimed identity) (metric_rates identity readings)
metric_rates-AreDisjoint_example = metric_rates-AreDisjoint identity readings

abbrev type_of : String → String
type_of s = if s == "h" then "histogram" else "sum"

abbrev input : Input
input = record {
  source = MetricSource.direct "o1";
  selection = "h";
  from = "0";
  to = "1";
  expanded = true;
  refresh_key = 0;
  retry_key = 0;
}

abbrev window : MetricWindow
window = record { range = "6h"; from = "0"; to = "1" }

abbrev begun : MetricRead ℕ ℕ
begun = first_read input window

abbrev with_data : MetricRead ℕ ℕ
with_data = settle_data type_of false input window (fulfilled 7) begun

abbrev begun_to_data : ReadReached type_of with_data
unfolding first_read
begun_to_data = went_on begun with_data (mounted input window) (data_answered (fulfilled 7) refl)

ReadReached-IsReading_example : IsReading type_of with_data
ReadReached-IsReading_example = ReadReached-IsReading type_of with_data begun_to_data

waits_for_quantiles : with_data.running ≡ some Stage.of_quantiles
unfolding first_read settle_data
waits_for_quantiles = refl

reading_ends_example : IsEnded type_of (all_answered type_of (fulfilled 8) (fulfilled 9) with_data)
reading_ends_example = reading_ends type_of with_data (fulfilled 8) (fulfilled 9) begun_to_data
