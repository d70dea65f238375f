-- ===== src/Demo/Reads/Tests.antt =====
-- Runs of reading requests.
use everyup.Common.{
  ℕ, ◌+◌, ◌≤◌, ◌<◌, true, false, if◌then◌else◌, ◌==◌, none, List, [], ◌∷◌, ◌≡◌, length, sum_of,
}
use everyup.Api.Logs.{ApiRequest}
use everyup.Demo.Reads.Query.{Platform}
use everyup.Demo.Reads.Stats.{
  mock_request_stats, mock_request_status_summary, requests_counted_once,
}
use everyup.Demo.Samples.{demo_rows}
use everyup.Demo.State.{DemoState}

abbrev digits : Platform
digits = record {
  lower = λ s. s;
  contains = λ s t. s == t;
  number = λ s. if s == "0" then 0 else if s == "1" then 1 else 2;
  instant = λ s. 0;
  mask = λ s. s;
}

abbrev two_rows : List ℕ
two_rows = 7 ∷ 8 ∷ []

abbrev login : ApiRequest
login = record {
  id = 1;
  service_id = "";
  request_id = "r1";
  method = "POST";
  path = "/login";
  path_template = "/login";
  route = none;
  service_name = none;
  trace_id = none;
  span_id = none;
  status_code = 503;
  duration_ms = 40;
  client_ip = none;
  error = none;
  is_error = true;
  created_at = 1000;
}

abbrev marked : DemoState
marked = record demo_rows { pending_profiles = "a1" ∷ [] }

requests_counted_once_example :
    ((length (login ∷ login ∷ []) ≤ 100000
        → ((mock_request_stats 300 (login ∷ login ∷ [])).truncated ≡ false)
          × (sum_of (λ b. b.count) (mock_request_stats 300 (login ∷ login ∷ [])).buckets
              ≡ length (login ∷ login ∷ [])))
      × (100000 < length (login ∷ login ∷ [])
          → mock_request_stats 300 (login ∷ login ∷ [])
            ≡ record { buckets = []; truncated = true }))
    × ((mock_request_status_summary (login ∷ login ∷ [])).count2xx
          + (mock_request_status_summary (login ∷ login ∷ [])).count3xx
          + (mock_request_status_summary (login ∷ login ∷ [])).count4xx
          + (mock_request_status_summary (login ∷ login ∷ [])).count5xx
          + (mock_request_status_summary (login ∷ login ∷ [])).count_other
        ≡ length (login ∷ login ∷ []))
requests_counted_once_example = requests_counted_once 300 (login ∷ login ∷ [])
