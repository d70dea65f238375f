-- ===== src/Api/Logs.antt =====
-- Log rows, their daily summaries and patterns, and API requests: services/api/services.ts.
use everyup.Common.{ℕ, String, Option, List, Bool}

pub data LogLevel : Type 0 where
  error warn info debug trace : LogLevel

pub record LogHistogramBucket : Type 0 where
  pub time : ℕ
  pub error : ℕ
  pub warn : ℕ
  pub info : ℕ
  pub debug : ℕ
  pub trace : ℕ

pub record LogSample : Type 0 where
  pub level : LogLevel
  pub message : String
  pub created_at : ℕ

pub record LogServiceSummary : Type 0 where
  pub service_id : Option String
  pub agent_id : Option String
  pub service_name : String
  pub error : ℕ
  pub warn : ℕ
  pub latest : Option LogSample
  pub last_received_at : Option ℕ
  pub buckets : List LogHistogramBucket

pub record LogPattern : Type 0 where
  pub fingerprint : String
  pub level : LogLevel
  pub service_id : Option String
  pub agent_id : Option String
  pub service_name : String
  pub message : String
  pub count : ℕ
  pub first_seen : ℕ
  pub last_seen : ℕ

-- `attributes` are those of the row's metadata, as texts; `none` where the metadata has none.
pub record LogEntry : Type 0 where
  pub id : ℕ
  pub service_id : String
  pub agent_id : Option String
  pub service_name : Option String
  pub level : LogLevel
  pub message : String
  pub attributes : Option (List (String × String))
  pub trace_id : Option String
  pub span_id : Option String
  pub created_at : ℕ

pub record ApiRequest : Type 0 where
  pub id : ℕ
  pub service_id : String
  pub request_id : String
  pub method : String
  pub path : String
  pub path_template : String
  pub route : Option String
  pub service_name : Option String
  pub trace_id : Option String
  pub span_id : Option String
  pub status_code : ℕ
  pub duration_ms : ℕ
  pub client_ip : Option String
  pub error : Option String
  pub is_error : Bool
  pub created_at : ℕ
