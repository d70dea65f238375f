-- ===== src/Api/Monitors.antt =====
-- Uptime monitors: services/api/services.ts. Percentages are whole numbers here.
use everyup.Common.{ℕ, String, Option, List, Bool}

pub data UptimeMonitorType : Type 0 where
  http tcp : UptimeMonitorType

pub data UptimeMonitorStatus : Type 0 where
  healthy unhealthy unknown : UptimeMonitorStatus

pub record UptimeMonitor : Type 0 where
  pub id : String
  pub name : String
  pub project_id : Option String
  pub type : UptimeMonitorType
  pub is_active : Bool
  pub url : String
  pub port : Option ℕ
  pub method : String
  pub expected_status : ℕ
  pub timeout : ℕ
  pub interval : ℕ
  pub status : UptimeMonitorStatus
  pub last_check_at : Option ℕ
  pub uptime : Option ℕ
  pub response_time : Option ℕ
  pub latency_history : Option (List ℕ)
  pub cert_expires_at : Option ℕ

-- A form's fields; each may be missing, since the router reads a Partial of it.
pub record UptimeMonitorInput : Type 0 where
  pub name : String
  pub type : UptimeMonitorType
  pub url : Option String
  pub host : Option String
  pub port : Option ℕ
  pub method : Option String
  pub expected_status : Option ℕ
  pub timeout : Option ℕ
  pub interval : Option ℕ
  pub is_active : Option Bool

pub data CheckStatus : Type 0 where
  success failure : CheckStatus

pub record UptimeMonitorMetric : Type 0 where
  pub id : ℕ
  pub service_id : String
  pub status : CheckStatus
  pub response_time : ℕ
  pub status_code : Option ℕ
  pub error_message : Option String
  pub checked_at : ℕ

pub record UptimeMonitorSummary : Type 0 where
  pub service_id : String
  pub total_checks : ℕ
  pub successful_checks : ℕ
  pub failed_checks : ℕ
  pub uptime : ℕ
  pub avg_response_time : ℕ
  pub min_response_time : ℕ
  pub max_response_time : ℕ

pub data DayStatus : Type 0 where
  up partial down : DayStatus

pub record UptimeMonitorDay : Type 0 where
  pub date : String
  pub status : DayStatus
  pub uptime : ℕ

pub record UptimeMonitorHistory : Type 0 where
  pub percentage : ℕ
  pub days : List UptimeMonitorDay
