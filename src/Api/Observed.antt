-- ===== src/Api/Observed.antt =====
-- Services that send telemetry directly: services/api/observedServices.ts.
use everyup.Common.{ℕ, String, Option, List, Bool}

pub data TelemetrySignal : Type 0 where
  logs metrics traces : TelemetrySignal

-- `api_key` is the field of ObservedServiceSetup, absent in a plain service.
pub record ObservedService : Type 0 where
  pub id : String
  pub name : String
  pub project_id : Option String
  pub signals : List TelemetrySignal
  pub log_level_filter : Option (List String)
  pub api_exclude_paths : Option (List String)
  pub is_active : Bool
  pub api_key_masked : Option String
  pub api_key : Option String
  pub last_seen_at : Option ℕ
  pub created_at : ℕ
  pub updated_at : ℕ

pub record ObservedServiceInput : Type 0 where
  pub name : String
  pub project_id : Option String
  pub signals : List TelemetrySignal
