-- ===== src/Api/Hosts.antt =====
-- Infrastructure resources: services/api/hosts.ts. Usage percentages are whole numbers here.
use everyup.Common.{ℕ, String, Option, Bool}

pub data InfrastructureAdapter : Type 0 where
  everyup_agent otel_collector : InfrastructureAdapter

-- `api_key` is the field of InfrastructureResourceSetup, absent in a plain resource.
pub record InfrastructureResource : Type 0 where
  pub id : String
  pub name : String
  pub project_id : Option String
  pub adapter : InfrastructureAdapter
  pub is_active : Bool
  pub api_key_masked : Option String
  pub api_key : Option String
  pub last_seen_at : Option ℕ
  pub cpu_usage : Option ℕ
  pub memory_usage : Option ℕ
  pub disk_usage : Option ℕ
  pub created_at : ℕ
  pub updated_at : ℕ

pub record InfrastructureResourceInput : Type 0 where
  pub name : String
  pub project_id : Option String
