-- ===== src/Api/Projects.antt =====
-- Groups: services/api/projects.ts.
use everyup.Common.{ℕ, String, Option, none, some, Bool, false, ◌==◌}

pub record Project : Type 0 where
  pub id : String
  pub name : String
  pub description : Option String
  pub agent_count : ℕ
  pub monitor_count : ℕ
  pub observed_service_count : ℕ
  pub infrastructure_resource_count : ℕ
  pub created_at : ℕ
  pub updated_at : ℕ

pub record ProjectInput : Type 0 where
  pub name : String
  pub description : Option String

-- `row.projectId === id`.
abbrev pub is_in : String → Option String → Bool
is_in id none = false
is_in id (some q) = q == id
