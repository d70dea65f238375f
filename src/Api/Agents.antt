-- ===== src/Api/Agents.antt =====
-- Docker agents, the services that they report, and incidents: services/api/agents.ts.
use everyup.Common.{ℕ, String, Option, List, Bool}

pub data AgentProfileKind : Type 0 where
  all_in_one basic custom : AgentProfileKind

pub data AgentCollectionCapability : Type 0 where
  uptime logs infrastructure api metrics : AgentCollectionCapability

pub record AgentProfile : Type 0 where
  pub kind : AgentProfileKind
  pub capabilities : List AgentCollectionCapability

-- `capabilities`, the probe report of the installed agent, is read by no modelled code and left out.
pub record ConnectedAgent : Type 0 where
  pub id : String
  pub name : String
  pub project_id : Option String
  pub version : Option String
  pub last_seen_at : ℕ
  pub created_at : ℕ
  pub updated_at : ℕ
  pub profile : Option AgentProfile

pub record AgentJoinCode : Type 0 where
  pub join_code : String
  pub expires_at : ℕ

pub record SignalReceipt : Type 0 where
  pub service_name : String
  pub signal : String
  pub first_received_at : ℕ
  pub last_received_at : ℕ

-- `lastEnrolledAt` is set by no handler and left out; SetupCheck of Setup.AddService adds it.
pub record CollectorSetupStatus : Type 0 where
  pub connected : Bool
  pub last_contact_at : Option ℕ
  pub desired_hash : String
  pub applied_hash : String
  pub config_applied : Bool
  pub profile : AgentProfile
  pub signals : List SignalReceipt

-- A timestamp text: `new Date(text).getTime()` is NaN or an instant.
pub data Timestamp : Type 0 where
  invalid : Timestamp
  at : ℕ → Timestamp

-- AgentServiceSnapshot with the name of its agent.
pub record AgentServiceFlat : Type 0 where
  pub agent_id : String
  pub key : String
  pub name : String
  pub check_type : String
  pub endpoint : String
  pub runtime : Option String
  pub image : Option String
  pub restart_count : Option ℕ
  pub started_at : Option ℕ
  pub healthy : Bool
  pub seen : Bool
  pub silenced : Bool
  pub last_error : Option String
  pub last_status : Option ℕ
  pub last_latency : Option String
  pub updated_at : Option ℕ
  pub observed_at : Timestamp
  pub agent_name : String

pub record AgentIncident : Type 0 where
  pub agent_id : Option String
  pub key : String
  pub service_name : String
  pub started_at : ℕ
  pub ended_at : Option ℕ
  pub duration_sec : ℕ
  pub active : Bool

pub data IncidentSource : Type 0 where
  uptime docker : IncidentSource

pub record TimelineIncident : Type 0 where
  pub source : IncidentSource
  pub target_name : String
  pub target_path : String
  pub started_at : ℕ
  pub ended_at : Option ℕ
  pub duration_sec : ℕ
  pub active : Bool
  pub message : Option String
