-- ===== src/Demo/State.antt =====
-- The fixtures that the demo server keeps in memory and changes: the module-level arrays, maps and
-- sets of services/mockRouter.ts, with what a request finds in its surroundings.
use everyup.Common.{
  ℕ, zero, suc, String, Bool, true, false, Option, some, none, List, [], ◌∷◌, if◌then◌else◌, ◌==◌,
  ◌+++◌, hex_byte, any,
}
use everyup.Api.Agents.{
  ConnectedAgent, AgentServiceFlat, AgentProfile, AgentJoinCode, SignalReceipt, AgentProfileKind,
  AgentCollectionCapability,
}
use everyup.Api.Hosts.{InfrastructureResource}
use everyup.Api.Monitors.{UptimeMonitor, UptimeMonitorType}
use everyup.Api.Observed.{ObservedService, TelemetrySignal}
use everyup.Api.Projects.{Project}
use everyup.Demo.Profiles.{PartialProfile}

pub data RunStatus : Type 0 where
  planned applying verified failed rolled_back rollback_failed : RunStatus

pub record RunTarget : Type 0 where
  pub key : String
  pub name : String
  pub runtime : String

-- features/services/instrumentationApi.ts
pub record InstrumentationRun : Type 0 where
  pub id : String
  pub agent_id : String
  pub project : String
  pub targets : List RunTarget
  pub capture_bodies : Bool
  pub status : RunStatus
  pub reason : String
  pub created_at : ℕ
  pub updated_at : ℕ
  pub started_at : Option ℕ
  pub signals : List SignalReceipt

-- A Map of the source is its entries in the order of their insertion.
pub record DemoState : Type 0 where
  pub agents : List ConnectedAgent
  pub services : List AgentServiceFlat
  pub monitors : List UptimeMonitor
  pub projects : List Project
  pub observed : List ObservedService
  pub infrastructure : List InfrastructureResource
  pub log_filters : List (String × List String)
  pub api_exclusions : List (String × List String)
  pub pending_profiles : List String
  pub runs : List (String × InstrumentationRun)

-- Date.now(), the random bytes that the request draws, and decodeURIComponent; `none` is its
-- URIError.
pub record Env : Type 0 where
  pub now : ℕ
  pub byte : ℕ → ℕ
  pub decode : String → Option String

-- A JSON object with the fields that some handler reads; a field that it lacks is `none`.
pub record Payload : Type 0 where
  pub id : Option String
  pub name : Option String
  pub description : Option String
  pub project_id : Option String
  pub signals : Option (List TelemetrySignal)
  pub levels : Option (List String)
  pub paths : Option (List String)
  pub profile : Option PartialProfile
  pub kind : Option AgentProfileKind
  pub capabilities : Option (List AgentCollectionCapability)
  pub type : Option UptimeMonitorType
  pub url : Option String
  pub host : Option String
  pub port : Option ℕ
  pub method : Option String
  pub expected_status : Option ℕ
  pub timeout : Option ℕ
  pub interval : Option ℕ
  pub is_active : Option Bool
  pub project : Option String
  pub keys : Option (List String)
  pub capture_bodies : Option Bool

abbrev pub empty_payload : Payload
empty_payload = record {
  id = none;
  name = none;
  description = none;
  project_id = none;
  signals = none;
  levels = none;
  paths = none;
  profile = none;
  kind = none;
  capabilities = none;
  type = none;
  url = none;
  host = none;
  port = none;
  method = none;
  expected_status = none;
  timeout = none;
  interval = none;
  is_active = none;
  project = none;
  keys = none;
  capture_bodies = none;
}

-- No text, a text that JSON.parse refuses, the text `null`, or the object that it holds.
pub data Body : Type 0 where
  absent malformed null : Body
  json : Payload → Body

-- `JSON.parse(typeof body === 'string' ? body : '{}')`; `none` is the SyntaxError. For a handler that
-- copies the fields of `null`, or reads them by `?.`, it has none.
abbrev pub parse : Body → Option Payload
parse absent = some empty_payload
parse malformed = none
parse null = some empty_payload
parse (json p) = some p

-- For a handler that reads a field: that of `null` is a TypeError.
abbrev pub parse_object : Body → Option Payload
parse_object absent = some empty_payload
parse_object malformed = none
parse_object null = none
parse_object (json p) = some p

abbrev pub is_null : Body → Bool
is_null null = true
is_null _ = false

-- The `id` that a body has, where it is one that parses.
abbrev pub body_id : Body → Option String
body_id b = elim (parse b) [ none ↦ none | some p ↦ p.id ]

pub data Failure : Type 0 where
  not_found syntax_error type_error uri_error source_unavailable : Failure

-- What `parse_object` ends in where it gives no object.
abbrev pub refusal : Body → Failure
refusal null = Failure.type_error
refusal _ = Failure.syntax_error

pub data Reply : Type 0 where
  null undefined : Reply
  infrastructure : InfrastructureResource → Reply
  observed : ObservedService → Reply
  project : Project → Reply
  monitor : UptimeMonitor → Reply
  profile : AgentProfile → Reply
  created_agent : (id name : String) → AgentProfile → AgentJoinCode → Reply
  join : AgentJoinCode → Reply
  api_key : String → Reply
  levels paths : List String → Reply
  run : InstrumentationRun → Reply
  thrown : Failure → Reply

-- `row as T`, where the row may be undefined.
abbrev pub reply_row {ℓ} : {A : Type ℓ} → (A → Reply) → Option A → Reply
reply_row f none = undefined
reply_row f (some r) = f r

-- `Map.get`, `Map.set` and `Map.delete`.
module _ {ℓ} {V : Type ℓ} where
  abbrev pub map_get : String → List (String × V) → Option V
  map_get k [] = none
  map_get k ((j, v) ∷ m) = if j == k then some v else map_get k m

  abbrev pub map_set : String → V → List (String × V) → List (String × V)
  map_set k v [] = (k, v) ∷ []
  map_set k v ((j, w) ∷ m) =
      let rest = map_set k v m in if j == k then (j, v) ∷ m else (j, w) ∷ rest

  abbrev pub map_delete : String → List (String × V) → List (String × V)
  map_delete k [] = []
  map_delete k ((j, w) ∷ m) = let rest = map_delete k m in if j == k then m else (j, w) ∷ rest

-- `Set.add`.
abbrev pub set_add : String → List String → List String
set_add k xs = if any (λ x. x == k) xs then xs else k ∷ xs

-- randomHex, over the bytes that the request draws.
unfoldable pub random_hex : (ℕ → ℕ) → ℕ → String
random_hex byte zero = ""
random_hex byte (suc n) = random_hex byte n +++ hex_byte (byte n)
