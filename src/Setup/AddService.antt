-- ===== src/Setup/AddService.antt =====
-- The state and the handlers of the dialog: AddServiceModal of
-- features/services/components/AddServiceModal.tsx.
use everyup.Common.{
  ℕ, ◌+◌, String, Bool, true, false, Option, some, none, List, [], ◌∷◌, not, ◌&&◌, ◌||◌,
  if◌then◌else◌, ◌==◌, leb, nat_eq, keep, any, find, is_some,
}
use everyup.Api.Agents.{
  AgentProfile, AgentProfileKind, AgentCollectionCapability, AgentJoinCode, CollectorSetupStatus,
  ConnectedAgent, SignalReceipt, AgentServiceFlat,
}
use everyup.Client.Errors.{get_error_message}
use everyup.Uptime.Detail.{Settled, fulfilled, rejected}
use everyup.Demo.Profiles.{all_capabilities, has, same_capability}

-- toggleCapability: `next` as a set, then the options that it has, in the order of the options.
abbrev pub added :
    AgentCollectionCapability → List AgentCollectionCapability → List AgentCollectionCapability
added c xs = c ∷ xs

abbrev pub deleted :
    AgentCollectionCapability → List AgentCollectionCapability → List AgentCollectionCapability
deleted c xs = keep (λ d. not (same_capability c d)) xs

abbrev pub needs_uptime : AgentCollectionCapability → Bool
needs_uptime AgentCollectionCapability.logs = true
needs_uptime AgentCollectionCapability.api = true
needs_uptime _ = false

unfoldable pub toggle_capability :
    AgentCollectionCapability
    → Bool
    → List AgentCollectionCapability
    → List AgentCollectionCapability
toggle_capability c enabled given =
    let next = if enabled then added c given else deleted c given in
    keep (has (if needs_uptime c then added AgentCollectionCapability.uptime next else next))
      all_capabilities

abbrev pub uptime_required : List AgentCollectionCapability → Bool
uptime_required given =
    has given AgentCollectionCapability.logs || has given AgentCollectionCapability.api

-- A switch that is disabled.
abbrev pub is_disabled : List AgentCollectionCapability → AgentCollectionCapability → Bool
is_disabled given c = same_capability c AgentCollectionCapability.uptime && uptime_required given

pub data SetupStep : Type 0 where
  form install : SetupStep

-- What a check of the connection reads of the setup status.
pub record SetupCheck : Type 0 where
  pub status : CollectorSetupStatus
  pub last_enrolled_at : Option ℕ

-- `created` counts the calls of `onCreated`; the texts of toasts are left out.
pub record AddServiceModal : Type 0 where
  pub existing : Bool
  pub step : SetupStep
  pub name : String
  pub profile_kind : AgentProfileKind
  pub custom_capabilities : List AgentCollectionCapability
  pub submitting : Bool
  pub refreshing_code : Bool
  pub agent_id : String
  pub join_code : String
  pub expires_at : Option ℕ
  pub code_expired : Bool
  pub setup_status : Option SetupCheck
  pub setup_error : String
  pub connected_agent : Option ConnectedAgent
  pub detected_services : List AgentServiceFlat
  pub announced_connection : Bool
  pub created : ℕ

-- The dialog for a new environment, and for an agent that there is.
unfoldable pub open_modal : Option (String × String) → AddServiceModal
open_modal existing_agent = record {
  existing = is_some existing_agent;
  step = elim existing_agent [ none ↦ SetupStep.form | some a ↦ SetupStep.install ];
  name = elim existing_agent [ none ↦ "" | some (id, name) ↦ name ];
  profile_kind = AgentProfileKind.all_in_one;
  custom_capabilities = AgentCollectionCapability.uptime ∷ [];
  submitting = false;
  refreshing_code = is_some existing_agent;
  agent_id = elim existing_agent [ none ↦ "" | some (id, name) ↦ id ];
  join_code = "";
  expires_at = none;
  code_expired = false;
  setup_status = none;
  setup_error = "";
  connected_agent = none;
  detected_services = [];
  announced_connection = false;
  created = 0;
}

-- handleCreate up to its request, which is `none` for a blank name, and after the answer.
unfoldable pub start_create :
    (String → String) → AddServiceModal → AddServiceModal × Option (String × AgentProfile)
start_create trim m = if trim m.name == "" then (m, none) else (
  record m { submitting = true },
  some (
    trim m.name,
    record {
      kind = m.profile_kind;
      capabilities = elim m.profile_kind [
        | AgentProfileKind.custom ↦ m.custom_capabilities
        | _ ↦ []
      ];
    },
  ),
)

-- The effect of `expiresAt`, which runs where it changes, at the instant `now`.
abbrev pub expired_at : ℕ → Option ℕ → Bool
expired_at now none = false
expired_at now (some t) = leb t now

abbrev with_code : ℕ → AgentJoinCode → AddServiceModal → AddServiceModal
with_code now r m = record m {
  join_code = r.join_code;
  expires_at = some r.expires_at;
  code_expired = elim m.expires_at [
    | none ↦ expired_at now (some r.expires_at)
    | some t ↦ if nat_eq t r.expires_at then m.code_expired else expired_at now (some r.expires_at)
  ];
}

unfoldable pub settle_create :
    ℕ → Settled (String × AgentJoinCode) → AddServiceModal → AddServiceModal
settle_create now (fulfilled (id, r)) m = record (with_code now r m) {
  agent_id = id;
  step = SetupStep.install;
  created = m.created + 1;
  submitting = false;
}
settle_create now (rejected e) m = record m { submitting = false }

-- A new join code, asked for by the user or by the effect of an agent that there is.
unfoldable pub start_refresh_code : AddServiceModal → AddServiceModal
start_refresh_code m = if m.agent_id == "" then m else record m { refreshing_code = true }

unfoldable pub settle_refresh_code : ℕ → Settled AgentJoinCode → AddServiceModal → AddServiceModal
settle_refresh_code now (fulfilled r) m = record (with_code now r m) { refreshing_code = false }
settle_refresh_code now (rejected e) m = record m { refreshing_code = false }

-- The timer of the code.
unfoldable pub expire_code : AddServiceModal → AddServiceModal
expire_code m = record m { code_expired = true }

-- An agent that there is counts as installed once it has enrolled after its code was made, that is
-- ten minutes before the code expires.
unfoldable pub reinstalled : Bool → Option ℕ → SetupCheck → Bool
reinstalled existing expires_at k = not existing || (elim expires_at [
  | none ↦ false
  | some t ↦ elim k.last_enrolled_at [ none ↦ false | some u ↦ leb t (u + 600000) ]
])

unfoldable pub confirmed : Bool → Option ℕ → SetupCheck → Bool
unfolding reinstalled
confirmed existing expires_at k =
    k.status.connected && (k.status.config_applied && reinstalled existing expires_at k)

abbrev announce : Option ℕ → SetupCheck → AddServiceModal → AddServiceModal
announce asked k m =
    if confirmed m.existing asked k && not m.announced_connection
    then record m { announced_connection = true; created = m.created + 1 }
    else m

pub record CheckAnswer : Type 0 where
  pub agents : List ConnectedAgent
  pub services : List AgentServiceFlat
  pub check : SetupCheck

abbrev pub found_agent : CheckAnswer → AddServiceModal → Option ConnectedAgent
found_agent a m = find (λ c. c.id == m.agent_id) a.agents

-- The answer to a refreshConnection that was called when `expiresAt` was `asked`.
unfoldable pub settle_check : Option ℕ → Settled CheckAnswer → AddServiceModal → AddServiceModal
unfolding confirmed
settle_check asked (rejected e) m = record m { setup_error = get_error_message e }
settle_check asked (fulfilled a) m = elim (found_agent a m) [
  | none ↦ record m { setup_status = some a.check; setup_error = ""; connected_agent = none }
  | some c ↦ announce asked a.check (record m {
    setup_status = some a.check;
    setup_error = "";
    connected_agent = some c;
    detected_services = a.services;
  })
]

-- What the dialog says of the connection, and whether the code can be copied.
unfoldable pub is_connected : AddServiceModal → Bool
unfolding confirmed
is_connected m =
    m.setup_error == ""
    && (elim m.setup_status [ none ↦ false | some k ↦ confirmed m.existing m.expires_at k ])

unfoldable pub code_unavailable : AddServiceModal → Bool
code_unavailable m = m.join_code == "" || (m.refreshing_code || m.code_expired)

abbrev signal_of : AgentCollectionCapability → String
signal_of AgentCollectionCapability.api = "traces"
signal_of AgentCollectionCapability.uptime = "uptime"
signal_of AgentCollectionCapability.logs = "logs"
signal_of AgentCollectionCapability.infrastructure = "infrastructure"
signal_of AgentCollectionCapability.metrics = "metrics"

abbrev has_signal : List SignalReceipt → AgentCollectionCapability → Bool
has_signal signals c = any (λ s. s.signal == signal_of c) signals

abbrev all_signals : CollectorSetupStatus → Bool
all_signals s = not (any (λ c. not (has_signal s.signals c)) s.profile.capabilities)

unfoldable pub is_diagnosed : AddServiceModal → Bool
unfolding is_connected
is_diagnosed m =
    is_connected m && (elim m.setup_status [ none ↦ false | some k ↦ all_signals k.status ])
