-- ===== src/Demo/Profiles.antt =====
-- The collection profile of an agent: normalizeMockAgentProfile of services/mockRouter.ts.
use everyup.Common.{
  Bool, true, false, Option, some, none, List, [], ◌∷◌, ◌||◌, if◌then◌else◌, keep, any, or_else,
}
use everyup.Api.Agents.{AgentProfile, AgentProfileKind, AgentCollectionCapability}

-- Partial<AgentProfile>.
pub record PartialProfile : Type 0 where
  pub kind : Option AgentProfileKind
  pub capabilities : Option (List AgentCollectionCapability)

abbrev pub all_capabilities : List AgentCollectionCapability
all_capabilities =
    AgentCollectionCapability.uptime ∷ AgentCollectionCapability.logs
    ∷ AgentCollectionCapability.infrastructure ∷ AgentCollectionCapability.api
    ∷ AgentCollectionCapability.metrics ∷ []

-- Equality of capabilities, on which `Set.has` rests.
abbrev pub same_capability : AgentCollectionCapability → AgentCollectionCapability → Bool
same_capability AgentCollectionCapability.uptime AgentCollectionCapability.uptime = true
same_capability AgentCollectionCapability.logs AgentCollectionCapability.logs = true
same_capability AgentCollectionCapability.infrastructure AgentCollectionCapability.infrastructure =
    true
same_capability AgentCollectionCapability.api AgentCollectionCapability.api = true
same_capability AgentCollectionCapability.metrics AgentCollectionCapability.metrics = true
same_capability _ _ = false

abbrev pub has : List AgentCollectionCapability → AgentCollectionCapability → Bool
has xs c = any (same_capability c) xs

-- The set of a custom profile: logs and api need uptime.
unfoldable pub selected : List AgentCollectionCapability → List AgentCollectionCapability
selected given =
    if has given AgentCollectionCapability.logs || has given AgentCollectionCapability.api
    then AgentCollectionCapability.uptime ∷ given
    else given

custom_profile : List AgentCollectionCapability → AgentProfile
unfolding selected
custom_profile given = record {
  kind = AgentProfileKind.custom;
  capabilities = keep (has (selected given)) all_capabilities;
}

basic_profile : AgentProfile
basic_profile = record {
  kind = AgentProfileKind.basic;
  capabilities = AgentCollectionCapability.uptime ∷ AgentCollectionCapability.logs ∷ [];
}

full_profile : AgentProfile
full_profile = record { kind = AgentProfileKind.all_in_one; capabilities = all_capabilities }

by_kind : Option AgentProfileKind → List AgentCollectionCapability → AgentProfile
unfolding custom_profile basic_profile full_profile
by_kind (some AgentProfileKind.basic) given = basic_profile
by_kind (some AgentProfileKind.custom) given = custom_profile given
by_kind (some AgentProfileKind.all_in_one) given = full_profile
by_kind none given = full_profile

unfoldable pub normalize_profile : Option PartialProfile → AgentProfile
unfolding by_kind full_profile
normalize_profile none = full_profile
normalize_profile (some p) = by_kind p.kind (or_else p.capabilities [])
