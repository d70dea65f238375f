-- ===== src/Demo/Laws/Profiles.antt =====
-- The profile that the demo server gives an agent: normalizeMockAgentProfile of
-- services/mockRouter.ts.
use everyup.Common.{true, Option, some, List, ◌≡◌, ◌||◌, ◌&&◌, keep, arith}
use everyup.Api.Agents.{AgentProfile, AgentProfileKind, AgentCollectionCapability}
use everyup.Demo.Profiles.{
  PartialProfile, normalize_profile, selected, has, same_capability, all_capabilities,
}

-- What is asked for, as a profile is sent by the client.
abbrev pub as_partial : AgentProfile → PartialProfile
as_partial p = record { kind = some p.kind; capabilities = some p.capabilities }

pub has_kept :
    (xs : List AgentCollectionCapability) (c : AgentCollectionCapability)
    → has (keep (has xs) all_capabilities) c ≡ has xs c
has_kept xs AgentCollectionCapability.uptime = ground arith
has_kept xs AgentCollectionCapability.logs = ground arith
has_kept xs AgentCollectionCapability.infrastructure = ground arith
has_kept xs AgentCollectionCapability.api = ground arith
has_kept xs AgentCollectionCapability.metrics = ground arith

-- A custom profile has exactly the capabilities that were asked for, and uptime where logs or api
-- was asked for; so a profile that has logs or api always has uptime.
pub normalize_custom :
    (given : List AgentCollectionCapability) (c : AgentCollectionCapability)
    → has
        (normalize_profile (
          some (record {
            kind = some AgentProfileKind.custom;
            capabilities = some given;
          }))).capabilities
        c
      ≡ (has given c
          || (same_capability c AgentCollectionCapability.uptime
              && (has given AgentCollectionCapability.logs
                  || has given AgentCollectionCapability.api)))
unfolding normalize_profile selected
normalize_custom given AgentCollectionCapability.uptime = ground arith
normalize_custom given AgentCollectionCapability.logs = ground arith
normalize_custom given AgentCollectionCapability.infrastructure = ground arith
normalize_custom given AgentCollectionCapability.api = ground arith
normalize_custom given AgentCollectionCapability.metrics = ground arith

-- Whatever was asked for, a profile with logs or api has uptime, and normalising it once more
-- changes nothing.
pub normalize_again :
    (p : Option PartialProfile)
    → normalize_profile (some (as_partial (normalize_profile p))) ≡ normalize_profile p
      × ((has (normalize_profile p).capabilities AgentCollectionCapability.logs
              || has (normalize_profile p).capabilities AgentCollectionCapability.api)
            ≡ true
          → has (normalize_profile p).capabilities AgentCollectionCapability.uptime ≡ true)
unfolding normalize_profile selected
normalize_again p = ground arith

-- A custom profile has exactly the capabilities that were asked for, and uptime where logs or api
-- was asked for; and normalising any profile once more changes nothing.
pub normalize_profile_lem :
    (given : List AgentCollectionCapability) (c : AgentCollectionCapability)
    (p : Option PartialProfile)
    → (has
          (normalize_profile (
            some (record {
              kind = some AgentProfileKind.custom;
              capabilities = some given;
            }))).capabilities
          c
        ≡ (has given c
            || (same_capability c AgentCollectionCapability.uptime
                && (has given AgentCollectionCapability.logs
                    || has given AgentCollectionCapability.api))))
      × (normalize_profile (some (as_partial (normalize_profile p))) ≡ normalize_profile p)
normalize_profile_lem given c p = (normalize_custom given c, (normalize_again p).0)
