-- ===== src/Hooks/Targets.antt =====
-- The observed services with the summaries of their requests, and the retry of one of them:
-- features/api-requests/useApiTargets.ts.
use everyup.Common.{
  ℕ, ◌+◌, String, Bool, true, false, Option, some, none, List, [], ◌≡◌, map, ◌&&◌, ◌||◌, ◌==◌,
  if◌then◌else◌, nat_eq, is_some,
}
use everyup.Api.Observed.{ObservedService}
use everyup.Client.Errors.{get_error_message}
use everyup.Uptime.Detail.{Settled, fulfilled, rejected}

pub record ApiTarget (S : Type 0) : Type 0 where
  pub service : ObservedService
  pub summary : Option S
  pub error : Option String
  pub loading : Bool

pub record ApiTargets (S : Type 0) : Type 0 where
  pub rows : List (ApiTarget S)
  pub loading : Bool
  pub error : Option String
  pub generation : ℕ

module _ {S : Type 0} where
  unfoldable pub no_targets : ApiTargets S
  no_targets = record { rows = []; loading = true; error = none; generation = 0 }

  -- The effect up to its requests, and its cleanup.
  unfoldable pub start_load : ApiTargets S → ApiTargets S
  start_load s = record s { generation = s.generation + 1; loading = true; error = none }

  unfoldable pub clean_up : ApiTargets S → ApiTargets S
  clean_up s = record s { generation = s.generation + 1 }

  abbrev pub answered : ObservedService → Settled S → ApiTarget S
  answered service (fulfilled x) = record {
    service = service;
    summary = some x;
    error = none;
    loading = false;
  }
  answered service (rejected e) = record {
    service = service;
    summary = none;
    error = some (get_error_message e);
    loading = false;
  }

  -- The answers to the effect; `active` is its variable that the cleanup resets.
  unfoldable pub settle_load :
      Bool → Settled (List (ObservedService × Settled S)) → ApiTargets S → ApiTargets S
  settle_load false r s = s
  settle_load true (fulfilled results) s = record s {
    rows = map (λ x. answered x.0 x.1) results;
    loading = false;
  }
  settle_load true (rejected e) s = record s { error = some (get_error_message e); loading = false }

  abbrev is_target : String → ApiTarget S → Bool
  is_target id r = r.service.id == id

  abbrev retried_row : String → ApiTarget S → ApiTarget S
  retried_row id r = if is_target id r then record r { error = none; loading = true } else r

  abbrev answered_row : String → Settled S → ApiTarget S → ApiTarget S
  answered_row id x r = if is_target id r then answered r.service x else r

  -- retryTarget up to its request, and its answer, where `version` is the generation at its start.
  unfoldable pub start_retry : String → ApiTargets S → ApiTargets S
  start_retry id s = record s { rows = map (retried_row id) s.rows }

  unfoldable pub settle_retry : String → ℕ → Settled S → ApiTargets S → ApiTargets S
  settle_retry id version x s =
      if nat_eq s.generation version then record s { rows = map (answered_row id x) s.rows } else s

  pub data TargetsEvent (s : ApiTargets S) : ApiTargets S → Type 0 where
    changed : TargetsEvent s (start_load (clean_up s))
    loaded :
        (active : Bool) (r : Settled (List (ObservedService × Settled S)))
        → TargetsEvent s (settle_load active r s)
    retry_started : (id : String) → TargetsEvent s (start_retry id s)
    retry_answered :
        (id : String) (version : ℕ) (x : Settled S) → TargetsEvent s (settle_retry id version x s)

  pub data TargetsReached : ApiTargets S → Type 0 where
    opened : TargetsReached (start_load no_targets)
    then_event : (s t : ApiTargets S) → TargetsReached s → TargetsEvent s t → TargetsReached t

  -- A row has no summary beside an error, and it has one of them unless it is loading.
  abbrev pub IsTold : ApiTarget S → Type 0
  IsTold r =
      ((is_some r.summary && is_some r.error) ≡ false)
      × ((r.loading || (is_some r.summary || is_some r.error)) ≡ true)
