-- ===== src/Hooks/FetchTests.antt =====
-- Runs of the hooks that fetch data: hooks/useDataFetch.ts and
-- features/api-requests/useApiTargets.ts.
use everyup.Common.{ℕ, true, false, some, none, [], ◌∷◌, ◌≡◌, refl}
use everyup.Api.Observed.{ObservedService}
use everyup.Client.Errors.{Thrown}
use everyup.Uptime.Detail.{fulfilled, rejected}
use everyup.Hooks.DataFetch.{
  FetchState, IsFetched, unfetched, settle_fetch, first_fetch, fetch_again, fetch_settled,
  FetchReached-IsFetched,
}
use everyup.Hooks.Targets.{
  ApiTargets, no_targets, start_load, settle_load, start_retry, settle_retry,
}

abbrev fetched_three : FetchState ℕ
fetched_three = settle_fetch (fulfilled 3) (unfetched false 0)

FetchReached-IsFetched_example : IsFetched false 0 fetched_three
FetchReached-IsFetched_example =
    FetchReached-IsFetched false 0 fetched_three
      (fetch_again (unfetched false 0) fetched_three first_fetch (fetch_settled (fulfilled 3) refl))

abbrev api_service : ObservedService
api_service = record {
  id = "o1";
  name = "api";
  project_id = none;
  signals = [];
  log_level_filter = none;
  api_exclude_paths = none;
  is_active = true;
  api_key_masked = none;
  api_key = none;
  last_seen_at = none;
  created_at = 100;
  updated_at = 100;
}

abbrev begun : ApiTargets ℕ
begun = start_load no_targets

abbrev failed : ApiTargets ℕ
failed = settle_load true (fulfilled ((api_service, rejected Thrown.value) ∷ [])) begun

abbrev retried : ApiTargets ℕ
retried = start_retry "o1" failed

abbrev told : ApiTargets ℕ
told = settle_retry "o1" 1 (fulfilled 4) retried

shows_summary :
    told.rows
    ≡ (record { service = api_service; summary = some 4; error = none; loading = false }) ∷ []
unfolding start_load no_targets settle_load start_retry settle_retry
shows_summary = refl
