-- ===== src/Hooks/DataFetch.antt =====
-- The hook that fetches data, in the mode that calls the API: hooks/useDataFetch.ts.
use everyup.Common.{
  Bool, true, false, Option, some, none, ◌≡◌, refl, ap, ◌∙◌, not, if◌then◌else◌, arith, Bool-cases,
  inl, inr,
}
use everyup.Client.Errors.{Thrown}
use everyup.Uptime.Detail.{Settled, fulfilled, rejected}

-- The error that is kept: a thrown value that is no Error becomes one with a fixed message.
abbrev pub as_error : Thrown → Thrown
as_error (Thrown.api_error e) = Thrown.api_error e
as_error (Thrown.error m) = Thrown.error m
as_error Thrown.value = Thrown.error "Unknown error"

pub record FetchState (A : Type 0) : Type 0 where
  pub fetched : Option A
  pub loading : Bool
  pub error : Option Thrown
  pub initial_load_done : Bool

module _ {A : Type 0} where
  unfoldable pub unfetched : Bool → A → FetchState A
  unfetched use_mock mock = record {
    fetched = if use_mock then some mock else none;
    loading = not use_mock;
    error = none;
    initial_load_done = false;
  }

  -- `fetch` up to its request, which the mock mode does not make, and after its answer.
  unfoldable pub start_fetch : Bool → A → FetchState A → FetchState A
  start_fetch true mock s = record s { fetched = some mock; loading = false }
  start_fetch false mock s = record s {
    loading = if s.initial_load_done then s.loading else true;
    error = none;
  }

  unfoldable pub settle_fetch : Settled A → FetchState A → FetchState A
  settle_fetch (fulfilled a) s = record s {
    fetched = some a;
    loading = false;
    initial_load_done = true;
  }
  settle_fetch (rejected e) s = record s {
    error = some (as_error e);
    loading = false;
    initial_load_done = true;
  }

  pub data FetchEvent (use_mock : Bool) (mock : A) (s : FetchState A) : FetchState A → Type 0 where
    fetch_started : FetchEvent use_mock mock s (start_fetch use_mock mock s)
    fetch_settled :
        (r : Settled A) → use_mock ≡ false → FetchEvent use_mock mock s (settle_fetch r s)

  pub data FetchReached (use_mock : Bool) (mock : A) : FetchState A → Type 0 where
    first_fetch : FetchReached use_mock mock (unfetched use_mock mock)
    fetch_again :
        (s t : FetchState A)
        → FetchReached use_mock mock s
        → FetchEvent use_mock mock s t
        → FetchReached use_mock mock t

  -- The page is loading exactly before the first answer; in the mock mode it has the mock data and
  -- no error, and waits for nothing.
  abbrev pub IsFetched : Bool → A → FetchState A → Type 0
  IsFetched true mock s = (s.fetched ≡ some mock) × ((s.loading ≡ false) × (s.error ≡ none))
  IsFetched false mock s =
      (s.loading ≡ not s.initial_load_done)
      × ((s.loading ≡ true → (s.fetched ≡ none) × (s.error ≡ none)))

  event-IsFetched :
      (use_mock : Bool) (mock : A) (s t : FetchState A)
      → IsFetched use_mock mock s
      → FetchEvent use_mock mock s t
      → IsFetched use_mock mock t
  unfolding start_fetch settle_fetch
  event-IsFetched true mock s _ (d, (l, e)) fetch_started = (refl, (refl, e))
  event-IsFetched true mock s _ h (fetch_settled r b) = ground arith
  event-IsFetched false mock s _ (l, h) fetch_started = elim (Bool-cases s.initial_load_done) [
    | inl b ↦ rw b (l ∙ ap not b, λ c. ((h c).0, refl))
    | inr b ↦ rw b (refl, λ c. ((h (l ∙ ap not b)).0, refl))
  ]
  event-IsFetched false mock s _ h (fetch_settled (fulfilled a) b) = (refl, λ c. ground arith)
  event-IsFetched false mock s _ h (fetch_settled (rejected e) b) = (refl, λ c. ground arith)

  -- However often data are fetched and however the requests are answered: with the mock data, they
  -- are shown at once and never an error; otherwise the page is loading exactly until the first
  -- answer, however many requests follow it, and it shows no data and no error until then.
  pub FetchReached-IsFetched :
      (use_mock : Bool) (mock : A) (s : FetchState A)
      → FetchReached use_mock mock s
      → IsFetched use_mock mock s
  unfolding unfetched
  FetchReached-IsFetched true mock _ first_fetch = (refl, (refl, refl))
  FetchReached-IsFetched false mock _ first_fetch = (refl, λ h. (refl, refl))
  FetchReached-IsFetched b mock t (fetch_again s _ g e) =
      event-IsFetched b mock s t (FetchReached-IsFetched b mock s g) e
