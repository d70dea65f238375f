-- ===== src/Hooks/Load.antt =====
-- An effect that loads data for a key and is cleaned up when the key changes, as in
-- features/traces/components/TracePanel.tsx and features/api-requests/useApiTargets.ts.
use everyup.Common.{
  String, Bool, true, false, Option, some, none, List, [], ◌∷◌, ◌++◌, ◌≡◌, map, keep, not,
  if◌then◌else◌,
}
use everyup.Client.Errors.{get_error_message}
use everyup.Uptime.Detail.{Settled, fulfilled, rejected}

-- `loaded` is what the component shows, with the key whose request gave it.
pub record Load (K A : Type 0) : Type 0 where
  pub key : K
  pub loaded : Option (K × A)
  pub loading : Bool
  pub error : Option String

-- A request under way; `cancelled` is the variable that the cleanup sets.
pub record Request (K : Type 0) : Type 0 where
  pub of : K
  pub cancelled : Bool

pub record Loading (K A : Type 0) : Type 0 where
  pub state : Load K A
  pub requests : List (Request K)

module _ {K : Type 0} where
  abbrev pub cancel : Request K → Request K
  cancel r = record r { cancelled = true }

  abbrev pub asked : K → Request K
  asked k = record { of = k; cancelled = false }

  -- The requests whose answers will be read.
  abbrev pub active : List (Request K) → List (Request K)
  active rs = keep (λ r. not r.cancelled) rs

module _ {K A : Type 0} where
  -- The effect: `setLoading(true)` and `setError(null)`.
  unfoldable pub run_effect : K → Load K A → Load K A
  run_effect k s = record s { key = k; loading = true; error = none }

  -- The component is mounted: its first effect is run.
  unfoldable pub mount : K → Loading K A
  mount k = record {
    state = record { key = k; loaded = none; loading = true; error = none };
    requests = asked k ∷ [];
  }

  -- The key changes: the cleanup of the old effect, then the new one.
  unfoldable pub change_key : K → Loading K A → Loading K A
  unfolding run_effect
  change_key k w = record {
    state = run_effect k w.state;
    requests = map cancel w.requests ++ asked k ∷ [];
  }

  abbrev pub answer_shown : K → Settled A → Load K A → Load K A
  answer_shown k (fulfilled a) s = record s { loaded = some (k, a); loading = false }
  answer_shown k (rejected e) s = record s { error = some (get_error_message e); loading = false }

  -- An answer, which a cancelled request drops.
  unfoldable pub settle_request : Request K → Settled A → Load K A → Load K A
  settle_request r result s = if r.cancelled then s else answer_shown r.of result s

  -- The requests are answered in any order.
  pub data LoadEvent (w : Loading K A) : Loading K A → Type 0 where
    key_changed : (k : K) → LoadEvent w (change_key k w)
    request_answered :
        (before after : List (Request K)) (r : Request K) (result : Settled A)
        → w.requests ≡ before ++ r ∷ after
        → LoadEvent w
            (record { state = settle_request r result w.state; requests = before ++ after })

  pub data LoadReached : Loading K A → Type 0 where
    mounted : (k : K) → LoadReached (mount k)
    next : (w v : Loading K A) → LoadReached w → LoadEvent w v → LoadReached v
