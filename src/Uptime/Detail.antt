-- ===== src/Uptime/Detail.antt =====
-- The page of one uptime monitor and its loading: features/uptime/useUptimeMonitorDetail.ts.
use everyup.Common.{
  String, Bool, true, false, Option, some, none, List, [], ◌≡◌, refl, if◌then◌else◌, nat_eq,
  or_else, is_some, arith,
}
use everyup.Api.Agents.{TimelineIncident}
use everyup.Api.Monitors.{
  UptimeMonitor, UptimeMonitorMetric, UptimeMonitorSummary, UptimeMonitorHistory,
}
use everyup.Client.Errors.{Thrown, get_error_message}

-- PromiseSettledResult.
pub data Settled (A : Type 0) : Type 0 where
  fulfilled : A → Settled A
  rejected : Thrown → Settled A

pub record DetailErrors : Type 0 where
  pub monitor : Option String
  pub metrics : Option String
  pub summary : Option String
  pub history : Option String
  pub incidents : Option String
  pub failures : Option String

-- DetailState, with `pending.current`.
pub record Detail : Type 0 where
  pub monitor : Option UptimeMonitor
  pub metrics : Option (List UptimeMonitorMetric)
  pub summary : Option UptimeMonitorSummary
  pub history : Option UptimeMonitorHistory
  pub incidents : Option (List TimelineIncident)
  pub failures : Option (List UptimeMonitorMetric)
  pub errors : DetailErrors
  pub not_found : Bool
  pub loading : Bool
  pub refreshing : Bool
  pub pending : Bool

abbrev no_errors : DetailErrors
no_errors = record {
  monitor = none;
  metrics = none;
  summary = none;
  history = none;
  incidents = none;
  failures = none;
}

abbrev pub initial : Detail
initial = record {
  monitor = none;
  metrics = none;
  summary = none;
  history = none;
  incidents = none;
  failures = none;
  errors = no_errors;
  not_found = false;
  loading = true;
  refreshing = false;
  pending = false;
}

-- The six results of one load; an answer may be null.
pub record Results : Type 0 where
  pub monitor : Settled (Option UptimeMonitor)
  pub metrics : Settled (Option (List UptimeMonitorMetric))
  pub summary : Settled (Option UptimeMonitorSummary)
  pub history : Settled (Option UptimeMonitorHistory)
  pub incidents : Settled (Option (List TimelineIncident))
  pub failures : Settled (Option (List UptimeMonitorMetric))

-- `pending.current` is still set: nothing new is sent.
unfoldable pub load : Detail → Detail
load d = if d.pending then d else record d { refreshing = true; pending = true }

abbrev is_missing : Settled (Option UptimeMonitor) → Bool
is_missing (fulfilled v) = false
is_missing (rejected (Thrown.api_error e)) = elim e.status [ none ↦ false | some s ↦ nat_eq s 404 ]
is_missing (rejected (Thrown.error m)) = false
is_missing (rejected Thrown.value) = false

abbrev pub message : {A : Type 0} → Settled A → Option String
message (fulfilled v) = none
message (rejected e) = some (get_error_message e)

-- `value`, and `value ?? []`, or the current value.
abbrev pub kept : {A : Type 0} → Settled (Option A) → Option A → Option A
kept (fulfilled v) current = v
kept (rejected e) current = current

abbrev pub kept_rows : {A : Type 0} → Settled (Option (List A)) → Option (List A) → Option (List A)
kept_rows (fulfilled v) current = some (or_else v [])
kept_rows (rejected e) current = current

abbrev monitor_after : Settled (Option UptimeMonitor) → Option UptimeMonitor → Option UptimeMonitor
monitor_after (fulfilled v) current = v
monitor_after (rejected e) current = if is_missing (rejected e) then none else current

-- The `then` of the six requests, with the `finally` after it.
unfoldable pub settle : Results → Detail → Detail
settle r d = record {
  monitor = monitor_after r.monitor d.monitor;
  metrics = kept_rows r.metrics d.metrics;
  summary = kept r.summary d.summary;
  history = kept r.history d.history;
  incidents = kept_rows r.incidents d.incidents;
  failures = kept_rows r.failures d.failures;
  errors = record {
    monitor = message r.monitor;
    metrics = message r.metrics;
    summary = message r.summary;
    history = message r.history;
    incidents = message r.incidents;
    failures = message r.failures;
  };
  not_found = is_missing r.monitor;
  loading = false;
  refreshing = false;
  pending = false;
}

-- What happens to the page, in any order: a load is asked for, or the requests of the one that is
-- pending settle.
pub data Step : Detail → Detail → Type 0 where
  loaded : (d : Detail) → Step d (load d)
  settled : (r : Results) (d : Detail) → d.pending ≡ true → Step d (settle r d)

pub data Reachable : Detail → Type 0 where
  start : Reachable initial
  next : (d e : Detail) → Reachable d → Step d e → Reachable e

pub record IsConsistent (d : Detail) : Type 0 where
  -- The spinner turns exactly while requests are under way.
  pub spins : d.refreshing ≡ d.pending
  -- A monitor that does not exist is not shown, and the page says why.
  pub gone : d.not_found ≡ true → (d.monitor ≡ none) × (is_some d.errors.monitor ≡ true)
  -- The first load is over once there is anything to show.
  pub first : d.loading ≡ true → (d.monitor ≡ none) × ((d.metrics ≡ none) × (d.not_found ≡ false))

load-IsConsistent : (d : Detail) → IsConsistent d → IsConsistent (load d)
unfolding load
load-IsConsistent d c = record {
  spins = ground (arith, c.spins);
  gone = ground (arith, c.gone);
  first = ground (arith, c.first);
}

settle_gone :
    (m : Settled (Option UptimeMonitor)) (current : Option UptimeMonitor)
    → is_missing m ≡ true
    → (monitor_after m current ≡ none) × (is_some (message m) ≡ true)
settle_gone (fulfilled v) current h = ground arith
settle_gone (rejected e) current h = (rw h refl, refl)

settle-IsConsistent : (r : Results) (d : Detail) → IsConsistent (settle r d)
unfolding settle
settle-IsConsistent r d = record {
  spins = refl;
  gone = λ h. settle_gone r.monitor d.monitor h;
  first = λ h. ground arith;
}

-- In every state that the page can reach, the spinner turns exactly while requests are under way, a
-- monitor that does not exist is not shown and the page has a message for it, and while the first
-- load lasts nothing is claimed to be missing.
pub Reachable-IsConsistent : (d : Detail) → Reachable d → IsConsistent d
Reachable-IsConsistent _ start = record {
  spins = refl;
  gone = λ h. ground arith;
  first = λ h. (refl, (refl, refl));
}
Reachable-IsConsistent _ (next d _ h (loaded _)) = load-IsConsistent d (Reachable-IsConsistent d h)
Reachable-IsConsistent _ (next d _ h (settled r _ p)) = settle-IsConsistent r d

-- Whether the request of a part was refused.
abbrev pub refused : {A : Type 0} → Settled A → Bool
refused (fulfilled v) = false
refused (rejected e) = true

message_refused : {A : Type 0} (m : Settled A) → is_some (message m) ≡ refused m
message_refused (fulfilled v) = refl
message_refused (rejected e) = refl

rows_kept :
    {A : Type 0} (m : Settled (Option (List A))) (current : Option (List A))
    → is_some current ≡ true
    → is_some (kept_rows m current) ≡ true
rows_kept (fulfilled v) current h = refl
rows_kept (rejected e) current h = h

-- Each part has a message exactly when its own request was refused, and checks, incidents and
-- failures that are shown stay shown whatever the six requests end in.
pub settle_parts :
    (r : Results) (d : Detail)
    → ((is_some (settle r d).errors.monitor ≡ refused r.monitor)
        × ((is_some (settle r d).errors.metrics ≡ refused r.metrics)
            × ((is_some (settle r d).errors.summary ≡ refused r.summary)
                × ((is_some (settle r d).errors.history ≡ refused r.history)
                    × ((is_some (settle r d).errors.incidents ≡ refused r.incidents)
                        × (is_some (settle r d).errors.failures ≡ refused r.failures))))))
      × ((is_some d.metrics ≡ true → is_some (settle r d).metrics ≡ true)
          × ((is_some d.incidents ≡ true → is_some (settle r d).incidents ≡ true)
              × (is_some d.failures ≡ true → is_some (settle r d).failures ≡ true)))
unfolding settle
settle_parts r d = (
  (
    message_refused r.monitor,
    (
      message_refused r.metrics,
      (
        message_refused r.summary,
        (message_refused r.history, (message_refused r.incidents, message_refused r.failures)),
      ),
    ),
  ),
  (
    rows_kept r.metrics d.metrics,
    (rows_kept r.incidents d.incidents, rows_kept r.failures d.failures),
  ),
)
