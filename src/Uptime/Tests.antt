-- ===== src/Uptime/Tests.antt =====
-- A run of the page of one uptime monitor.
use everyup.Common.{some, none, [], refl}
use everyup.Client.Errors.{Thrown}
use everyup.Uptime.Detail.{
  Results, Settled, initial, load, settle, Step, Reachable, IsConsistent, Reachable-IsConsistent,
}

abbrev missing : Results
missing = record {
  monitor =
      Settled.rejected
        (Thrown.api_error (record { message = "gone"; code = "NOT_FOUND"; status = some 404 }));
  metrics = Settled.fulfilled (some []);
  summary = Settled.fulfilled none;
  history = Settled.fulfilled none;
  incidents = Settled.rejected (Thrown.error "offline");
  failures = Settled.fulfilled none;
}

Reachable-IsConsistent_example : IsConsistent (settle missing (load initial))
unfolding load
Reachable-IsConsistent_example = Reachable-IsConsistent (settle missing (load initial)) (
    Reachable.next (load initial) (settle missing (load initial))
      (Reachable.next initial (load initial) Reachable.start (Step.loaded initial))
      (Step.settled missing (load initial) refl))
