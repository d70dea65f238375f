-- ===== src/Status/Operational.antt =====
-- Freshness of a collector, and the states of Docker services and of monitors:
-- utils/operationalStatus.ts and features/uptime/uptimeState.ts.
use everyup.Common.{ℕ, ◌+◌, ◌*◌, Bool, false, not, Option, some, none, if◌then◌else◌, ltb}
use everyup.Api.Agents.{AgentServiceFlat, Timestamp, invalid, at}
use everyup.Api.Monitors.{UptimeMonitor, UptimeMonitorStatus}

abbrev pub collector_fresh_for_ms : ℕ
collector_fresh_for_ms = 2 * 60 * 1000

-- `now - observedAt < limit`, as the order that it means for instants of either order.
unfoldable pub is_collector_fresh : Option Timestamp → ℕ → Bool
is_collector_fresh none now = false
is_collector_fresh (some invalid) now = false
is_collector_fresh (some (at t)) now = ltb now (t + collector_fresh_for_ms)

pub data DockerUptimeState : Type 0 where
  paused waiting stale up down : DockerUptimeState

unfoldable pub docker_uptime_state : ℕ → AgentServiceFlat → DockerUptimeState
unfolding is_collector_fresh
docker_uptime_state now r =
    if r.silenced
    then paused
    else if not r.seen
    then waiting
    else if not (is_collector_fresh (some r.observed_at) now)
    then stale
    else if r.healthy
    then up
    else down

pub data UptimeState : Type 0 where
  up down waiting paused : UptimeState

by_status : UptimeMonitorStatus → UptimeState
by_status UptimeMonitorStatus.healthy = UptimeState.up
by_status UptimeMonitorStatus.unhealthy = UptimeState.down
by_status UptimeMonitorStatus.unknown = UptimeState.waiting

unfoldable pub uptime_state : UptimeMonitor → UptimeState
unfolding by_status
uptime_state r = if not r.is_active then UptimeState.paused else by_status r.status
