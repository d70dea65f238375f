-- ===== src/Status/Tests.antt =====
-- Runs of the status rules.
use everyup.Common.{◌≡◌, refl}
use everyup.Api.Agents.{Timestamp}
use everyup.Demo.Samples.{web_service}
use everyup.Status.Operational.{docker_uptime_state, DockerUptimeState}

-- A time that is none makes a service stale.
stale_without_time :
    docker_uptime_state 1000000 (record web_service { observed_at = Timestamp.invalid })
    ≡ DockerUptimeState.stale
unfolding docker_uptime_state
stale_without_time = refl
