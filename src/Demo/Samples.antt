-- ===== src/Demo/Samples.antt =====
-- Rows and surroundings on which the examples run.
use everyup.Common.{true, false, some, none, [], ◌∷◌}
use everyup.Api.Agents.{
  AgentProfile, AgentProfileKind, AgentCollectionCapability, ConnectedAgent, AgentServiceFlat,
  Timestamp,
}
use everyup.Api.Hosts.{InfrastructureAdapter, InfrastructureResource}
use everyup.Api.Monitors.{UptimeMonitor, UptimeMonitorType, UptimeMonitorStatus}
use everyup.Api.Observed.{ObservedService, TelemetrySignal}
use everyup.Api.Projects.{Project}
use everyup.Demo.Scenario.{Browser, Seed}
use everyup.Demo.State.{DemoState, Env}

abbrev pub custom_logs : AgentProfile
custom_logs = record {
  kind = AgentProfileKind.custom;
  capabilities = AgentCollectionCapability.logs ∷ [];
}

abbrev pub web_agent : ConnectedAgent
web_agent = record {
  id = "a1";
  name = "web";
  project_id = some "p1";
  version = some "1.2.0";
  last_seen_at = 990000;
  created_at = 100;
  updated_at = 990000;
  profile = some custom_logs;
}

abbrev pub db_agent : ConnectedAgent
db_agent = record web_agent { id = "a2"; name = "db"; project_id = some "p2"; last_seen_at = 1000 }

abbrev pub web_service : AgentServiceFlat
web_service = record {
  agent_id = "a1";
  key = "nginx";
  name = "nginx";
  check_type = "http";
  endpoint = "http://nginx";
  runtime = none;
  image = some "nginx:1";
  restart_count = some 0;
  started_at = some 100;
  healthy = false;
  seen = true;
  silenced = false;
  last_error = some "timeout";
  last_status = some 500;
  last_latency = none;
  updated_at = some 990000;
  observed_at = Timestamp.at 990000;
  agent_name = "web";
}

abbrev pub site_monitor : UptimeMonitor
site_monitor = record {
  id = "m1";
  name = "site";
  project_id = some "p1";
  type = UptimeMonitorType.http;
  is_active = true;
  url = "https://site";
  port = none;
  method = "GET";
  expected_status = 200;
  timeout = 5000;
  interval = 60000;
  status = UptimeMonitorStatus.healthy;
  last_check_at = some 980000;
  uptime = some 99;
  response_time = some 42;
  latency_history = none;
  cert_expires_at = none;
}

abbrev pub log_source : ObservedService
log_source = record {
  id = "o1";
  name = "orders";
  project_id = some "p1";
  signals = TelemetrySignal.logs ∷ [];
  log_level_filter = none;
  api_exclude_paths = none;
  is_active = true;
  api_key_masked = none;
  api_key = none;
  last_seen_at = none;
  created_at = 100;
  updated_at = 100;
}

abbrev pub host : InfrastructureResource
host = record {
  id = "i1";
  name = "host";
  project_id = none;
  adapter = InfrastructureAdapter.otel_collector;
  is_active = true;
  api_key_masked = none;
  api_key = none;
  last_seen_at = some 5000;
  cpu_usage = none;
  memory_usage = none;
  disk_usage = none;
  created_at = 100;
  updated_at = 100;
}

abbrev pub shop : Project
shop = record {
  id = "p1";
  name = "shop";
  description = none;
  agent_count = 0;
  monitor_count = 0;
  observed_service_count = 0;
  infrastructure_resource_count = 0;
  created_at = 100;
  updated_at = 100;
}

abbrev pub demo_rows : DemoState
demo_rows = record {
  agents = web_agent ∷ db_agent ∷ [];
  services = web_service ∷ [];
  monitors = site_monitor ∷ [];
  projects = shop ∷ [];
  observed = log_source ∷ [];
  infrastructure = host ∷ [];
  log_filters = [];
  api_exclusions = [];
  pending_profiles = [];
  runs = [];
}

abbrev pub at_noon : Env
at_noon = record { now = 1000000; byte = λ n. n; decode = λ s. some s }

abbrev pub fixtures : Seed
fixtures = record {
  base = 1000000;
  agent_ids = "a1" ∷ [];
  monitor_ids = "m1" ∷ [];
  observed_ids = [];
  infrastructure_ids = [];
  agent_incidents = [];
  monitor_incidents = [];
}

abbrev pub fresh_tab : Browser
fresh_tab = record { has_window = true; stored = some none; query = some "empty" }
