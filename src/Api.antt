-- ===== src/Api.antt =====
-- The rows that the web client and its demo server exchange: web/frontend/src/services/api. A
-- timestamp is the instant in milliseconds that its ISO text stands for, and `x?: T` is an Option.
pub mod Agents
pub mod Hosts
pub mod Monitors
pub mod Observed
pub mod Projects
pub mod Logs
