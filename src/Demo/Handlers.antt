-- ===== src/Demo/Handlers.antt =====
-- The branches of mockRouter that answer requests other than GET: services/mockRouter.ts.
pub mod Agents
pub mod Infrastructure
pub mod Monitors
pub mod Observed
pub mod Projects
