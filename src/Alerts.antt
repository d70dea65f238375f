-- ===== src/Alerts.antt =====
-- Alert rules and their targets, and the requests of the alerts API.
pub mod Target
pub mod Requests
pub mod Rules
pub mod Labels
pub mod Channels
pub mod ChannelLaws
pub mod RulesTab
pub mod RulesOrder
pub mod RulesPage
pub mod RulesSettling
pub mod PageTests
pub mod Tests
