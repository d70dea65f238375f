-- ===== src/Alerts/Rules.antt =====
-- The form in which an alert rule is made and edited: features/alerts/components/AlertRuleForm.tsx.
pub mod Presets
pub mod Form
pub mod Display
pub mod Submit
pub mod Reopen
pub mod Steps
pub mod Sessions
pub mod Tests
