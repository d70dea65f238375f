-- ===== src/Setup.antt =====
-- The dialog that connects a Docker environment: features/services/components/AddServiceModal.tsx.
pub mod Shell
pub mod AddService
pub mod Capabilities
pub mod Announce
pub mod Tests
