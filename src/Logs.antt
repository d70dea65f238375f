-- ===== src/Logs.antt =====
-- The page of logs by service.
pub mod ServiceRows
pub mod Panel
pub mod Paging
pub mod PanelTests
