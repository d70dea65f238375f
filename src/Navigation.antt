-- ===== src/Navigation.antt =====
-- Where a page stands in the navigation: hooks/useGroupTrail.ts.
pub mod Trail
pub mod Tests
