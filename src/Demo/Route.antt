-- ===== src/Demo/Route.antt =====
-- The endpoint patterns of services/mockRouter.ts, and the requests of the client that meet them.
pub mod Segments
pub mod Mutations
pub mod Client
pub mod Reaches
pub mod Calls
