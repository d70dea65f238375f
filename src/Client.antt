-- ===== src/Client.antt =====
-- The network side of the API client: utils/errors.ts and services/api/base.ts.
pub mod Errors
pub mod Response
