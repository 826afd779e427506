-- ===== src/WebApi.antt =====
-- server/webapi: the web API's session layer.
pub mod Events
mod Tests
