-- ===== src/Server.antt =====
-- The HTTP server of src/server: the admin gate, the bridges to upstream responses, the handlers
-- and the route table.
pub mod Auth
pub mod Admin
pub mod Stream
pub mod Handlers
