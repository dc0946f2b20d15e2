-- ===== src/Api.antt =====
-- api: the request handlers, between the messages of the RPC layer and the components.
pub mod Examples
pub mod Convert
pub mod Format
pub mod Request
pub mod Core
pub mod Fetch
pub mod Errors
pub mod Health
pub mod Handlers
pub mod Honesty
pub mod Admin
