-- ===== src/Server.antt =====
-- pysoa/server: the server, the actions that it runs, and its errors.
pub mod Types
pub mod Responses
pub mod Job
pub mod Switches
pub mod Action
pub mod Shutdown
pub mod Requests
pub mod LocalActions
pub mod Status
pub mod Introspection
