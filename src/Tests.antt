-- ===== src/Tests.antt =====
-- Runs at concrete inputs, by the parts of the program.
pub mod Wire
pub mod Jobs
pub mod Calls
pub mod Logs
pub mod Backends
pub mod Local
pub mod Expansions
pub mod Processes
pub mod LocalCalls
pub mod ClientHeaders
pub mod Handlers
pub mod Statuses
pub mod Signals
pub mod Introspections
pub mod Exchanges
pub mod Sendings
