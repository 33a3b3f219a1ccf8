-- ===== src/Client.antt =====
-- pysoa/client/client.py: the futures that the request methods return, and what these make of the
-- responses.
pub mod Future
pub mod Parallel
pub mod Single
pub mod Expander
pub mod Headers
pub mod Handler
pub mod Sending
