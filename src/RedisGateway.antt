-- ===== src/RedisGateway.antt =====
-- pysoa/common/transport/redis_gateway: the Redis transport, its wire format first.
pub mod Protocol
pub mod Headers
pub mod Core
pub mod Chunks
pub mod Queue
pub mod Receive
pub mod RoundTrip
pub mod ClientTransport
pub mod Backend
pub mod QueueNames
