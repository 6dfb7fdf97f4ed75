-- ===== src/Broker.antt =====
-- app/dex/provider_broker.py: the HTTP provider that spreads requests over several RPC endpoints.
pub mod State
pub mod Responses
pub mod Circuits
pub mod Request
pub mod Flights
pub mod Leaders
pub mod Coalescing
pub mod Landing
pub mod Rotation
pub mod Failover
pub mod Candidates
pub mod Skipping
pub mod Breaks
pub mod Caching
pub mod Urls
pub mod Status
pub mod Sockets
