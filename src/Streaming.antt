-- ===== src/Streaming.antt =====
-- The streaming part of the worker: the publishing transport and the sink above it.
pub mod Config
pub mod Sink
pub mod Retries
pub mod Ends
pub mod Url
pub mod Output
pub mod Calls
pub mod Opening
pub mod Sessions
pub mod Lifecycle
pub mod Hosts
pub mod Clock
mod Tests
