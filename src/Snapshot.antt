-- ===== src/Snapshot.antt =====
-- src/snapshot_sink.cpp and src/include/snapshot_sink.h: the frames that become snapshots.
--
--   Defs      the state, the frames that come in, the capture thread
--   Steps     all that happens to a sink, in any order
--   Spacing   how far snapshots are apart
pub mod Defs
pub mod Steps
pub mod Spacing
mod Tests
