-- ===== src/Segments.antt =====
-- src/ts_segment_manager.cpp: the segments of a TS recording and their HLS playlist.
pub mod Names
pub mod Defs
pub mod Numbering
pub mod Runs
mod Tests
