-- ===== src/Layout.antt =====
-- src/layout_detector.cpp: which users of a channel are shown.
pub mod Order
pub mod Defs
pub mod Detect
pub mod States
pub mod Bounds
pub mod Stability
mod Tests
