-- ===== src/Compositor.antt =====
-- src/video_compositor.cpp: where the users stand on the canvas.
pub mod Regions
pub mod Cuts
pub mod Grid
pub mod Inside
pub mod Apart
pub mod Stacked
pub mod Placed
mod Tests
