-- ===== src/Mixer.antt =====
-- src/audio_mixer.cpp: the publishers' sound on one timeline.
pub mod Defs
pub mod Push
pub mod Peaks
pub mod Mix
mod Tests
