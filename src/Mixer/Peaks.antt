-- ===== src/Mixer/Peaks.antt =====
-- The limiter of src/audio_mixer.cpp.
use rtc_egress.Prelude.{◌≤◌, ℤ}
use rtc_egress.Mixer.Defs.{abs_ℤ}

-- A sample that fits into 16 bits, without the least one.
abbrev pub FitsPcm : ℤ → Type 0
FitsPcm s = abs_ℤ s ≤ 32767
