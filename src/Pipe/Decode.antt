-- ===== src/Pipe/Decode.antt =====
-- The choice of the decode mode in TaskPipe::handleRecordingCommand (src/task_pipe.cpp).
use rtc_egress.Prelude.{◌≡◌, ◌↔◌, ◌⊎◌, pos, negsuc, eqb_ℤ, arith, str_eq, false, true}
use rtc_egress.Uds.{UdsMessage}
use rtc_egress.Pipe.Defs.{VideoDecodeMode, RecordingConfig}
use rtc_egress.Pipe.Snapshot.{is_single, mode_of}
use rtc_egress.Pipe.Recording.{decode_choice, decode_mode_of, recording_config_for}

-- The number that the recording sink gets stands for the mode that the client gets, and that is
-- passthrough exactly for a recording of one user, not in the customized layout, that asks for
-- passthrough (0) or leaves the choice open (-1).
pub decode_choice_agrees :
    (msg : UdsMessage) (c : RecordingConfig)
    → let d = (decode_choice msg.video_decode_mode (mode_of msg)).0 in
      (decode_mode_of (recording_config_for msg c).video_decode_mode ≡ d)
      × ((d ≡ VideoDecodeMode.passthrough) ↔ (
          (is_single msg.uid ≡ true)
          × (str_eq msg.layout "customized" ≡ false)
          × ((eqb_ℤ msg.video_decode_mode (pos 0) ≡ true)
              ⊎ (eqb_ℤ msg.video_decode_mode (negsuc 0) ≡ true))))
unfolding decode_choice recording_config_for
decode_choice_agrees msg c = (ground arith, (λ h. ground arith, λ h. ground arith))
