-- ===== src/Streaming/Config.antt =====
-- The configurations of src/include/streaming_output.h and src/include/streaming_sink.h.
use rtc_egress.Prelude.{ℕ, String, List, [], ℤ, pos}
use rtc_egress.Uds.{LayoutRegion}

pub data Protocol : Type 0 where
  rtmp whip : Protocol

-- StreamingOutput::Config
pub record OutputConfig : Type 0 where
  pub protocol : Protocol
  pub url : List ℕ  -- its bytes
  pub token : List ℕ
  pub timeout_ms : ℤ

-- StreamingSink::Config
pub record SinkConfig : Type 0 where
  pub output : OutputConfig
  pub width : ℤ
  pub height : ℤ
  pub fps : ℤ
  pub video_bitrate : ℤ
  pub audio_bitrate : ℤ
  pub max_duration_seconds : ℤ
  pub reconnect_attempts : ℤ
  pub reconnect_delay_ms : ℤ
  pub task_id : String
  pub target_users : List String
  pub layout : String
  pub regions : List LayoutRegion

abbrev pub default_output : OutputConfig
default_output = record { protocol = Protocol.rtmp; url = []; token = []; timeout_ms = pos 5000 }

abbrev pub default_sink : SinkConfig
default_sink = record {
  output = default_output;
  width = pos 1280;
  height = pos 720;
  fps = pos 30;
  video_bitrate = pos 2000000;
  audio_bitrate = pos 128000;
  max_duration_seconds = pos 28800;
  reconnect_attempts = pos 5;
  reconnect_delay_ms = pos 1000;
  task_id = "";
  target_users = [];
  layout = "flat";
  regions = [];
}
