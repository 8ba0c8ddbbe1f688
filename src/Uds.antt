-- ===== src/Uds.antt =====
-- src/include/uds_message.h and src/include/native_layout.h: the messages between the manager and
-- the worker, with the defaults of their fields.
use rtc_egress.Prelude.{ℕ, String, List, [], ℤ, pos, negsuc}

pub record LayoutRegion : Type 0 where
  pub uid : String
  pub x : ℤ
  pub y : ℤ
  pub width : ℤ
  pub height : ℤ
  pub z : ℤ

pub record UdsMessage : Type 0 where
  pub task_id : String
  pub cmd : String
  pub action : String
  pub layout : String
  pub freestyle_canvas_url : String
  pub uid : List String
  pub channel : String
  pub access_token : String
  pub worker_uid : ℤ
  pub interval_in_ms : ℤ
  pub video_decode_mode : ℤ
  pub regions : List LayoutRegion
  pub width : ℤ
  pub height : ℤ
  pub output_url : List ℕ  -- its bytes
  pub output_token : List ℕ
  pub output_timeout_ms : ℤ
  pub output_reconnect_attempts : ℤ
  pub output_reconnect_delay_ms : ℤ

-- The message with every field at its initialiser.
abbrev pub default_message : UdsMessage
default_message = record {
  task_id = "";
  cmd = "";
  action = "";
  layout = "flat";
  freestyle_canvas_url = "";
  uid = [];
  channel = "";
  access_token = "";
  worker_uid = pos 0;
  interval_in_ms = pos 0;
  video_decode_mode = negsuc 0;
  regions = [];
  width = pos 0;
  height = pos 0;
  output_url = [];
  output_token = [];
  output_timeout_ms = pos 5000;
  output_reconnect_attempts = pos 5;
  output_reconnect_delay_ms = pos 1000;
}

pub record UdsCompletionMessage : Type 0 where
  pub task_id : String
  pub status : String
  pub error : String
  pub message : String
