-- ===== src/Wire/Messages.antt =====
-- crates/wayray-protocol/src/messages.rs and the constants of lib.rs beside it: what client and
-- server say to each other. A field named `data` in the source is `payload` here.
pub mod Clipboard
use wayray.Base.{ℕ, String, Bool, Option, List, ◌&&◌, leb}
use wayray.Wire.Codec.{Bytes}

-- `PROTOCOL_VERSION` and `MIN_PROTOCOL_VERSION`
abbrev pub protocol_version : ℕ
protocol_version = 2

abbrev pub min_protocol_version : ℕ
min_protocol_version = 1

-- `version_compatible`
unfoldable pub version_compatible : ℕ → Bool
version_compatible client_version =
    leb min_protocol_version client_version && leb client_version protocol_version

-- the names of the module `caps`
abbrev pub display_cap : String
display_cap = "display"

abbrev pub clipboard_cap : String
clipboard_cap = "clipboard"

abbrev pub audio_cap : String
audio_cap = "audio"

pub record ClientHello : Type 0 where
  pub version : ℕ
  pub capabilities : List String
  pub token : Option String

pub record ServerHello : Type 0 where
  pub version : ℕ
  pub session_id : ℕ
  pub output_width : ℕ
  pub output_height : ℕ
  pub resumed : Bool
  pub token : String

pub data SessionStatus : Type 0 where
  creating active resuming : SessionStatus

pub data SessionEvent : Type 0 where
  state_changed : ℕ → SessionStatus → SessionEvent
  suspending : ℕ → SessionEvent
  destroyed : ℕ → SessionEvent
  resumed : ℕ → SessionEvent
  redirected : String → String → SessionEvent

pub record ServerInfoMsg : Type 0 where
  pub server_id : String
  pub active_sessions : ℕ
  pub capacity : ℕ

pub record SessionLookupResponse : Type 0 where
  pub server_id : String
  pub hosts : Bool

pub data ProtocolErrorCode : Type 0 where
  version_mismatch other : ProtocolErrorCode

pub record ProtocolError : Type 0 where
  pub code : ProtocolErrorCode
  pub reason : String

pub record ClipboardOffer : Type 0 where
  pub mime_types : List String

pub record ClipboardData : Type 0 where
  pub mime_type : String
  pub payload : Bytes

pub record Ping : Type 0 where
  pub timestamp : ℕ

pub record Pong : Type 0 where
  pub timestamp : ℕ

pub record FrameAck : Type 0 where
  pub sequence : ℕ

-- `session_redirect` and `session_event (redirected ...)` carry the server's id and its address.
pub data ControlMessage : Type 0 where
  client_hello : ClientHello → ControlMessage
  server_hello : ServerHello → ControlMessage
  ping : Ping → ControlMessage
  pong : Pong → ControlMessage
  frame_ack : FrameAck → ControlMessage
  session_event : SessionEvent → ControlMessage
  server_info_request : String → ControlMessage
  server_info : ServerInfoMsg → ControlMessage
  session_lookup_request : String → String → ControlMessage
  session_lookup_response : SessionLookupResponse → ControlMessage
  request_keyframe : ControlMessage
  session_redirect : String → String → ControlMessage
  protocol_error : ProtocolError → ControlMessage
  clipboard_offer : ClipboardOffer → ControlMessage
  clipboard_data : ClipboardData → ControlMessage

pub record DamageRegion : Type 0 where
  pub x : ℕ
  pub y : ℕ
  pub width : ℕ
  pub height : ℕ
  pub payload : Bytes

pub record FrameUpdate : Type 0 where
  pub sequence : ℕ
  pub regions : List DamageRegion
  pub checksum : ℕ

pub data DisplayMessage : Type 0 where
  frame_update : FrameUpdate → DisplayMessage

pub data AudioCodec : Type 0 where
  pcm_s16_le opus : AudioCodec

pub record AudioStart : Type 0 where
  pub sample_rate : ℕ
  pub channels : ℕ
  pub codec : AudioCodec

pub record AudioChunk : Type 0 where
  pub pts_micros : ℕ
  pub payload : Bytes

pub data AudioMessage : Type 0 where
  start : AudioStart → AudioMessage
  chunk : AudioChunk → AudioMessage
  stop : AudioMessage

pub data KeyState : Type 0 where
  pressed released : KeyState

pub record KeyboardEvent : Type 0 where
  pub keycode : ℕ
  pub state : KeyState
  pub time : ℕ
