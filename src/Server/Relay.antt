-- ===== src/Server/Relay.antt =====
-- crates/wrsrvd/src/network.rs: `ClientCapabilities`, and `check_compositor_commands`, which writes
-- what the compositor has queued on the streams of the connection.
use wayray.Base.{
  ℕ, suc, String, Bool, true, false, not, ◌&&◌, List, [], ◌∷◌, string_eq, if◌then◌else◌,
}
use wayray.Base.Member.{contains}
use wayray.Wire.Messages.{
  ControlMessage, clipboard_offer, clipboard_data, DisplayMessage, frame_update, AudioMessage,
  display_cap, clipboard_cap, audio_cap,
}
use wayray.Server.Frames.{
  CompositorToNet, send_frame, send_keyframe, send_control, send_audio, shutdown,
}

pub record ClientCapabilities : Type 0 where
  pub display : Bool
  pub clipboard : Bool
  pub audio : Bool

-- `ClientCapabilities::from_advertised`
unfoldable pub from_advertised : List String → ClientCapabilities
from_advertised advertised = record {
  display = contains display_cap advertised;
  clipboard = contains clipboard_cap advertised;
  audio = contains audio_cap advertised;
}

abbrev pub is_clipboard : ControlMessage → Bool
is_clipboard (clipboard_offer _) = true
is_clipboard (clipboard_data _) = true
is_clipboard _ = false

-- a message that is written on one of the streams of the connection
pub data Write : Type 0 where
  on_display : DisplayMessage → Write
  on_control : ControlMessage → Write
  on_audio : AudioMessage → Write

-- the display and the audio stream are open exactly for the clients that advertised them
unfoldable pub written_for : ClientCapabilities → Bool → CompositorToNet → List Write
written_for caps seen (send_frame frame) =
    if seen && caps.display then on_display (frame_update frame) ∷ [] else []
written_for caps seen (send_keyframe frame) =
    if caps.display then on_display (frame_update frame) ∷ [] else []
written_for caps seen (send_control msg) =
    if is_clipboard msg && not caps.clipboard then [] else on_control msg ∷ []
written_for caps seen (send_audio msg) = if caps.audio then on_audio msg ∷ [] else []
written_for caps seen shutdown = []

-- `keyframe_seen` after a command
unfoldable pub keyframe_seen_after : Bool → CompositorToNet → Bool
keyframe_seen_after seen (send_keyframe frame) = true
keyframe_seen_after seen _ = seen

-- how a run of `check_compositor_commands` leaves the loop: `idle` is the sleep on an empty
-- channel, after which it goes on; `cancelled` is the `select!` of `serve_client`, which has taken
-- another branch while a command was being written
pub data Stopped : Type 0 where
  idle write_failed shut_down cancelled : Stopped

-- what becomes of the write for a command
pub data Delivery : Type 0 where
  delivered failed given_up : Delivery

pub record Relayed : Type 0 where
  pub writes : List Write
  pub keyframe_seen : Bool
  pub stopped : Stopped
  pub queue : List CompositorToNet

abbrev wrote : List Write → Relayed → Relayed
wrote [] r = r
wrote (w ∷ ws) r = record r { writes = w ∷ r.writes }

abbrev deliver : Delivery → List Write → Bool → List CompositorToNet → Relayed → Relayed
deliver delivered ws seen queue rest = wrote ws rest
deliver failed ws seen queue rest = record {
  writes = [];
  keyframe_seen = seen;
  stopped = write_failed;
  queue = queue;
}
deliver given_up ws seen queue rest = record {
  writes = [];
  keyframe_seen = seen;
  stopped = cancelled;
  queue = queue;
}

-- `check_compositor_commands` until the channel is empty. `delivery n` says what becomes of the write
-- for the command taken n-th from the channel: one that fails or is cancelled has lost its command.
unfoldable pub check_compositor_commands :
    (ℕ → Delivery) → ClientCapabilities → Bool → List CompositorToNet → ℕ → Relayed
unfolding written_for keyframe_seen_after
check_compositor_commands delivery caps seen [] n = record {
  writes = [];
  keyframe_seen = seen;
  stopped = idle;
  queue = [];
}
check_compositor_commands delivery caps seen (shutdown ∷ queue) n = record {
  writes = [];
  keyframe_seen = seen;
  stopped = shut_down;
  queue = queue;
}
check_compositor_commands delivery caps seen (msg ∷ queue) n =
    let seen' = keyframe_seen_after seen msg in
    let rest = check_compositor_commands delivery caps seen' queue (suc n) in
    elim (written_for caps seen msg) [
      | [] ↦ rest
      | w ∷ ws ↦ deliver (delivery n) (w ∷ ws) seen' queue rest
    ]
