-- ===== src/Stream.antt =====
-- The stream of frames end to end: the compositor (wrsrvd/src/backend/headless.rs) renders and
-- queues, the network thread (wrsrvd/src/network.rs) takes one command at a time from the channel
-- and writes it, the client (wrclient/src/main.rs) takes one frame at a time from the display
-- stream. The three run concurrently: a step is one action of one of them. A read that the client's
-- timeout cancels, and a write that the `select!` of `serve_client` cancels, are steps of their own.
-- The display stream of QUIC is reliable and ordered.
pub mod Frame
pub mod CatchUp
pub mod Queue
pub mod Sync
mod Tests
use wayray.Base.{
  ℕ, ◌*◌, ◌<◌, ◌≡◌, Bool, true, false, Option, none, some, List, [], ◌∷◌, ◌++◌, length, get_elem?,
}
use wayray.Base.Int.{pos}
use wayray.Wire.Codec.{Bytes}
use wayray.Wire.Messages.{
  FrameUpdate, DisplayMessage, frame_update, ControlMessage, AudioMessage, request_keyframe,
}
use wayray.Wire.Encoding.{Zstd, bpp}
use wayray.Server.Frames.{
  Rect, FrameStream, CompositorToNet, send_frame, send_keyframe, send_control,
  send_frame_to_network,
}
use wayray.Server.Frames.Region.{Starts}
use wayray.Server.Relay.{
  ClientCapabilities, Write, on_display, on_control, on_audio, written_for, keyframe_seen_after,
}
use wayray.Client.Frames.{View, receive_frame}
use wayray.Client.Frames.Apply.{covers_rects}

-- `queue` is the channel from the compositor to the network thread, `wire` the display stream.
-- `cancelled` says whether a read or a write has been given up part-way.
pub record System : Type 0 where
  pub server : FrameStream
  pub queue : List CompositorToNet
  pub keyframe_seen : Bool
  pub wire : List FrameUpdate
  pub client : View
  pub cancelled : Bool

-- the frames among the messages written on the streams
unfoldable pub frames_of : List Write → List FrameUpdate
frames_of [] = []
frames_of (on_display (frame_update u) ∷ ws) = u ∷ frames_of ws
frames_of (on_control _ ∷ ws) = frames_of ws
frames_of (on_audio _ ∷ ws) = frames_of ws

-- The network thread takes one command from the channel, for a client that shows frames.
unfoldable pub relay : ClientCapabilities → Bool → CompositorToNet → List FrameUpdate
unfolding written_for frames_of
relay caps seen msg = frames_of (written_for caps seen msg)

module _ (width height : ℕ) where
  abbrev pub IsFrame : Bytes → Type 0
  IsFrame pixels = length pixels ≡ height * (width * bpp)

  -- What the damage tracker reports: no rectangle starts right of the output, and every byte that
  -- differs from the previous frame lies in one of them. No list, or an empty one, reports nothing.
  unfoldable pub Reports : Bytes → Bytes → Option (List Rect) → Type 0
  Reports previous pixels none = Unit
  Reports previous pixels (some []) = Unit
  Reports previous pixels (some (rect ∷ rects)) =
      Starts width (rect ∷ rects)
      × ((i : ℕ)
          → i < length pixels
          → covers_rects (width * bpp) width height (rect ∷ rects) i ≡ false
          → get_elem? pixels i ≡ get_elem? previous i)

  -- A frame that `render_headless_frame` may hand over: the report matters only where the frame
  -- is not sent whole anyway.
  abbrev pub Rendered : FrameStream → Bytes → Option (List Rect) → Type 0
  Rendered server pixels damage =
      IsFrame pixels × (server.force_keyframe ≡ false → Reports server.previous_frame pixels damage)

  abbrev pub render :
      Zstd → FrameStream → Bytes → Option (List Rect) → Option (FrameStream × List CompositorToNet)
  render z server pixels damage =
      send_frame_to_network z true server pixels damage (pos width) (pos height) (width * bpp)

module _ (z : Zstd) (caps : ClientCapabilities) (width height : ℕ) where
  pub data Step : System → System → Type 0 where
    renders :
        {server server' : FrameStream} {queue msgs : List CompositorToNet} {seen : Bool}
        {wire : List FrameUpdate} {client : View} {cancelled : Bool} (pixels : Bytes)
        (damage : Option (List Rect))
        → Rendered width height server pixels damage
        → render width height z server pixels damage ≡ some (server', msgs)
        → Step
            (record {
              server = server;
              queue = queue;
              keyframe_seen = seen;
              wire = wire;
              client = client;
              cancelled = cancelled;
            })
            (record {
              server = server';
              queue = queue ++ msgs;
              keyframe_seen = seen;
              wire = wire;
              client = client;
              cancelled = cancelled;
            })
    relays :
        {server : FrameStream} {msg : CompositorToNet} {queue : List CompositorToNet} {seen : Bool}
        {wire : List FrameUpdate} {client : View} {cancelled : Bool}
        → Step
            (record {
              server = server;
              queue = msg ∷ queue;
              keyframe_seen = seen;
              wire = wire;
              client = client;
              cancelled = cancelled;
            })
            (record {
              server = server;
              queue = queue;
              keyframe_seen = keyframe_seen_after seen msg;
              wire = wire ++ relay caps seen msg;
              client = client;
              cancelled = cancelled;
            })
    receives :
        {server : FrameStream} {queue : List CompositorToNet} {seen : Bool} {update : FrameUpdate}
        {wire : List FrameUpdate} {client client' : View} {cancelled : Bool}
        (sent : List ControlMessage)
        → receive_frame z (width * bpp) client update ≡ some (client', sent)
        → Step
            (record {
              server = server;
              queue = queue;
              keyframe_seen = seen;
              wire = update ∷ wire;
              client = client;
              cancelled = cancelled;
            })
            (record {
              server = server;
              queue = queue;
              keyframe_seen = seen;
              wire = wire;
              client = client';
              cancelled = cancelled;
            })
    queues :
        {server : FrameStream} {queue : List CompositorToNet} {seen : Bool}
        {wire : List FrameUpdate} {client : View} {cancelled : Bool} (msg : ControlMessage)
        → Step
            (record {
              server = server;
              queue = queue;
              keyframe_seen = seen;
              wire = wire;
              client = client;
              cancelled = cancelled;
            })
            (record {
              server = server;
              queue = queue ++ send_control msg ∷ [];
              keyframe_seen = seen;
              wire = wire;
              client = client;
              cancelled = cancelled;
            })
    resyncs :
        {server : FrameStream} {queue : List CompositorToNet} {seen : Bool}
        {wire : List FrameUpdate} {client : View} {cancelled : Bool}
        → Step
            (record {
              server = server;
              queue = queue;
              keyframe_seen = seen;
              wire = wire;
              client = client;
              cancelled = cancelled;
            })
            (record {
              server = record server { force_keyframe = true };
              queue = queue;
              keyframe_seen = seen;
              wire = wire;
              client = client;
              cancelled = cancelled;
            })
    -- The client gives up a read after 5 ms and loses the part of the frame that it has read, or the
    -- framing has been lost before: from then on it may read anything.
    gives_up_read :
        {server : FrameStream} {queue : List CompositorToNet} {seen : Bool}
        {wire : List FrameUpdate} {client : View} {cancelled : Bool} (garbled : List FrameUpdate)
        → Step
            (record {
              server = server;
              queue = queue;
              keyframe_seen = seen;
              wire = wire;
              client = client;
              cancelled = cancelled;
            })
            (record {
              server = server;
              queue = queue;
              keyframe_seen = seen;
              wire = garbled;
              client = client;
              cancelled = true;
            })
    -- The network thread gives up the write of a command that it has taken from the channel, since a
    -- message of the client is there to be read first; any part of it may have been written.
    gives_up_write :
        {server : FrameStream} {msg : CompositorToNet} {queue : List CompositorToNet} {seen : Bool}
        {wire : List FrameUpdate} {client : View} {cancelled : Bool} (garbled : List FrameUpdate)
        → Step
            (record {
              server = server;
              queue = msg ∷ queue;
              keyframe_seen = seen;
              wire = wire;
              client = client;
              cancelled = cancelled;
            })
            (record {
              server = server;
              queue = queue;
              keyframe_seen = keyframe_seen_after seen msg;
              wire = garbled;
              client = client;
              cancelled = true;
            })

  pub data Steps : System → System → Type 0 where
    done : {sys : System} → Steps sys sys
    next : {sys mid sys' : System} → Step sys mid → Steps mid sys' → Steps sys sys'
