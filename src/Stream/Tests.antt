-- ===== src/Stream/Tests.antt =====
-- Tests of the stream: an output of one pixel, a stale delta in the channel, one rendered frame.
use wayray.Base.{◌≡◌, refl, nat_eq, true, false, none, some, [], ◌∷◌, arith}
use wayray.Wire.Codec.{Bytes}
use wayray.Wire.Messages.{FrameUpdate, frame_ack}
use wayray.Wire.Encoding.{
  Zstd, Lossless, DamageRegion, encode_region, slice, checksum, apply_region, write_slice,
}
use wayray.Server.Frames.{FrameStream, send_frame, send_keyframe, send_frame_to_network}
use wayray.Server.Frames.Region.{Total}
use wayray.Server.Relay.{ClientCapabilities, written_for, keyframe_seen_after}
use wayray.Client.Frames.{View, receive_frame}
use wayray.Stream.{
  System, Step, Steps, renders, relays, receives, relay, frames_of, done, next, render,
}
use wayray.Stream.Queue.{seen_after, to_come}
use wayray.Stream.CatchUp.{CaughtUp, Steps-CaughtUp, Steps-shows}
use wayray.Stream.Sync.{IsAwaiting}

abbrev stored : Zstd
stored = record { encode_all = some; decode_all = some }

stored-Lossless : Lossless stored
stored-Lossless xs ys e = ground arith

stored-Total : Total stored
stored-Total xs = (xs, refl)

abbrev viewer : ClientCapabilities
viewer = record { display = true; clipboard = false; audio = false }

abbrev black : Bytes
black = 0 ∷ 0 ∷ 0 ∷ 0 ∷ []

abbrev grey : Bytes
grey = 90 ∷ 90 ∷ 90 ∷ 255 ∷ []

abbrev stale : FrameUpdate
stale = record { sequence = 7; regions = []; checksum = 5 }

abbrev joining_server : FrameStream
joining_server = record {
  previous_frame = black;
  frame_sequence = 7;
  client_connected = true;
  force_keyframe = true;
  frames_since_keyframe = 3;
}

abbrev joined : System
joined = record {
  server = joining_server;
  queue = send_frame stale ∷ [];
  keyframe_seen = false;
  wire = [];
  client = record { framebuffer = black; keyframe_pending = false };
  cancelled = false;
}

abbrev whole_pixel : DamageRegion
whole_pixel = record { x = 0; y = 0; width = 1; height = 1; payload = grey }

abbrev first : FrameUpdate
first = record { sequence = 8; regions = whole_pixel ∷ []; checksum = 3356255728 }

abbrev sent_server : FrameStream
sent_server = record {
  previous_frame = grey;
  frame_sequence = 8;
  client_connected = true;
  force_keyframe = false;
  frames_since_keyframe = 0;
}

rendered : render 1 1 stored joining_server grey none ≡ some (sent_server, send_keyframe first ∷ [])
unfolding send_frame_to_network encode_region slice checksum
rendered = refl

abbrev caught_up : View
caught_up = record { framebuffer = grey; keyframe_pending = false }

shown :
    receive_frame stored 4 (record { framebuffer = black; keyframe_pending = false }) first
    ≡ some (caught_up, frame_ack (record { sequence = 8 }) ∷ [])
unfolding receive_frame apply_region slice write_slice checksum nat_eq
shown = refl

joined-IsAwaiting : IsAwaiting stored viewer 1 1 joined
unfolding seen_after keyframe_seen_after to_come relay written_for frames_of
joined-IsAwaiting = (refl, refl, refl)

-- `joined` after the frame is rendered, after both commands are relayed, after it is received
abbrev queued : System
queued = record joined { server = sent_server; queue = send_frame stale ∷ send_keyframe first ∷ [] }

abbrev relayed : System
relayed = record joined {
  server = sent_server;
  queue = [];
  keyframe_seen = true;
  wire = first ∷ [];
}

abbrev settled : System
settled = record relayed { wire = []; client = caught_up }

joined_queued : Step stored viewer 1 1 joined queued
joined_queued = renders grey none (refl, λ e. absurd (ground (arith, e))) rendered

relayed-settled : Step stored viewer 1 1 relayed settled
relayed-settled = receives _ shown

Steps-CaughtUp_example :
    (sys : System) × Steps stored viewer 1 1 queued sys × CaughtUp sent_server sys
Steps-CaughtUp_example =
    Steps-CaughtUp stored stored-Lossless stored-Total 1 1 (omega arith) viewer refl joined queued
      joined-IsAwaiting (next joined_queued done) refl refl

Steps-shows_example :
    (settled.client.framebuffer ≡ settled.server.previous_frame)
    × (settled.client.keyframe_pending ≡ false)
unfolding keyframe_seen_after relay
Steps-shows_example =
    Steps-shows stored stored-Lossless stored-Total 1 1 (omega arith) viewer refl joined settled
      joined-IsAwaiting (next joined_queued (next relays (next relays (next relayed-settled done))))
      refl refl refl refl
