-- ===== src/Stream/Queue.antt =====
-- What the commands in the channel come to on the display stream.
use mathlib.Core.List.{append_assoc, append-nil}
use wayray.Base.{◌≡◌, sym, refl, Bool, true, false, List, [], ◌∷◌, ◌++◌, if◌then◌else◌, arith}
use wayray.Wire.Messages.{FrameUpdate, ControlMessage}
use wayray.Server.Frames.{CompositorToNet, send_frame, send_keyframe, send_control}
use wayray.Server.Relay.{ClientCapabilities, written_for, keyframe_seen_after}
use wayray.Stream.{relay, frames_of}

-- The frames that will still be written for the commands in the channel.
unfoldable pub to_come : ClientCapabilities → Bool → List CompositorToNet → List FrameUpdate
to_come caps seen [] = []
to_come caps seen (msg ∷ queue) =
    relay caps seen msg ++ to_come caps (keyframe_seen_after seen msg) queue

unfoldable pub seen_after : Bool → List CompositorToNet → Bool
seen_after seen [] = seen
seen_after seen (msg ∷ queue) = seen_after (keyframe_seen_after seen msg) queue

pub to_come-append :
    (caps : ClientCapabilities) (seen : Bool) (queue more : List CompositorToNet)
    → to_come caps seen (queue ++ more)
      ≡ to_come caps seen queue ++ to_come caps (seen_after seen queue) more
unfolding to_come seen_after
to_come-append caps seen [] more = refl
to_come-append caps seen (msg ∷ queue) more =
    rw
      (
        to_come-append caps (keyframe_seen_after seen msg) queue more,
        append_assoc (relay caps seen msg) (to_come caps (keyframe_seen_after seen msg) queue) _,
      )
      refl

pub seen_after-append :
    (seen : Bool) (queue more : List CompositorToNet)
    → seen_after seen (queue ++ more) ≡ seen_after (seen_after seen queue) more
unfolding seen_after
seen_after-append seen [] more = refl
seen_after-append seen (msg ∷ queue) more =
    seen_after-append (keyframe_seen_after seen msg) queue more

pub to_come-snoc :
    (caps : ClientCapabilities) (seen : Bool) (queue : List CompositorToNet) (msg : CompositorToNet)
    → to_come caps seen (queue ++ msg ∷ [])
      ≡ to_come caps seen queue ++ relay caps (seen_after seen queue) msg
unfolding to_come
to_come-snoc caps seen queue msg =
    rw
      (
        to_come-append caps seen queue (msg ∷ []),
        append-nil (relay caps (seen_after seen queue) msg),
      )
      refl

-- What is on the way when a command is queued.
pub on_way-snoc :
    (caps : ClientCapabilities) (seen : Bool) (wire : List FrameUpdate)
    (queue : List CompositorToNet) (msg : CompositorToNet)
    → wire ++ to_come caps seen (queue ++ msg ∷ [])
      ≡ (wire ++ to_come caps seen queue) ++ relay caps (seen_after seen queue) msg
on_way-snoc caps seen wire queue msg =
    rw (to_come-snoc caps seen queue msg) (sym (append_assoc wire (to_come caps seen queue) _))

pub relay-control :
    (caps : ClientCapabilities) (seen : Bool) (msg : ControlMessage)
    → relay caps seen (send_control msg) ≡ []
unfolding relay written_for frames_of
relay-control caps seen msg = ground arith

pub relay-sent :
    (caps : ClientCapabilities) (seen whole : Bool) (u : FrameUpdate)
    → caps.display ≡ true
    → (whole ≡ false → seen ≡ true)
    → relay caps seen (if whole then send_keyframe u else send_frame u) ≡ u ∷ []
unfolding relay written_for frames_of
relay-sent caps seen true u e h = rw e refl
relay-sent caps seen false u e h = rw (h refl, e) refl

pub seen_after-sent :
    (seen whole : Bool) (queue : List CompositorToNet) (u : FrameUpdate)
    → (whole ≡ false → seen_after seen queue ≡ true)
    → seen_after seen (queue ++ (if whole then send_keyframe u else send_frame u) ∷ []) ≡ true
unfolding seen_after keyframe_seen_after
seen_after-sent seen true queue u h = rw (seen_after-append seen queue (send_keyframe u ∷ [])) refl
seen_after-sent seen false queue u h =
    rw (seen_after-append seen queue (send_frame u ∷ [])) (h refl)
