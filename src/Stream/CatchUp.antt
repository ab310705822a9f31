-- ===== src/Stream/CatchUp.antt =====
-- The end of a run of the stream: the channel and the display stream are emptied.
use mathlib.Core.List.{append_assoc, append-nil}
use wayray.Base.{
  ℕ, ◌*◌, ◌<◌, ◌≡◌, sym, refl, subst, Bool, true, false, List, [], ◌∷◌, ◌++◌, inl, inr, arith,
}
use wayray.Wire.Messages.{FrameUpdate}
use wayray.Wire.Encoding.{Zstd, Lossless, bpp}
use wayray.Server.Frames.{FrameStream, CompositorToNet}
use wayray.Server.Frames.Region.{Total}
use wayray.Server.Relay.{ClientCapabilities, keyframe_seen_after}
use wayray.Client.Frames.{View}
use wayray.Stream.{System, relay, relays, receives, Steps, done, next}
use wayray.Stream.Queue.{to_come}
use wayray.Stream.Sync.{IsAwaiting, Reaches, Steps-Synced}

-- The end of a run in which the two other threads catch up with the compositor.
abbrev pub CaughtUp : FrameStream → System → Type 0
CaughtUp server sys =
    (sys.server ≡ server)
    × (sys.queue ≡ [])
    × (sys.wire ≡ [])
    × (sys.client.framebuffer ≡ server.previous_frame)

module _ (z : Zstd) (lossless : Lossless z) (total : Total z) (width height : ℕ) (wide : 0 < width)
    (caps : ClientCapabilities) (shows : caps.display ≡ true) where
  receive_all :
      (server : FrameStream) (seen : Bool) (wire : List FrameUpdate) (client : View)
      (cancelled : Bool)
      → Reaches z (width * bpp) client wire server.previous_frame
      → (sys' : System) × Steps z caps width height
          (record {
            server = server;
            queue = [];
            keyframe_seen = seen;
            wire = wire;
            client = client;
            cancelled = cancelled;
          })
          sys'
        × CaughtUp server sys'
  unfolding Reaches
  receive_all server seen [] client cancelled (shown, calm) = (_, done, (refl, refl, refl, shown))
  receive_all server seen (u ∷ us) client cancelled (view, p, r) =
      let (sys', steps, end) = receive_all server seen us view cancelled r in
      (sys', next (receives _ p) steps, end)

  relay_all :
      (server : FrameStream) (queue : List CompositorToNet) (seen : Bool) (wire : List FrameUpdate)
      (client : View) (cancelled : Bool)
      → Reaches z (width * bpp) client (wire ++ to_come caps seen queue) server.previous_frame
      → (sys' : System) × Steps z caps width height
          (record {
            server = server;
            queue = queue;
            keyframe_seen = seen;
            wire = wire;
            client = client;
            cancelled = cancelled;
          })
          sys'
        × CaughtUp server sys'
  unfolding to_come
  relay_all server [] seen wire client cancelled r =
      receive_all server seen wire client cancelled (rw (sym (append-nil wire)) r)
  relay_all server (msg ∷ queue) seen wire client cancelled r =
      let (sys', steps, end) =
        relay_all server queue (keyframe_seen_after seen msg) (wire ++ relay caps seen msg) client
          cancelled
          (rw
            (append_assoc wire (relay caps seen msg)
              (to_come caps (keyframe_seen_after seen msg) queue))
            r) in
      (sys', next relays steps, end)

  -- From every state that a run of the three threads reaches once a keyframe that was due is
  -- rendered, with no read and no write cancelled part-way since nothing on the way reached the
  -- client, there is a run of the network thread and the client that empties the channel and the
  -- display stream, and then the client shows the compositor's last frame. The output has a
  -- positive width and the client's framebuffer its size, the client advertised the display, the
  -- compression is lossless and total, and the damage reports hold what has changed.
  pub Steps-CaughtUp :
      (start sys : System)
      → IsAwaiting z caps width height start
      → Steps z caps width height start sys
      → sys.cancelled ≡ false
      → sys.server.force_keyframe ≡ false
      → (sys' : System) × Steps z caps width height sys sys' × CaughtUp sys.server sys'
  Steps-CaughtUp start sys joining steps whole sent =
      elim (Steps-Synced z lossless total width height wide caps shows start sys steps whole
        (inl joining)) [
          | inl (f, m, q) ↦ absurd (ground arith)
          | inr (m, s, r) ↦
              relay_all sys.server sys.queue sys.keyframe_seen sys.wire sys.client sys.cancelled r
        ]

  -- After any run of the three threads in which no read and no write is cancelled part-way, from
  -- a state in which a keyframe is due and nothing on the way reaches the client, since it has
  -- just joined or since its request for a keyframe has been taken, once the keyframe is rendered
  -- and nothing is queued or on the display stream, the client shows exactly the compositor's
  -- last frame and no keyframe request is pending, whatever it showed before. The output has a
  -- positive width and the client's framebuffer its size, the client advertised the display, the
  -- compression is lossless and total, and the damage reports hold what has changed.
  pub Steps-shows :
      (start sys : System)
      → IsAwaiting z caps width height start
      → Steps z caps width height start sys
      → sys.cancelled ≡ false
      → sys.server.force_keyframe ≡ false
      → sys.queue ≡ []
      → sys.wire ≡ []
      → (sys.client.framebuffer ≡ sys.server.previous_frame) × (sys.client.keyframe_pending ≡ false)
  unfolding Reaches to_come
  Steps-shows start sys joining steps whole sent no_queue no_wire =
      elim (Steps-Synced z lossless total width height wide caps shows start sys steps whole
        (inl joining)) [
          | inl (f, m, q) ↦ absurd (ground arith)
          | inr (m, s, r) ↦
              let quiet : sys.wire ++ to_come caps sys.keyframe_seen sys.queue ≡ [] =
                rw (no_queue, no_wire) refl in
              subst (λ us. Reaches z (width * bpp) sys.client us sys.server.previous_frame) quiet r
        ]
