-- ===== src/Stream/Sync.antt =====
-- The steps of the three threads of the stream, and what they keep of the frames on the way.
use mathlib.Core.List.{append_assoc, append-nil}
use wayray.Base.{
  ℕ, ◌*◌, ◌<◌, ◌≡◌, ◌∙◌, sym, refl, subst, ap, Bool, true, false, some, List, [], ◌∷◌, ◌++◌,
  if◌then◌else◌, ◌⊎◌, inl, inr, arith,
}
use wayray.Wire.Codec.{Bytes}
use wayray.Wire.Messages.{FrameUpdate, ControlMessage, frame_ack}
use wayray.Wire.Encoding.{Zstd, Lossless, bpp}
use wayray.Server.Frames.{FrameStream, CompositorToNet, send_frame, send_keyframe, send_control}
use wayray.Server.Frames.Region.{Total}
use wayray.Server.Relay.{ClientCapabilities, keyframe_seen_after}
use wayray.Client.Frames.{View, receive_frame}
use wayray.Stream.{
  System, relay, IsFrame, Step, renders, relays, receives, queues, resyncs, gives_up_read,
  gives_up_write, Steps, done, next,
}
use wayray.Stream.Frame.{Sends, send_frame_to_network-total}
use wayray.Stream.Queue.{
  to_come, seen_after, seen_after-append, on_way-snoc, relay-control, relay-sent, seen_after-sent,
}

module _ (z : Zstd) (stride : ℕ) where
  -- Once the client has received these frames it shows `pixels`, and it never asked for a
  -- keyframe.
  unfoldable pub Reaches : View → List FrameUpdate → Bytes → Type 0
  Reaches view [] pixels = (view.framebuffer ≡ pixels) × (view.keyframe_pending ≡ false)
  Reaches view (u ∷ us) pixels =
      (view' : View) × (receive_frame z stride view u
        ≡ some (view', frame_ack (record { sequence = u.sequence }) ∷ []))
      × Reaches view' us pixels

  Reaches-snoc :
      (view : View) (us : List FrameUpdate) (u : FrameUpdate) (pixels pixels' : Bytes)
      → Reaches view us pixels
      → ((v : View)
          → v.framebuffer ≡ pixels
          → receive_frame z stride v u
            ≡ some (
              record { framebuffer = pixels'; keyframe_pending = false },
              frame_ack (record { sequence = u.sequence }) ∷ [],
            ))
      → Reaches view (us ++ u ∷ []) pixels'
  unfolding Reaches
  Reaches-snoc view [] u pixels pixels' r h = (_, h view r.0, (refl, refl))
  Reaches-snoc view (w ∷ us) u pixels pixels' r h =
      let (view', p, q) = r in (view', p, Reaches-snoc view' us u pixels pixels' q h)

module _ (z : Zstd) (caps : ClientCapabilities) (width height : ℕ) where
  -- A keyframe is due to the client, and nothing that is queued before reaches it: so it is when a
  -- client has just joined, or when its request for a keyframe is taken and it has received all else.
  abbrev pub IsAwaiting : System → Type 0
  IsAwaiting sys =
      (sys.server.force_keyframe ≡ true)
      × IsFrame width height sys.client.framebuffer
      × (sys.wire ++ to_come caps sys.keyframe_seen sys.queue ≡ [])

  -- The frames on the way take the client to the compositor's last frame.
  abbrev pub IsFollowing : System → Type 0
  IsFollowing sys =
      IsFrame width height sys.server.previous_frame
      × (seen_after sys.keyframe_seen sys.queue ≡ true)
      × Reaches z (width * bpp) sys.client (sys.wire ++ to_come caps sys.keyframe_seen sys.queue)
          sys.server.previous_frame

  abbrev pub IsSynced : System → Type 0
  IsSynced sys = IsAwaiting sys ⊎ IsFollowing sys

module _ (z : Zstd) (lossless : Lossless z) (total : Total z) (width height : ℕ) (wide : 0 < width)
    (caps : ClientCapabilities) (shows : caps.display ≡ true) where
  abbrev Synced : System → Type 0
  Synced = IsSynced z caps width height

  Sends-Synced :
      (server server' : FrameStream) (queue msgs : List CompositorToNet) (seen : Bool)
      (wire : List FrameUpdate) (client : View) (pixels : Bytes)
      → IsFrame width height pixels
      → Sends z lossless total width height wide server server' pixels msgs
      → Synced (record {
        server = server;
        queue = queue;
        keyframe_seen = seen;
        wire = wire;
        client = client;
        cancelled = false;
      })
      → Synced (record {
        server = server';
        queue = queue ++ msgs;
        keyframe_seen = seen;
        wire = wire;
        client = client;
        cancelled = false;
      })
  unfolding Reaches
  Sends-Synced server server' queue msgs seen wire client pixels n s (inl (forced, m, quiet)) =
      let whole = s.forced forced in
      let msg = (if s.whole then send_keyframe s.update else send_frame s.update) in
      let contra : s.whole ≡ false → seen_after seen queue ≡ true = λ e. absurd (ground arith) in
      rw (s.queued) (
        inr (
          rw s.previous n,
          seen_after-sent seen s.whole queue s.update contra,
          rw
              (
                on_way-snoc caps seen wire queue msg,
                quiet,
                relay-sent caps (seen_after seen queue) s.whole s.update shows contra,
              )
              (_, s.completes client m (λ e. absurd (ground arith)), (sym s.previous, refl)),
        ))
  Sends-Synced server server' queue msgs seen wire client pixels n s (inr (m, saw, reaches)) =
      let msg = (if s.whole then send_keyframe s.update else send_frame s.update) in
      rw (s.queued) (
        inr (
          rw s.previous n,
          seen_after-sent seen s.whole queue s.update (λ e. saw),
          rw
              (
                on_way-snoc caps seen wire queue msg,
                relay-sent caps (seen_after seen queue) s.whole s.update shows (λ e. saw),
                s.previous,
              )
              (Reaches-snoc z (width * bpp) client (wire ++ to_come caps seen queue) s.update
                server.previous_frame pixels reaches
                (λ v same.
                  s.completes v (subst (λ b. IsFrame width height b) (sym same) m) (λ e. same))),
        ))

  quiet-Synced :
      (server : FrameStream) (queue : List CompositorToNet) (msg : ControlMessage) (seen : Bool)
      (wire : List FrameUpdate) (client : View)
      → Synced (record {
        server = server;
        queue = queue;
        keyframe_seen = seen;
        wire = wire;
        client = client;
        cancelled = false;
      })
      → Synced (record {
        server = server;
        queue = queue ++ send_control msg ∷ [];
        keyframe_seen = seen;
        wire = wire;
        client = client;
        cancelled = false;
      })
  unfolding seen_after keyframe_seen_after
  quiet-Synced server queue msg seen wire client synced =
      let same : wire ++ to_come caps seen (queue ++ send_control msg ∷ [])
          ≡ wire ++ to_come caps seen queue =
        on_way-snoc caps seen wire queue (send_control msg)
        ∙ ap (λ l. (wire ++ to_come caps seen queue) ++ l)
            (relay-control caps (seen_after seen queue) msg)
        ∙ append-nil (wire ++ to_come caps seen queue) in
      rw (same, seen_after-append seen queue (send_control msg ∷ [])) synced

  -- What has been given up stays so.
  Step-cancelled :
      (sys sys' : System)
      → Step z caps width height sys sys'
      → sys'.cancelled ≡ false
      → sys.cancelled ≡ false
  Step-cancelled sys sys' (renders pixels damage rendered sent) h = h
  Step-cancelled sys sys' relays h = h
  Step-cancelled sys sys' (receives sent e) h = h
  Step-cancelled sys sys' (queues msg) h = h
  Step-cancelled sys sys' resyncs h = h
  Step-cancelled sys sys' (gives_up_read garbled) h = absurd (ground (arith, h))
  Step-cancelled sys sys' (gives_up_write garbled) h = absurd (ground (arith, h))

  Steps-cancelled :
      (sys sys' : System)
      → Steps z caps width height sys sys'
      → sys'.cancelled ≡ false
      → sys.cancelled ≡ false
  Steps-cancelled sys sys' done h = h
  Steps-cancelled sys sys' (next {mid = mid} step steps) h =
      Step-cancelled sys mid step (Steps-cancelled mid sys' steps h)

  pub Step-Synced :
      (sys sys' : System)
      → Step z caps width height sys sys'
      → sys'.cancelled ≡ false
      → Synced sys
      → Synced sys'
  unfolding Reaches to_come seen_after
  Step-Synced sys sys'
        (renders {server} {server'} {queue} {msgs} {seen} {wire} {client} pixels damage rendered
          sent)
        whole synced =
      let (d', ms, p, outcome) =
        send_frame_to_network-total z lossless total width height wide server pixels damage
          rendered in
      let same_server : d' ≡ server' = ground (arith, p, sent) in
      let same_msgs : ms ≡ msgs = ground (arith, p, sent) in
      rw (← same_server, ← same_msgs)
        (elim outcome [
          | inl (f, e, g, h) ↦ rw (g, h, append-nil queue) synced
          | inr s ↦ Sends-Synced server d' queue ms seen wire client pixels rendered.0 s synced
        ])
  Step-Synced sys sys' (relays {server} {msg} {queue} {seen} {wire} {client}) whole synced =
      rw
        (append_assoc wire (relay caps seen msg)
          (to_come caps (keyframe_seen_after seen msg) queue))
        synced
  Step-Synced sys sys' (receives sent e) whole (inl (f, m, q)) = absurd (ground (arith, q))
  Step-Synced sys sys' (receives {server} {queue} {seen} {update} {wire} {client} {client'} sent e)
        whole (inr (m, s, (view, p, r))) =
      let same : view ≡ client' = ground (arith, p, e) in rw (← same) (inr (m, s, r))
  Step-Synced sys sys' (queues {server} {queue} {seen} {wire} {client} msg) whole synced =
      quiet-Synced server queue msg seen wire client synced
  Step-Synced sys sys' resyncs whole (inl (f, m, q)) = inl (refl, m, q)
  Step-Synced sys sys' resyncs whole (inr following) = inr following
  Step-Synced sys sys' (gives_up_read garbled) whole synced = absurd (ground (arith, whole))
  Step-Synced sys sys' (gives_up_write garbled) whole synced = absurd (ground (arith, whole))

  pub Steps-Synced :
      (sys sys' : System)
      → Steps z caps width height sys sys'
      → sys'.cancelled ≡ false
      → Synced sys
      → Synced sys'
  Steps-Synced sys sys' done whole synced = synced
  Steps-Synced sys sys' (next {mid = mid} step steps) whole synced =
      Steps-Synced mid sys' steps whole
        (Step-Synced sys mid step (Steps-cancelled mid sys' steps whole) synced)
