-- ===== src/Stream/Frame.antt =====
-- One frame from `send_frame_to_network` to the client that receives it.
use native.Mathlib.Nat.{mul-div_cancel}
use wayray.Base.{
  ℕ, ◌+◌, ◌*◌, ◌/◌, ◌%◌, ◌^◌, ◌<◌, ◌≡◌, ◌∙◌, sym, refl, subst, ap, Bool, true, false, not, ◌&&◌,
  Option, none, some, List, [], ◌∷◌, length, filter, nat_eq, if◌then◌else◌, Bool-cases, ◌⊎◌, inl,
  inr, arith,
}
use wayray.Base.Int.{pos}
use wayray.Base.Member.{same_list, same_list→≡}
use wayray.Wire.Codec.{Bytes}
use wayray.Wire.Messages.{FrameUpdate, frame_ack}
use wayray.Wire.Encoding.{Zstd, Lossless, DamageRegion, checksum, bpp}
use wayray.Server.Frames.{
  Rect, FrameStream, CompositorToNet, send_frame, send_keyframe, damaged_regions, encode_full,
  encode_rects, is_visible_region, wants_keyframe, send_frame_to_network,
}
use wayray.Server.Frames.Region.{Total, Starts, encode_rects_fit, encode_full_fits, checksum_fits}
use wayray.Client.Frames.{View, apply_regions, receive_frame}
use wayray.Client.Frames.Apply.{
  covers_rects, Copies-whole, apply_regions-encode_rects, apply_regions-encode_full,
}
use wayray.Stream.{IsFrame, Reports, Rendered, render}

module _ (z : Zstd) (lossless : Lossless z) (total : Total z) (width height : ℕ)
    (wide : 0 < width) where
  -- The regions of a frame, applied to what the client shows, give the frame.
  abbrev Gives : List DamageRegion → Bytes → Bytes → Type 0
  Gives regions dst pixels = apply_regions z (width * bpp) dst regions ≡ some pixels

  encode_full-Gives :
      (pixels : Bytes)
      → IsFrame width height pixels
      → (regions : List DamageRegion) × (encode_full z pixels (width * bpp) (pos width) (pos height)
          ≡ some regions)
        × ((dst : Bytes) → IsFrame width height dst → Gives regions dst pixels)
  unfolding encode_full
  encode_full-Gives pixels n =
      let (region, p) = encode_full_fits z pixels width height total n in
      (
        region ∷ [],
        rw p refl,
        λ dst m.
            apply_regions-encode_full z pixels dst width height (region ∷ []) lossless n (m ∙ sym n)
              (rw p refl),
      )

  encode_rects-Gives :
      (pixels : Bytes) (rect : Rect) (rects : List Rect)
      → IsFrame width height pixels
      → Starts width (rect ∷ rects)
      → (regions : List DamageRegion) × (encode_rects z pixels
            (width * bpp)
            (pos width)
            (pos height)
            (rect ∷ rects)
          ≡ some regions)
        × ((dst : Bytes)
            → IsFrame width height dst
            → Reports width height dst pixels (some (rect ∷ rects))
            → Gives (filter is_visible_region regions) dst pixels)
  unfolding Reports
  encode_rects-Gives pixels rect rects n starts =
      let (regions, p) = encode_rects_fit z pixels width height (rect ∷ rects) total n starts in
      (
        regions,
        p,
        λ dst m reports.
            Copies-whole pixels dst (covers_rects (width * bpp) width height (rect ∷ rects))
              (apply_regions z (width * bpp) dst (filter is_visible_region regions)) reports.1
              (m ∙ sym n)
              (apply_regions-encode_rects z pixels dst (width * bpp) width height (rect ∷ rects)
                regions lossless (m ∙ sym n) p),
      )

  damaged_regions-Gives :
      (pixels : Bytes) (whole : Bool) (previous : Bytes) (damage : Option (List Rect))
      → IsFrame width height pixels
      → (whole ≡ false → Reports width height previous pixels damage)
      → (regions : List DamageRegion) × (damaged_regions z whole pixels damage
            (pos width)
            (pos height)
            (width * bpp)
          ≡ some regions)
        × ((dst : Bytes)
            → IsFrame width height dst
            → (whole ≡ false → dst ≡ previous)
            → Gives regions dst pixels)
  unfolding damaged_regions Reports
  damaged_regions-Gives pixels true previous damage n reports =
      let (regions, p, q) = encode_full-Gives pixels n in (regions, p, λ dst m same. q dst m)
  damaged_regions-Gives pixels false previous none n reports =
      let (regions, p, q) = encode_full-Gives pixels n in (regions, p, λ dst m same. q dst m)
  damaged_regions-Gives pixels false previous (some []) n reports =
      let (regions, p, q) = encode_full-Gives pixels n in (regions, p, λ dst m same. q dst m)
  damaged_regions-Gives pixels false previous (some (rect ∷ rects)) n reports =
      let (regions, p, q) = encode_rects-Gives pixels rect rects n (reports refl).0 in
      (
        filter is_visible_region regions,
        rw p refl,
        λ dst m same. q dst m (
            subst (λ b. Reports width height b pixels (some (rect ∷ rects))) (sym (same refl))
              (reports refl)),
      )

  -- A frame that reaches a client whose framebuffer it completes is shown and acknowledged, and no
  -- keyframe is asked for.
  abbrev pub Completes : Bytes → View → FrameUpdate → Type 0
  Completes pixels view u =
      receive_frame z (width * bpp) view u
      ≡ some (
        record { framebuffer = pixels; keyframe_pending = false },
        frame_ack (record { sequence = u.sequence }) ∷ [],
      )

  receive_frame-Gives :
      (pixels : Bytes) (view : View) (u : FrameUpdate)
      → IsFrame width height pixels
      → Gives u.regions view.framebuffer pixels
      → checksum pixels (width * bpp) (width * bpp) height ≡ some u.checksum
      → Completes pixels view u
  unfolding receive_frame nat_eq
  receive_frame-Gives pixels view u n p q =
      let rows : length pixels / (width * bpp) ≡ height =
        ap (λ k. k / (width * bpp)) n ∙ mul-div_cancel height (omega arith) in
      rw (p, rows, q) (ground arith)

  -- What `send_frame_to_network` may queue for `pixels`: a message that completes the framebuffer
  -- of every client, for a keyframe, and of every client that shows the previous frame otherwise.
  pub record Sends (d d' : FrameStream) (pixels : Bytes) (msgs : List CompositorToNet)
      : Type 0 where
    pub update : FrameUpdate
    pub whole : Bool
    pub queued : msgs ≡ (if whole then send_keyframe update else send_frame update) ∷ []
    pub forced : d.force_keyframe ≡ true → whole ≡ true
    pub previous : d'.previous_frame ≡ pixels
    pub completes :
        (view : View)
        → IsFrame width height view.framebuffer
        → (whole ≡ false → view.framebuffer ≡ d.previous_frame)
        → Completes pixels view update

  abbrev pub Skips : FrameStream → FrameStream → Bytes → List CompositorToNet → Type 0
  Skips d d' pixels msgs =
      (d.force_keyframe ≡ false) × (pixels ≡ d.previous_frame) × (d' ≡ d) × (msgs ≡ [])

  pub send_frame_to_network-total :
      (d : FrameStream) (pixels : Bytes) (damage : Option (List Rect))
      → Rendered width height d pixels damage
      → (d' : FrameStream) × (msgs : List CompositorToNet) × (render width height z d pixels damage
          ≡ some (d', msgs))
        × (Skips d d' pixels msgs ⊎ Sends d d' pixels msgs)
  unfolding send_frame_to_network wants_keyframe
  send_frame_to_network-total d pixels damage rendered =
      elim (Bool-cases (not d.force_keyframe && same_list pixels d.previous_frame)) [
        | inl same ↦ (
          d,
          [],
          rw same refl,
          inl (ground arith, same_list→≡ pixels d.previous_frame (ground arith), refl, refl),
        )
        | inr differs ↦
            let whole = wants_keyframe d in
            let (regions, p, gives) =
              damaged_regions-Gives pixels whole d.previous_frame damage rendered.0
                (λ e. rendered.1 (ground arith)) in
            let (sum, q) = checksum_fits pixels (width * bpp) height rendered.0 in
            let sequence = (d.frame_sequence + 1) % 2 ^ 64 in
            let u : FrameUpdate = record {
              sequence = sequence;
              regions = regions;
              checksum = sum;
            } in
            let d' : FrameStream = record {
              previous_frame = pixels;
              frame_sequence = sequence;
              client_connected = d.client_connected;
              force_keyframe = false;
              frames_since_keyframe = if whole then 0 else (d.frames_since_keyframe + 1) % 2 ^ 32;
            } in
            let msgs = (if whole then send_keyframe u else send_frame u) ∷ [] in
            (
              d',
              msgs,
              rw (differs, p, q) refl,
              inr (record {
                update = u;
                whole = whole;
                queued = refl;
                forced = λ e. ground arith;
                previous = refl;
                completes = λ view n same.
                    receive_frame-Gives pixels view u rendered.0 (gives view.framebuffer n same) q;
              }),
            )
      ]
