-- ===== src/Server/Frames/Cadence.antt =====
-- How often `send_frame_to_network` sends a keyframe.
use wayray.Base.{
  ℕ, ◌+◌, ◌*◌, ◌%◌, ◌^◌, ◌≤◌, ◌<◌, ◌≡◌, subst, max, true, false, not, ◌&&◌, Option, some, List, [],
  ◌∷◌, ◌++◌, ◌>>=◌, >>=-eq-some, Bool-cases, nat_eq, ◌⊎◌, inl, inr, arith,
}
use wayray.Base.Int.{ℤ}
use wayray.Base.Member.{same_list}
use wayray.Wire.Codec.{Bytes}
use wayray.Wire.Messages.{FrameUpdate}
use wayray.Wire.Encoding.{Zstd, checksum}
use wayray.Server.Frames.{
  Rect, FrameStream, CompositorToNet, send_frame, send_keyframe, send_control, send_audio, shutdown,
  keyframe_interval, wants_keyframe, damaged_regions, clamp, send_frame_to_network,
}

-- `send_frame_to_network` for one rendered frame after the other
unfoldable pub send_frames :
    Zstd
    → ℤ
    → ℤ
    → ℕ
    → FrameStream
    → List (Bytes × Option (List Rect))
    → Option (FrameStream × List CompositorToNet)
send_frames z width height stride d [] = some (d, [])
send_frames z width height stride d ((pixels, damage) ∷ frames) = do
  (d', msgs) ← send_frame_to_network z true d pixels damage width height stride
  (d'', rest) ← send_frames z width height stride d' frames
  some (d'', msgs ++ rest)

-- The most deltas in a row among `msgs`, of which `n` have gone before.
unfoldable pub most_deltas : ℕ → List CompositorToNet → ℕ
most_deltas n [] = n
most_deltas n (send_frame u ∷ msgs) = most_deltas (n + 1) msgs
most_deltas n (send_keyframe u ∷ msgs) = max n (most_deltas 0 msgs)
most_deltas n (send_control m ∷ msgs) = most_deltas n msgs
most_deltas n (send_audio m ∷ msgs) = most_deltas n msgs
most_deltas n (shutdown ∷ msgs) = most_deltas n msgs

-- One call queues nothing, a keyframe, or a delta while fewer than 120 have gone before.
abbrev Cadence : FrameStream → FrameStream → List CompositorToNet → Type 0
Cadence d d' msgs =
    ((msgs ≡ []) × (d'.frames_since_keyframe ≡ d.frames_since_keyframe))
    ⊎ ((u : FrameUpdate) × (msgs ≡ send_keyframe u ∷ []) × (d'.frames_since_keyframe ≡ 0))
    ⊎ ((u : FrameUpdate) × (msgs ≡ send_frame u ∷ [])
        × (d.frames_since_keyframe < keyframe_interval)
        × (d'.frames_since_keyframe ≡ d.frames_since_keyframe + 1))

small_mod : (n : ℕ) → n < 120 → (n + 1) % 2 ^ 32 ≡ n + 1
small_mod n h = omega arith

encoded-Cadence :
    (z : Zstd) (d d' : FrameStream) (pixels : Bytes) (damage : Option (List Rect))
    (width height : ℤ) (stride : ℕ) (msgs : List CompositorToNet)
    → (not d.force_keyframe && same_list pixels d.previous_frame) ≡ false
    → send_frame_to_network z true d pixels damage width height stride ≡ some (d', msgs)
    → Cadence d d' msgs
unfolding send_frame_to_network wants_keyframe
encoded-Cadence z d d' pixels damage width height stride msgs differs e =
    let (regions, p, f) =
      >>=-eq-some (damaged_regions z (wants_keyframe d) pixels damage width height stride) _
        (rw (differs) at e) in
    let (sum, q, g) = >>=-eq-some (checksum pixels stride (clamp width * 4) (clamp height)) _ f in
    let u : FrameUpdate = record {
      sequence = (d.frame_sequence + 1) % 2 ^ 64;
      regions = regions;
      checksum = sum;
    } in
    elim (Bool-cases (wants_keyframe d)) [
      | inl k ↦ inr (inl (u, ground (arith, g, k), ground (arith, g, k)))
      | inr k ↦
          let few : d.frames_since_keyframe < keyframe_interval = ground (arith, k) in
          inr (
            inr (
              u,
              ground (arith, g, k),
              few,
              ground (arith, g, k, small_mod d.frames_since_keyframe few),
            ))
    ]

send_frame_to_network-Cadence :
    (z : Zstd) (d d' : FrameStream) (pixels : Bytes) (damage : Option (List Rect))
    (width height : ℤ) (stride : ℕ) (msgs : List CompositorToNet)
    → send_frame_to_network z true d pixels damage width height stride ≡ some (d', msgs)
    → Cadence d d' msgs
unfolding send_frame_to_network
send_frame_to_network-Cadence z d d' pixels damage width height stride msgs e =
    elim (Bool-cases (not d.force_keyframe && same_list pixels d.previous_frame)) [
      | inl same ↦ inl (ground (arith, same, e), ground (arith, same, e))
      | inr differs ↦ encoded-Cadence z d d' pixels damage width height stride msgs differs e
    ]

Cadence-most_deltas :
    (d d' : FrameStream) (now rest : List CompositorToNet)
    → d.frames_since_keyframe ≤ keyframe_interval
    → Cadence d d' now
    → most_deltas d'.frames_since_keyframe rest ≤ keyframe_interval
    → most_deltas d.frames_since_keyframe (now ++ rest) ≤ keyframe_interval
unfolding most_deltas
Cadence-most_deltas d d' now rest few (inl (e, n)) h = rw (e, ← n) h
Cadence-most_deltas d d' now rest few (inr (inl (u, e, n))) h = rw e (ground (arith, n, h))
Cadence-most_deltas d d' now rest few (inr (inr (u, e, less, n))) h =
    rw e (subst (λ k. most_deltas k rest ≤ keyframe_interval) n h)

-- However many frames are rendered, no more than 120 deltas are queued between two keyframes, and
-- the counter that sees to it never passes 120.
pub send_frames-most_deltas :
    (z : Zstd) (width height : ℤ) (stride : ℕ) (d d' : FrameStream)
    (frames : List (Bytes × Option (List Rect))) (msgs : List CompositorToNet)
    → d.frames_since_keyframe ≤ keyframe_interval
    → send_frames z width height stride d frames ≡ some (d', msgs)
    → (most_deltas d.frames_since_keyframe msgs ≤ keyframe_interval)
      × (d'.frames_since_keyframe ≤ keyframe_interval)
unfolding send_frames most_deltas
send_frames-most_deltas z width height stride d d' [] msgs few e =
    (ground (arith, e), ground (arith, e))
send_frames-most_deltas z width height stride d d' ((pixels, damage) ∷ frames) msgs few e =
    let ((mid, now), p, f) =
      >>=-eq-some (send_frame_to_network z true d pixels damage width height stride) _ e in
    let ((end, rest), q, g) = >>=-eq-some (send_frames z width height stride mid frames) _ f in
    let same_end : end ≡ d' = ground (arith, g) in
    let same : now ++ rest ≡ msgs = ground (arith, g) in
    let once = send_frame_to_network-Cadence z d mid pixels damage width height stride now p in
    let bound : mid.frames_since_keyframe ≤ keyframe_interval = ground (arith, once) in
    let later = send_frames-most_deltas z width height stride mid end frames rest bound q in
    (rw (← same) (Cadence-most_deltas d mid now rest few once later.0), rw (← same_end) later.1)
