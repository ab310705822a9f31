-- ===== src/Server/Frames.antt =====
-- crates/wrsrvd/src/backend/headless.rs: `send_frame_to_network`, and the fields of `CalloopData`
-- that it uses. `u32` and `u64` counters wrap, an `i32` of the rectangles is an integer.
pub mod Region
pub mod Cadence
use wayray.Base.{
  ℕ, ◌+◌, ◌*◌, ◌%◌, ◌^◌, Bool, true, false, not, ◌&&◌, Option, none, some, List, [], ◌∷◌, filter,
  ltb, leb, if◌then◌else◌, ◌>>=◌, nat_eq,
}
use wayray.Base.Int.{ℤ, pos, pos_part, ◌-ℤ◌, ltb_ℤ}
use wayray.Base.Member.{same_list}
use wayray.Wire.Codec.{Bytes}
use wayray.Wire.Messages.{FrameUpdate, ControlMessage, AudioMessage, DamageRegion}
use wayray.Wire.Encoding.{Zstd, encode_region, checksum}

-- `Rectangle<i32, Physical>`
pub record Rect : Type 0 where
  pub x : ℤ
  pub y : ℤ
  pub w : ℤ
  pub h : ℤ

-- what the compositor sends to the network thread
pub data CompositorToNet : Type 0 where
  send_frame : FrameUpdate → CompositorToNet
  send_keyframe : FrameUpdate → CompositorToNet
  send_control : ControlMessage → CompositorToNet
  send_audio : AudioMessage → CompositorToNet
  shutdown : CompositorToNet

-- the fields of `CalloopData` for the stream of frames
pub record FrameStream : Type 0 where
  pub previous_frame : Bytes
  pub frame_sequence : ℕ
  pub client_connected : Bool
  pub force_keyframe : Bool
  pub frames_since_keyframe : ℕ

-- `KEYFRAME_INTERVAL`
abbrev pub keyframe_interval : ℕ
keyframe_interval = 120

-- `n.max(0) as u32`
abbrev pub clamp : ℤ → ℕ
clamp = pos_part

-- `size.min(limit - start.max(0)).max(0) as u32`
unfoldable pub clamp_extent : ℤ → ℤ → ℤ → ℕ
clamp_extent size limit start =
    let room = limit -ℤ pos (clamp start) in clamp (if ltb_ℤ size room then size else room)

-- the closure that `send_frame_to_network` maps over the damaged rectangles
unfoldable pub encode_rect : Zstd → Bytes → ℕ → ℤ → ℤ → Rect → Option DamageRegion
unfolding clamp_extent
encode_rect z pixels stride width height rect =
    encode_region z pixels stride (clamp rect.x) (clamp rect.y) (clamp_extent rect.w width rect.x)
      (clamp_extent rect.h height rect.y)

unfoldable pub encode_rects : Zstd → Bytes → ℕ → ℤ → ℤ → List Rect → Option (List DamageRegion)
unfolding encode_rect
encode_rects z pixels stride width height [] = some []
encode_rects z pixels stride width height (rect ∷ rects) = do
  region ← encode_rect z pixels stride width height rect
  regions ← encode_rects z pixels stride width height rects
  some (region ∷ regions)

abbrev pub is_visible_region : DamageRegion → Bool
is_visible_region r = ltb 0 r.width && ltb 0 r.height

-- the `_` arm: the whole frame as one region
unfoldable pub encode_full : Zstd → Bytes → ℕ → ℤ → ℤ → Option (List DamageRegion)
encode_full z pixels stride width height = do
  region ← encode_region z pixels stride 0 0 (clamp width) (clamp height)
  some (region ∷ [])

-- `let regions = match damage { ... }`
unfoldable pub damaged_regions :
    Zstd → Bool → Bytes → Option (List Rect) → ℤ → ℤ → ℕ → Option (List DamageRegion)
unfolding encode_rects encode_full
damaged_regions z true pixels damage width height stride = encode_full z pixels stride width height
damaged_regions z false pixels (some (rect ∷ rects)) width height stride = do
  regions ← encode_rects z pixels stride width height (rect ∷ rects)
  some (filter is_visible_region regions)
damaged_regions z false pixels damage width height stride = encode_full z pixels stride width height

-- the keyframe flag after the periodic promotion
unfoldable pub wants_keyframe : FrameStream → Bool
wants_keyframe d = if leb keyframe_interval d.frames_since_keyframe then true else d.force_keyframe

-- `send_frame_to_network`. `receiving` says whether the network thread still holds its end of the
-- channel. The result is the new state and what was put on the channel, `none` is a panic.
unfoldable pub send_frame_to_network :
    Zstd
    → Bool
    → FrameStream
    → Bytes
    → Option (List Rect)
    → ℤ
    → ℤ
    → ℕ
    → Option (FrameStream × List CompositorToNet)
unfolding damaged_regions wants_keyframe
send_frame_to_network z receiving d current_pixels damage width height stride =
    if not d.force_keyframe && same_list current_pixels d.previous_frame then some (d, []) else do
      let is_keyframe = wants_keyframe d
      regions ← damaged_regions z is_keyframe current_pixels damage width height stride
      let sequence = (d.frame_sequence + 1) % 2 ^ 64
      sum ← checksum current_pixels stride (clamp width * 4) (clamp height)
      let update : FrameUpdate = record { sequence = sequence; regions = regions; checksum = sum }
      let msg = if is_keyframe then send_keyframe update else send_frame update
      some (
        record {
          previous_frame = current_pixels;
          frame_sequence = sequence;
          client_connected = if receiving then d.client_connected else false;
          force_keyframe = false;
          frames_since_keyframe = if is_keyframe then 0 else (d.frames_since_keyframe + 1) % 2 ^ 32;
        },
        if receiving then msg ∷ [] else [],
      )
