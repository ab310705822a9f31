-- ===== src/Client/Frames.antt =====
-- crates/wrclient/src/main.rs: what `run_session_loop` does with a frame that has arrived whole. The
-- timeout of the read before it is in the steps of Stream.
pub mod Apply
use wayray.Base.{
  ℕ, ◌/◌, Bool, true, false, not, ◌&&◌, Option, none, some, List, [], ◌∷◌, length, ◌==◌, nat_eq,
  if◌then◌else◌, ◌>>=◌,
}
use wayray.Wire.Codec.{Bytes}
use wayray.Wire.Messages.{FrameUpdate, FrameAck, ControlMessage, request_keyframe, frame_ack}
use wayray.Wire.Encoding.{Zstd, DamageRegion, apply_region, checksum}

-- the variables of the loop
pub record View : Type 0 where
  pub framebuffer : Bytes
  pub keyframe_pending : Bool

-- `for region in &update.regions`
unfoldable pub apply_regions : Zstd → ℕ → Bytes → List DamageRegion → Option Bytes
apply_regions z stride framebuffer [] = some framebuffer
apply_regions z stride framebuffer (region ∷ regions) = do
  framebuffer' ← apply_region z framebuffer stride region
  apply_regions z stride framebuffer' regions

-- The `FrameUpdate` arm, every message of which is written and every snapshot taken. The result
-- is the state and the control messages that are sent back, `none` is a panic.
unfoldable pub receive_frame : Zstd → ℕ → View → FrameUpdate → Option (View × List ControlMessage)
unfolding apply_regions
receive_frame z stride view update = do
  framebuffer ← apply_regions z stride view.framebuffer update.regions
  local ← checksum framebuffer stride stride (length framebuffer / stride)
  let in_sync = local == update.checksum
  let ask = not in_sync && not view.keyframe_pending
  let ack = frame_ack (record { sequence = update.sequence })
  some (
    record { framebuffer = framebuffer; keyframe_pending = not in_sync },
    if ask then request_keyframe ∷ ack ∷ [] else ack ∷ [],
  )
