-- ===== src/Wm/Floating/Geometry.antt =====
-- Positions and sizes of windows under the built-in manager.
use wayray.Base.{
  nat_eq, ℕ, ◌-◌, ◌/◌, ◌≤◌, ◌≡◌, refl, ap, ◌∙◌, inl, inr, true, none, some, ◌==◌, if◌then◌else◌,
  arith, Option-cases, min,
}
use wayray.Base.Dict.{lookup, lookup-insert}
use wayray.Base.Int.{ℤ, pos, ◌+ℤ◌, ◌-ℤ◌, ◌/ℤ◌, ◌≤ℤ◌, int_laws}
use wayray.Wm.Types.{WindowId, Pair, WindowInfo}
use wayray.Wm.Floating.{
  BuiltinFloatingWm, SnapHalf, left_half, right_half, top_half, bottom_half, snap_geometry,
  snap_focused, set_geometry, focused, geometry_of, hint_axis, new_size, centred, on_new_toplevel,
  min_ℤ, on_key_binding, on_super_key, from_key, mod_super,
}

-- The two halves of an output, whatever its size, lie side by side and cover it exactly: the second
-- begins where the first ends, and together they are as wide, or as high, as the output.
pub snap_geometry_tiles :
    (w h : ℤ)
    → let left = snap_geometry w h left_half in
      let right = snap_geometry w h right_half in
      let top = snap_geometry w h top_half in
      let bottom = snap_geometry w h bottom_half in
      (left.0 ≡ (pos 0, pos 0))
      × (right.0 ≡ (left.1.0, pos 0))
      × (left.1.0 +ℤ right.1.0 ≡ w)
      × (left.1.1 ≡ h)
      × (right.1.1 ≡ h)
      × (top.0 ≡ (pos 0, pos 0))
      × (bottom.0 ≡ (pos 0, top.1.1))
      × (top.1.1 +ℤ bottom.1.1 ≡ h)
      × (top.1.0 ≡ w)
      × (bottom.1.0 ≡ w)
unfolding snap_geometry
snap_geometry_tiles w h =
    (refl, refl, omega int_laws, refl, refl, refl, refl, omega int_laws, refl, refl)

set_geometry-geometry_of :
    (m : BuiltinFloatingWm) (id j : WindowId) (position size : Pair) (old : Pair × Pair)
    → geometry_of m id ≡ some old
    → geometry_of (set_geometry m id position size).0 j
      ≡ (if id == j then some (position, size) else geometry_of m j)
unfolding set_geometry geometry_of
set_geometry-geometry_of m id j position size old h = elim (Option-cases (lookup id m.windows)) [
  | inl e ↦ absurd (ground arith)
  | inr (s, e) ↦
      ground (arith, lookup-insert j id (record s { position = position; size = size }) m.windows)
]

set_geometry_consumed :
    (m : BuiltinFloatingWm) (id : WindowId) (position size : Pair) (old : Pair × Pair)
    → geometry_of m id ≡ some old
    → (set_geometry m id position size).1 ≡ true
unfolding set_geometry geometry_of
set_geometry_consumed m id position size old h = ground arith

-- Super with an arrow key moves the focused window, which is known, to the half of the output that the
-- key names, and no other window; the key is consumed.
pub on_key_binding_snap :
    (m : BuiltinFloatingWm) (key : ℕ) (half : SnapHalf) (id j : WindowId) (old : Pair × Pair)
    → from_key key ≡ some half
    → focused m ≡ some id
    → geometry_of m id ≡ some old
    → let (m', consumed) = on_key_binding m key mod_super in
      (consumed ≡ true)
      × (geometry_of m' j ≡ (
          if id == j
          then some (snap_geometry m.output_width m.output_height half)
          else geometry_of m j))
unfolding on_key_binding on_super_key snap_focused nat_eq
on_key_binding_snap m key half id j old k f known =
    let (position, size) = snap_geometry m.output_width m.output_height half in
    rw (k, on_super_key)
      (rw (f, snap_focused)
        (
          set_geometry_consumed m id position size old known,
          set_geometry-geometry_of m id j position size old known,
        ))

hint_axis_bounds :
    (low high x : ℤ)
    → low ≤ℤ high
    → (low ≤ℤ hint_axis (some low) (some high) x) × (hint_axis (some low) (some high) x ≤ℤ high)
unfolding hint_axis
hint_axis_bounds low high x h = ground arith

-- A new window respects the size hints of its client, if the smallest size is at most the largest one.
pub new_size_bounds :
    (info : WindowInfo) (low high : Pair)
    → info.min_size ≡ some low
    → info.max_size ≡ some high
    → low.0 ≤ℤ high.0
    → low.1 ≤ℤ high.1
    → (low.0 ≤ℤ (new_size info).0)
      × ((new_size info).0 ≤ℤ high.0)
      × (low.1 ≤ℤ (new_size info).1)
      × ((new_size info).1 ≤ℤ high.1)
unfolding new_size
new_size_bounds info low high e f g h =
    rw (e, f)
      (let (a, b) = hint_axis_bounds low.0 high.0 (min_ℤ (pos 800) info.output_width) g in
        let (c, d) = hint_axis_bounds low.1 high.1 (min_ℤ (pos 600) info.output_height) h in
        (a, b, c, d))

centred_lem :
    (m : BuiltinFloatingWm) (w h x y : ℕ)
    → m.output_width ≡ pos w
    → m.output_height ≡ pos h
    → x ≤ w
    → y ≤ h
    → centred m (pos x, pos y) ≡ (pos ((w - x) / 2), pos ((h - y) / 2))
unfolding centred ◌-ℤ◌ ◌/ℤ◌
centred_lem m w h x y a b c d = rw (a, b) (ground arith)

-- A new window without size hints lies within an output of w by h pixels, has the preferred size of
-- 800 by 600 as far as that fits, and is centred to the pixel.
pub on_new_toplevel_centred :
    (m : BuiltinFloatingWm) (id : WindowId) (info : WindowInfo) (w h : ℕ)
    → m.output_width ≡ pos w
    → m.output_height ≡ pos h
    → info.output_width ≡ pos w
    → info.output_height ≡ pos h
    → info.min_size ≡ none
    → info.max_size ≡ none
    → let response = (on_new_toplevel m id info).1 in
      (response.size ≡ (pos (min 800 w), pos (min 600 h)))
      × (response.position ≡ (pos ((w - min 800 w) / 2), pos ((h - min 600 h) / 2)))
unfolding on_new_toplevel hint_axis
on_new_toplevel_centred m id info w h a b c d e f =
    let size : new_size info ≡ (pos (min 800 w), pos (min 600 h)) =
      rw (c, d, e, f) (unfold hint_axis in ground arith) in
    (
      size,
      ap (centred m) size
          ∙ centred_lem m w h (min 800 w) (min 600 h) a b (omega arith) (omega arith),
    )
