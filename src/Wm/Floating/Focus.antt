-- ===== src/Wm/Floating/Focus.antt =====
-- Focus and stacking in the built-in window manager.
use Prim.Native.Nat.{bit_and}
use wayray.Base.{
  nat_eq, ℕ, ◌+◌, ◌<◌, ◌^◌, ◌≡◌, subst, ap, ◌∙◌, inl, inr, true, some, List, [], ◌∷◌, ◌++◌, filter,
  length, ◌==◌, ◌!=◌, arith, Option-cases, Bool-cases, ltb,
}
use wayray.Base.Dict.{lookup, contains_key, lookup-insert}
use wayray.Base.Int.{pos}
use wayray.Base.Member.{
  contains, Distinct, contains-append, contains-filter_ne, filter_ne-Distinct, snoc-Distinct,
  Distinct-snoc,
}
use wayray.Wm.Types.{WindowId, Pair}
use wayray.Wm.Floating.{
  BuiltinFloatingWm, WindowState, last, init, focused, give_z, rotate, focus_next, raise_last,
  raise_to_top, SnapHalf, mod_alt, mod_super, key_f4, key_tab, set_geometry, snap_focused,
  on_fullscreen_request, on_key_binding, on_super_key, from_key,
}

-- The focus stack holds the managed windows, each once, and every z index has been handed out.
pub record Inv (m : BuiltinFloatingWm) : Type 0 where
  pub stacked : (id : WindowId) → contains id m.focus_stack ≡ contains_key id m.windows
  pub distinct : Distinct m.focus_stack
  pub fresh :
      (id : WindowId) (s : WindowState) → lookup id m.windows ≡ some s → s.z_index < m.next_z

pub give_z-Inv :
    (m : BuiltinFloatingWm) (id : WindowId) → m.next_z + 1 < 2 ^ 32 → Inv m → Inv (give_z m id)
unfolding give_z
give_z-Inv m id room v = elim (Option-cases (lookup id m.windows)) [
  | inl e ↦ rw (e, give_z) v
  | inr (s, e) ↦
      rw (e, give_z)
        (record {
          stacked = λ j. ground (arith, v.stacked j, lookup-insert j id (raised s) m.windows);
          distinct = v.distinct;
          fresh = λ j t h. ground (arith, v.fresh j t, lookup-insert j id (raised s) m.windows);
        })
]
  where
    raised : WindowState → WindowState
    raised s = record s { z_index = m.next_z }

-- A stack with the same windows in another order.
restack-Inv :
    (m : BuiltinFloatingWm) (ws : List WindowId)
    → ((id : WindowId) → contains id ws ≡ contains id m.focus_stack)
    → Distinct ws
    → Inv m
    → Inv (record m { focus_stack = ws })
restack-Inv m ws same u v = record {
  stacked = λ id. same id ∙ v.stacked id;
  distinct = u;
  fresh = v.fresh;
}

contains-raised :
    (id : WindowId) (ws : List WindowId) (j : WindowId)
    → contains id ws ≡ true
    → contains j (filter (λ w. w != id) ws ++ id ∷ []) ≡ contains j ws
unfolding contains
contains-raised id ws j h =
    ground
      (arith, contains-append j (filter (λ w. w != id) ws) (id ∷ []), contains-filter_ne j id ws)

pub raised-Distinct :
    (id : WindowId) (ws : List WindowId)
    → Distinct ws
    → Distinct (filter (λ w. w != id) ws ++ id ∷ [])
raised-Distinct id ws u =
    snoc-Distinct id (filter (λ w. w != id) ws) (filter_ne-Distinct id ws u)
      (ground (arith, contains-filter_ne id id ws))

pub init-last : (ws : List WindowId) (t : WindowId) → last ws ≡ some t → ws ≡ init ws ++ t ∷ []
unfolding last init
init-last [] t h = absurd (cc)
init-last (w ∷ []) t h = ground arith
init-last (w ∷ x ∷ ws) t h = ap (◌∷◌ w) (init-last (x ∷ ws) t h)

contains-rotate : (ws : List WindowId) (j : WindowId) → contains j (rotate ws) ≡ contains j ws
unfolding rotate contains
contains-rotate ws j = elim (Option-cases (last ws)) [
  | inl e ↦ rw (e, rotate)
  | inr (t, e) ↦
      rw (e, rotate) (ground (arith, init-last ws t e, contains-append j (init ws) (t ∷ [])))
]

rotate-Distinct : (ws : List WindowId) → Distinct ws → Distinct (rotate ws)
unfolding rotate
rotate-Distinct ws u = elim (Option-cases (last ws)) [
  | inl e ↦ rw (e, rotate) u
  | inr (t, e) ↦
      let (fresh, apart) = Distinct-snoc t (init ws) (subst Distinct (init-last ws t e) u) in
      rw (e, rotate) (apart, fresh)
]

pub raise_to_top-Inv :
    (m : BuiltinFloatingWm) (id : WindowId)
    → contains_key id m.windows ≡ true
    → m.next_z + 1 < 2 ^ 32
    → Inv m
    → Inv (raise_to_top m id)
unfolding raise_to_top
raise_to_top-Inv m id known room v = give_z-Inv _ id room (
    restack-Inv m _ (λ j. contains-raised id m.focus_stack j (v.stacked id ∙ known))
      (raised-Distinct id m.focus_stack v.distinct) v)

raise_last-Inv : (m : BuiltinFloatingWm) → m.next_z + 1 < 2 ^ 32 → Inv m → Inv (raise_last m).0
unfolding raise_last
raise_last-Inv m room v = elim (Option-cases (last m.focus_stack)) [
  | inl e ↦ rw (e, raise_last) v
  | inr (id, e) ↦ rw (e, raise_last) (give_z-Inv m id room v)
]

pub focus_next-Inv : (m : BuiltinFloatingWm) → m.next_z + 1 < 2 ^ 32 → Inv m → Inv (focus_next m).0
unfolding focus_next
focus_next-Inv m room v = elim (Bool-cases (ltb (length m.focus_stack) 2)) [
  | inl e ↦ rw e v
  | inr e ↦ rw e (
      raise_last-Inv _ room (
        restack-Inv m (rotate m.focus_stack) (contains-rotate m.focus_stack)
          (rotate-Distinct m.focus_stack v.distinct) v))
]

set_geometry-Inv :
    (m : BuiltinFloatingWm) (id : WindowId) (position size : Pair)
    → Inv m
    → Inv (set_geometry m id position size).0
unfolding set_geometry
set_geometry-Inv m id position size v = elim (Option-cases (lookup id m.windows)) [
  | inl e ↦ rw (e, set_geometry) v
  | inr (s, e) ↦
      rw (e, set_geometry)
        (record {
          stacked = λ j. ground (arith, v.stacked j, lookup-insert j id (moved s) m.windows);
          distinct = v.distinct;
          fresh = λ j t h.
              ground (arith, v.fresh j t, v.fresh id s e, lookup-insert j id (moved s) m.windows);
        })
]
  where
    moved : WindowState → WindowState
    moved s = record s { position = position; size = size }

set_geometry_known :
    (m : BuiltinFloatingWm) (id : WindowId) (position size : Pair)
    → (set_geometry m id position size).1 ≡ true
    → (contains_key id (set_geometry m id position size).0.windows ≡ true)
      × ((set_geometry m id position size).0.next_z ≡ m.next_z)
unfolding set_geometry
set_geometry_known m id position size h = elim (Option-cases (lookup id m.windows)) [
  | inl e ↦ absurd (ground arith)
  | inr (s, e) ↦ ground (arith, lookup-insert id id (moved s) m.windows)
]
  where
    moved : WindowState → WindowState
    moved s = record s { position = position; size = size }

pub on_fullscreen_request-Inv :
    (m : BuiltinFloatingWm) (id : WindowId)
    → m.next_z + 1 < 2 ^ 32
    → Inv m
    → Inv (on_fullscreen_request m id).0
unfolding on_fullscreen_request
on_fullscreen_request-Inv m id room v =
    let kept = set_geometry-Inv m id (pos 0, pos 0) (m.output_width, m.output_height) v in
    elim (Bool-cases (set_geometry m id (pos 0, pos 0) (m.output_width, m.output_height)).1) [
      | inl e ↦
          let (known, same) =
            set_geometry_known m id (pos 0, pos 0) (m.output_width, m.output_height) e in
          rw e (raise_to_top-Inv _ id known (rw same room) kept)
      | inr e ↦ rw e kept
    ]

snap_focused-Inv : (m : BuiltinFloatingWm) (half : SnapHalf) → Inv m → Inv (snap_focused m half).0
unfolding snap_focused
snap_focused-Inv m half v = elim (Option-cases (focused m)) [
  | inl e ↦ rw (e, snap_focused) v
  | inr (id, e) ↦ rw (e, snap_focused) (set_geometry-Inv m id _ _ v)
]

on_super_key-Inv :
    (m : BuiltinFloatingWm) (key modifiers : ℕ) → Inv m → Inv (on_super_key m key modifiers).0
unfolding on_super_key
on_super_key-Inv m key modifiers v = elim (Bool-cases (bit_and modifiers mod_super == 0)) [
  | inl e ↦ rw e v
  | inr e ↦ rw e (elim (Option-cases (from_key key)) [
    | inl f ↦ rw (f, on_super_key) v
    | inr (half, f) ↦ rw (f, on_super_key) (snap_focused-Inv m half v)
  ])
]

pub on_key_binding-Inv :
    (m : BuiltinFloatingWm) (key modifiers : ℕ)
    → m.next_z + 1 < 2 ^ 32
    → Inv m
    → Inv (on_key_binding m key modifiers).0
unfolding on_key_binding
on_key_binding-Inv m key modifiers room v =
    let other = on_super_key-Inv m key modifiers v in
    elim (Bool-cases (bit_and modifiers mod_alt == 0)) [
      | inl e ↦ rw e other
      | inr e ↦ rw e (elim (Bool-cases (key == key_f4)) [
        | inl f ↦ rw f v
        | inr f ↦ rw f (elim (Bool-cases (key == key_tab)) [
          | inl g ↦ rw g (focus_next-Inv m room v)
          | inr g ↦ rw g other
        ])
      ])
    ]
