-- ===== src/Wm/Floating/Cycle.antt =====
-- Where the focus goes: a click, the end of a window, and Alt+Tab.
use mathlib.Core.List.{append-nil, append_assoc}
use wayray.Base.{
  nat_eq, ℕ, zero, suc, ◌<◌, ◌≡◌, refl, sym, ap, ◌∙◌, ◌≢◌, inl, inr, true, false, Option, none,
  some, List, [], ◌∷◌, ◌++◌, filter, length, ◌!=◌, arith, Option-cases, Bool-cases, ltb,
  length-append,
}
use wayray.Base.Dict.{
  lookup, insert, contains_key, is_some, lookup-insert, lookup-erase, lookup-insert_self,
}
use wayray.Base.Member.{contains}
use wayray.Wm.Types.{WindowId, WindowInfo}
use wayray.Wm.Floating.{
  BuiltinFloatingWm, WindowState, last, init, focused, give_z, raise_last, rotate, focus_next,
  raise_to_top, on_new_toplevel, on_close_toplevel, on_key_binding, on_pointer_focus, key_tab,
  mod_alt, centred, new_size,
}
use wayray.Wm.Floating.Focus.{Inv, init-last}
use wayray.Wm.Floating.Events.{last-snoc}

filter_ne_idem :
    (id : WindowId) (ws : List WindowId)
    → filter (λ w. w != id) (filter (λ w. w != id) ws) ≡ filter (λ w. w != id) ws
filter_ne_idem id [] = refl
filter_ne_idem id (w ∷ ws) = ground (arith, filter_ne_idem id ws)

filter_ne-snoc :
    (id : WindowId) (ws : List WindowId)
    → filter (λ w. w != id) (ws ++ id ∷ []) ≡ filter (λ w. w != id) ws
filter_ne-snoc id [] = ground arith
filter_ne-snoc id (w ∷ ws) = ground (arith, filter_ne-snoc id ws)

filter_ne_absent :
    (id : WindowId) (ws : List WindowId) → contains id ws ≡ false → filter (λ w. w != id) ws ≡ ws
unfolding contains
filter_ne_absent id [] h = refl
filter_ne_absent id (w ∷ ws) h = ground (arith, filter_ne_absent id ws)

-- The window's z index is above that of every other window.
abbrev pub IsOnTop : WindowId → BuiltinFloatingWm → Option WindowState → Type 0
IsOnTop id m none = ⊥
IsOnTop id m (some s) =
    (j : WindowId) (t : WindowState) → lookup j m.windows ≡ some t → j ≢ id → t.z_index < s.z_index

give_z-stack : (m : BuiltinFloatingWm) (id : WindowId) → (give_z m id).focus_stack ≡ m.focus_stack
unfolding give_z
give_z-stack m id = ground arith

give_z-IsOnTop :
    (m : BuiltinFloatingWm) (id : WindowId)
    → contains_key id m.windows ≡ true
    → ((j : WindowId) (t : WindowState) → lookup j m.windows ≡ some t → t.z_index < m.next_z)
    → IsOnTop id (give_z m id) (lookup id (give_z m id).windows)
unfolding give_z
give_z-IsOnTop m id known fresh = elim (Option-cases (lookup id m.windows)) [
  | inl e ↦ absurd (ground arith)
  | inr (s, e) ↦
      rw (e, give_z)
        (rw (lookup-insert_self id (record s { z_index = m.next_z }) m.windows) (λ j t h differ.
          ground
            (arith, fresh j t, lookup-insert j id (record s { z_index = m.next_z }) m.windows)))
]

-- In a well-formed manager, a click on a managed window gives it the focus and a z index above that
-- of every other window; the other windows stay in their focus order.
pub on_pointer_focus_lem :
    (m : BuiltinFloatingWm) (id : WindowId)
    → Inv m
    → contains_key id m.windows ≡ true
    → let (m', target) = on_pointer_focus m id in
      (target ≡ some id)
      × (focused m' ≡ some id)
      × (filter (λ w. w != id) m'.focus_stack ≡ filter (λ w. w != id) m.focus_stack)
      × IsOnTop id m' (lookup id m'.windows)
unfolding on_pointer_focus focused raise_to_top
on_pointer_focus_lem m id v known =
    let others = filter (λ w. w != id) m.focus_stack in
    let raised : BuiltinFloatingWm = record m { focus_stack = others ++ id ∷ [] } in
    rw known (
      refl,
      ap last (give_z-stack raised id) ∙ last-snoc others id,
      ap (filter (λ w. w != id)) (give_z-stack raised id)
          ∙ filter_ne-snoc id others
          ∙ filter_ne_idem id m.focus_stack,
      give_z-IsOnTop raised id known v.fresh,
    )

-- In a well-formed manager, a window that is opened under an unused id has the focus; and when it
-- is closed again, every other window is as it was, and the focus goes back to where it was before.
pub on_close-on_new_toplevel :
    (m : BuiltinFloatingWm) (id : WindowId) (info : WindowInfo)
    → Inv m
    → lookup id m.windows ≡ none
    → let opened = (on_new_toplevel m id info).0 in
      (focused opened ≡ some id)
      × ((on_close_toplevel opened id).focus_stack ≡ m.focus_stack)
      × (focused (on_close_toplevel opened id) ≡ focused m)
      × ((j : WindowId) → lookup j (on_close_toplevel opened id).windows ≡ lookup j m.windows)
unfolding on_new_toplevel on_close_toplevel focused
on_close-on_new_toplevel m id info v fresh =
    let stack =
      filter_ne-snoc id m.focus_stack
      ∙ filter_ne_absent id m.focus_stack (v.stacked id ∙ ap is_some fresh) in
    (
      last-snoc m.focus_stack id,
      stack,
      ap last stack,
      λ j.
          ground
            (arith, lookup-erase j id (insert id s0 m.windows), lookup-insert j id s0 m.windows),
    )
  where
    s0 : WindowState
    s0 = record {
      position = centred m (new_size info);
      size = new_size info;
      z_index = m.next_z;
      visible = true;
    }

abbrev iterate : ℕ → (List WindowId → List WindowId) → List WindowId → List WindowId
iterate zero f ws = ws
iterate (suc n) f ws = iterate n f (f ws)

last-some : (w : WindowId) (ws : List WindowId) → (t : WindowId) × (last (w ∷ ws) ≡ some t)
unfolding last
last-some w [] = (w, refl)
last-some w (x ∷ ws) = last-some x ws

init-snoc : (ws : List WindowId) (t : WindowId) → init (ws ++ t ∷ []) ≡ ws
unfolding init
init-snoc [] t = refl
init-snoc (w ∷ []) t = refl
init-snoc (w ∷ x ∷ ws) t = ap (◌∷◌ w) (init-snoc (x ∷ ws) t)

rotate-snoc : (ws : List WindowId) (t : WindowId) → rotate (ws ++ t ∷ []) ≡ t ∷ ws
unfolding rotate
rotate-snoc ws t = rw (last-snoc ws t, rotate) (ap (◌∷◌ t) (init-snoc ws t))

iterate-rotate :
    (n : ℕ) (xs ys : List WindowId) → length ys ≡ n → iterate n rotate (xs ++ ys) ≡ ys ++ xs
iterate-rotate zero xs [] h = append-nil xs
iterate-rotate zero xs (y ∷ ys) h = absurd (omega arith)
iterate-rotate (suc n) xs [] h = absurd (omega arith)
iterate-rotate (suc n) xs (y ∷ ys) h =
    let (t, e) = last-some y ys in
    let front = init (y ∷ ys) in
    let split : y ∷ ys ≡ front ++ t ∷ [] = init-last (y ∷ ys) t e in
    let turned : rotate (xs ++ y ∷ ys) ≡ t ∷ (xs ++ front) =
      ap (λ l. rotate (xs ++ l)) split
      ∙ ap rotate (sym (append_assoc xs front (t ∷ [])))
      ∙ rotate-snoc (xs ++ front) t in
    let shorter : length front ≡ n =
      omega (arith, h, ap length split, length-append front (t ∷ [])) in
    ap (iterate n rotate) turned
    ∙ iterate-rotate n (t ∷ xs) front shorter
    ∙ sym (append_assoc front (t ∷ []) xs)
    ∙ ap (λ l. l ++ xs) (sym split)

rotate_short : (ws : List WindowId) → ltb (length ws) 2 ≡ true → rotate ws ≡ ws
unfolding rotate
rotate_short [] h = refl
rotate_short (w ∷ []) h = refl
rotate_short (w ∷ x ∷ ws) h = absurd (ground arith)

raise_last-stack : (m : BuiltinFloatingWm) → (raise_last m).0.focus_stack ≡ m.focus_stack
unfolding raise_last
raise_last-stack m = elim (Option-cases (last m.focus_stack)) [
  | inl e ↦ rw (e, raise_last)
  | inr (id, e) ↦ rw (e, raise_last) (give_z-stack m id)
]

focus_next-stack : (m : BuiltinFloatingWm) → (focus_next m).0.focus_stack ≡ rotate m.focus_stack
unfolding focus_next
focus_next-stack m = elim (Bool-cases (ltb (length m.focus_stack) 2)) [
  | inl e ↦ rw e (sym (rotate_short m.focus_stack e))
  | inr e ↦ rw e (raise_last-stack _)
]

alt_tab : BuiltinFloatingWm → BuiltinFloatingWm
alt_tab m = (on_key_binding m key_tab mod_alt).0

abbrev pub alt_tabs : ℕ → BuiltinFloatingWm → BuiltinFloatingWm
unfolding alt_tab
alt_tabs zero m = m
alt_tabs (suc n) m = alt_tabs n (alt_tab m)

alt_tab-stack : (m : BuiltinFloatingWm) → (alt_tab m).focus_stack ≡ rotate m.focus_stack
unfolding alt_tab on_key_binding nat_eq
alt_tab-stack m = focus_next-stack m

alt_tabs-stack :
    (n : ℕ) (m : BuiltinFloatingWm) → (alt_tabs n m).focus_stack ≡ iterate n rotate m.focus_stack
unfolding alt_tab
alt_tabs-stack zero m = refl
alt_tabs-stack (suc n) m =
    alt_tabs-stack n (alt_tab m) ∙ ap (iterate n rotate) (unfold alt_tab in alt_tab-stack m)

-- Alt+Tab goes through the windows: each press takes the focused window, the last of the focus stack,
-- to its front, below the others in their order, so that the next one has the focus; and as many
-- presses as there are windows on the stack bring back the order from before.
pub alt_tabs_cycle :
    (m : BuiltinFloatingWm)
    → ((below : List WindowId) (top : WindowId)
        → m.focus_stack ≡ below ++ top ∷ []
        → ((on_key_binding m key_tab mod_alt).0.focus_stack ≡ top ∷ below)
          × (focused (on_key_binding m key_tab mod_alt).0 ≡ last (top ∷ below)))
      × ((alt_tabs (length m.focus_stack) m).focus_stack ≡ m.focus_stack)
unfolding alt_tab focused
alt_tabs_cycle m = (
  λ below top e.
      let moved = alt_tab-stack m ∙ ap rotate e ∙ rotate-snoc below top in (moved, ap last moved),
  alt_tabs-stack (length m.focus_stack) m
      ∙ iterate-rotate (length m.focus_stack) [] m.focus_stack refl
      ∙ append-nil m.focus_stack,
)
