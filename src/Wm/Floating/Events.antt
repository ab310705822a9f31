-- ===== src/Wm/Floating/Events.antt =====
-- The calls of the `WindowManager` trait on the built-in manager as events.
use wayray.Base.{
  nat_eq, ℕ, ◌+◌, ◌<◌, ◌^◌, ◌≡◌, refl, ap, ◌∙◌, inl, inr, true, none, some, List, [], ◌∷◌, ◌++◌,
  arith, Bool-cases,
}
use wayray.Base.Dict.{lookup, contains_key, is_some, lookup-insert, lookup-erase}
use wayray.Base.Member.{
  contains, contains-append, contains-filter_ne, filter_ne-Distinct, snoc-Distinct,
}
use wayray.Wm.Types.{WindowId, WindowInfo}
use wayray.Wm.Floating.{
  BuiltinFloatingWm, WindowState, last, on_new_toplevel, on_close_toplevel, on_fullscreen_request,
  on_key_binding, on_pointer_focus, centred, new_size,
}
use wayray.Wm.Floating.Focus.{Inv, raise_to_top-Inv, on_fullscreen_request-Inv, on_key_binding-Inv}

-- A window id is mapped once: the compositor counts them up.
on_new_toplevel-Inv :
    (m : BuiltinFloatingWm) (id : WindowId) (info : WindowInfo)
    → lookup id m.windows ≡ none
    → m.next_z + 1 < 2 ^ 32
    → Inv m
    → Inv (on_new_toplevel m id info).0
unfolding on_new_toplevel contains
on_new_toplevel-Inv m id info fresh room v = record {
  stacked = λ j. ground (
    arith,
    v.stacked j,
    contains-append j m.focus_stack (id ∷ []),
    lookup-insert j id opened m.windows,
  );
  distinct = snoc-Distinct id m.focus_stack v.distinct (v.stacked id ∙ ap is_some fresh);
  fresh = λ j t h. ground (arith, v.fresh j t, lookup-insert j id opened m.windows);
}
  where
    opened : WindowState
    opened = record {
      position = centred m (new_size info);
      size = new_size info;
      z_index = m.next_z;
      visible = true;
    }

on_close_toplevel-Inv :
    (m : BuiltinFloatingWm) (id : WindowId) → Inv m → Inv (on_close_toplevel m id)
unfolding on_close_toplevel
on_close_toplevel-Inv m id v = record {
  stacked = λ j.
      ground
        (arith, v.stacked j, contains-filter_ne j id m.focus_stack, lookup-erase j id m.windows);
  distinct = filter_ne-Distinct id m.focus_stack v.distinct;
  fresh = λ j t h. ground (arith, v.fresh j t, lookup-erase j id m.windows);
}

on_pointer_focus-Inv :
    (m : BuiltinFloatingWm) (id : WindowId)
    → m.next_z + 1 < 2 ^ 32
    → Inv m
    → Inv (on_pointer_focus m id).0
unfolding on_pointer_focus
on_pointer_focus-Inv m id room v = elim (Bool-cases (contains_key id m.windows)) [
  | inl e ↦ rw e (raise_to_top-Inv m id e room v)
  | inr e ↦ rw e v
]

pub data Event : Type 0 where
  opens : WindowId → WindowInfo → Event
  closes fullscreens clicks : WindowId → Event
  presses : ℕ → ℕ → Event

unfoldable pub on_event : BuiltinFloatingWm → Event → BuiltinFloatingWm
on_event m (opens id info) = (on_new_toplevel m id info).0
on_event m (closes id) = on_close_toplevel m id
on_event m (fullscreens id) = (on_fullscreen_request m id).0
on_event m (clicks id) = (on_pointer_focus m id).0
on_event m (presses key modifiers) = (on_key_binding m key modifiers).0

-- A window is opened under an id that is not in use.
abbrev pub Fits : BuiltinFloatingWm → Event → Type 0
Fits m (opens id info) = lookup id m.windows ≡ none
Fits m _ = Unit

-- Every event, where windows are opened under unused ids and z indices are left, keeps the focus
-- stack a list without repetition of exactly the managed windows, each with a z index that has been
-- handed out.
pub on_event-Inv :
    (m : BuiltinFloatingWm) (e : Event)
    → Fits m e
    → m.next_z + 1 < 2 ^ 32
    → Inv m
    → Inv (on_event m e)
unfolding on_event
on_event-Inv m (opens id info) fit room v = on_new_toplevel-Inv m id info fit room v
on_event-Inv m (closes id) fit room v = on_close_toplevel-Inv m id v
on_event-Inv m (fullscreens id) fit room v = on_fullscreen_request-Inv m id room v
on_event-Inv m (clicks id) fit room v = on_pointer_focus-Inv m id room v
on_event-Inv m (presses key modifiers) fit room v = on_key_binding-Inv m key modifiers room v

pub last-snoc : (ws : List WindowId) (id : WindowId) → last (ws ++ id ∷ []) ≡ some id
unfolding last
last-snoc [] id = refl
last-snoc (w ∷ []) id = refl
last-snoc (w ∷ x ∷ ws) id = last-snoc (x ∷ ws) id
