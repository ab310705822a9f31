-- ===== src/Wm/Workspace/Visibility.antt =====
-- What the operations on workspaces and tags do to the visibility of windows.
use Prim.Native.Nat.{bit_and}
use wayray.Base.{
  nat_eq, string_eq, ℕ, String, ◌≡◌, refl, ◌≢◌, inl, inr, Bool, true, false, not, Option, none,
  some, List, [], ◌∷◌, arith, ◌==◌, ◌!=◌, if◌then◌else◌, Option-cases,
}
use wayray.Base.Dict.{
  Dict, lookup, insert, erase, NodupKeys, lookup-insert, lookup-erase, lookup-retain, keys,
  lookup-insert_self,
}
use wayray.Base.Member.{contains}
use wayray.Wm.Types.{WindowId}
use wayray.Wm.Workspace.{
  WorkspaceState, output_key, is_visible, visible_as, destroy_workspace, set_active_workspace,
  set_active_tags, assign_window, set_window_tags, set_window_output, fall_back, min_key,
  affected_outputs,
}
use wayray.Wm.Workspace.Modes.{Inv}
use wayray.Wm.Workspace.Names.{IsLeast, min_key-IsLeast}

-- A window without an output of its own that is put into a workspace is visible on an output exactly
-- if that workspace is the one activated there.
pub is_visible-assign_window :
    (w : WorkspaceState) (id : WindowId) (name output active : String)
    → lookup id w.window_output ≡ none
    → is_visible (set_active_workspace (assign_window w id name) output active) id output
      ≡ (active == name)
unfolding is_visible set_active_workspace assign_window
is_visible-assign_window w id name output active h = ground (
  arith,
  lookup-insert id id name w.window_workspace,
  lookup-erase id id w.window_tags,
  lookup-insert output output active w.active,
)

-- A window without an output of its own that is given tags is visible on an output exactly if one of
-- them is among the tags activated there.
pub is_visible-set_window_tags :
    (w : WorkspaceState) (id : WindowId) (tags mask : ℕ) (output : String)
    → lookup id w.window_output ≡ none
    → is_visible (set_active_tags (set_window_tags w id tags) output mask) id output
      ≡ not (bit_and tags mask == 0)
unfolding is_visible set_active_tags set_window_tags
is_visible-set_window_tags w id tags mask output h =
    ground (
      arith,
      lookup-insert id id tags w.window_tags,
      lookup-insert output output mask w.active_tags,
    )

visible_as_elsewhere :
    (w : WorkspaceState) (own : String) (tags : Option ℕ) (ws : Option String) (output : String)
    → output_key w own ≢ output_key w output
    → visible_as w (some own) tags ws output ≡ false
unfolding visible_as
visible_as_elsewhere w own (some tags) ws output h = ground arith
visible_as_elsewhere w own none (some ws) output h = ground arith
visible_as_elsewhere w own none none output h = ground arith

-- A window on an output of its own is not visible on an output that resolves to another one, whatever
-- its tags and its workspace are; unknown outputs resolve to the default one.
pub is_visible-set_window_output :
    (w : WorkspaceState) (id : WindowId) (own output : String)
    → output_key w own ≢ output_key w output
    → is_visible (set_window_output w id own) id output ≡ false
unfolding is_visible set_window_output output_key
is_visible-set_window_output w id own output h = rw (lookup-insert_self id own w.window_output) (
    visible_as_elsewhere (set_window_output w id own) own (lookup id w.window_tags)
      (lookup id w.window_workspace) output h)

lookup-fall_back :
    (f : Option String) (outs : List String) (d : Dict String String) (out : String)
    → lookup out (fall_back f outs d) ≡ (if contains out outs then f else lookup out d)
unfolding fall_back contains
lookup-fall_back f [] d out = refl
lookup-fall_back none (o ∷ outs) d out =
    ground (arith, lookup-fall_back none outs (erase o d) out, lookup-erase out o d)
lookup-fall_back (some n) (o ∷ outs) d out =
    ground (arith, lookup-fall_back (some n) outs (insert o n d) out, lookup-insert out o n d)

abbrev pub is_name : String → Option String → Bool
is_name name none = false
is_name name (some ws) = ws == name

contains-affected_outputs :
    (name : String) (d : Dict String String) (out : String)
    → NodupKeys d
    → contains out (affected_outputs name d) ≡ is_name name (lookup out d)
unfolding affected_outputs lookup contains
contains-affected_outputs name [] out u = refl
contains-affected_outputs name ((o, ws) ∷ d) out u =
    ground (arith, contains-affected_outputs name d out u.1)

min_key-contains : (ks : List String) (m : String) → min_key ks ≡ some m → contains m ks ≡ true
unfolding min_key contains
min_key-contains [] m h = cc
min_key-contains (k ∷ ks) m h = elim (Option-cases (min_key ks)) [
  | inl e ↦ ground arith
  | inr (n, e) ↦ ground (arith, min_key-contains ks n e)
]

contains-keys-erase :
    {V : Type 0} (name : String) (d : Dict String V) → contains name (keys (erase name d)) ≡ false
unfolding keys erase contains
contains-keys-erase name [] = refl
contains-keys-erase name ((k, v) ∷ d) = ground (arith, contains-keys-erase name d)

min_key_other :
    {V : Type 0} (name : String) (d : Dict String V) → min_key (keys (erase name d)) ≢ some name
min_key_other name d e =
    cc (min_key-contains (keys (erase name d)) name e, contains-keys-erase name d)

abbrev fallback : WorkspaceState → String → Option String
fallback w name = min_key (keys (erase name w.workspaces))

-- In a well-formed state, destroying a workspace switches every output that showed it to that name
-- among the remaining workspaces that none of them comes before, or to none if none is left; every other output
-- shows what it showed. No output shows the destroyed workspace afterwards.
pub active-destroy_workspace :
    (w : WorkspaceState) (name output : String)
    → Inv w
    → let active = lookup output (destroy_workspace w name).active in
      (least : Option String) × IsLeast least (keys (destroy_workspace w name).workspaces)
      × (active ≡ (if is_name name (lookup output w.active) then least else lookup output w.active))
      × (active ≢ some name)
unfolding destroy_workspace
active-destroy_workspace w name output v =
    let outs = affected_outputs name w.active in
    let listed = contains-affected_outputs name w.active output v.nodup_active in
    let moved = lookup-fall_back (fallback w name) outs w.active output in
    (
      fallback w name,
      min_key-IsLeast (keys (erase name w.workspaces)),
      ground (arith, listed, moved),
      λ e. ground (arith, listed, moved, min_key_other name w.workspaces),
    )

-- In a well-formed state, the windows of a destroyed workspace are unassigned: one without an
-- output of its own is visible on every output.
pub is_visible-destroy_workspace :
    (w : WorkspaceState) (name output : String) (id : WindowId)
    → Inv w
    → lookup id w.window_workspace ≡ some name
    → lookup id w.window_output ≡ none
    → is_visible (destroy_workspace w name) id output ≡ true
unfolding is_visible destroy_workspace
is_visible-destroy_workspace w name output id v h own =
    ground
      (arith, v.exclusive id, lookup-retain other id w.window_workspace v.nodup_window_workspace)
  where
    other : WindowId → String → Bool
    other = λ _ ws. ws != name
