-- ===== src/Wm/Restack.antt =====
-- `restack` of crates/wrsrvd/src/wm/types.rs: the stacking order, bottom first, after the z-order
-- directives of some render commands.
pub mod Order
pub mod Directives
use wayray.Base.{
  nat_eq, ℕ, zero, suc, ◌+◌, Option, none, some, List, [], ◌∷◌, ◌++◌, ◌==◌, if◌then◌else◌,
}
use wayray.Wm.Types.{WindowId, RenderCommand, ZOrder, top, bottom, above, below, preserve}

abbrev next_index : Option ℕ → Option ℕ
next_index none = none
next_index (some i) = some (suc i)

-- `order.iter().position(|w| *w == id)`
unfoldable pub position : WindowId → List WindowId → Option ℕ
position id [] = none
position id (w ∷ ws) = if w == id then some 0 else next_index (position id ws)

-- `Vec::remove`, without the removed element
unfoldable pub remove_at : ℕ → List WindowId → List WindowId
remove_at i [] = []
remove_at zero (w ∷ ws) = ws
remove_at (suc i) (w ∷ ws) = w ∷ remove_at i ws

-- `Vec::insert`, at an index that is at most the length
unfoldable pub insert_at : ℕ → WindowId → List WindowId → List WindowId
insert_at i id [] = id ∷ []
insert_at zero id (w ∷ ws) = id ∷ w ∷ ws
insert_at (suc i) id (w ∷ ws) = w ∷ insert_at i id ws

-- The window goes to `offset` places from its sibling, or back to where it was.
unfoldable pub beside : List WindowId → ℕ → WindowId → WindowId → ℕ → List WindowId
unfolding position remove_at insert_at
beside order pos id sibling offset =
    if sibling == id then order else elim (position sibling (remove_at pos order)) [
      | some sib_pos ↦ insert_at (sib_pos + offset) id (remove_at pos order)
      | none ↦ insert_at pos id (remove_at pos order)
    ]

-- the `match` on the directive, for the window `id` at `pos`
unfoldable pub direct : List WindowId → ℕ → WindowId → ZOrder → List WindowId
unfolding beside
direct order pos id preserve = order
direct order pos id top = remove_at pos order ++ id ∷ []
direct order pos id bottom = id ∷ remove_at pos order
direct order pos id (above sibling) = beside order pos id sibling 1
direct order pos id (below sibling) = beside order pos id sibling 0

-- one round of the loop
unfoldable pub apply_command : List WindowId → RenderCommand → List WindowId
unfolding direct
apply_command order cmd = elim (position cmd.id order) [
  | none ↦ order
  | some pos ↦ direct order pos cmd.id cmd.z_order
]

unfoldable pub restack : List WindowId → List RenderCommand → List WindowId
unfolding apply_command
restack order [] = order
restack order (cmd ∷ cmds) = restack (apply_command order cmd) cmds
