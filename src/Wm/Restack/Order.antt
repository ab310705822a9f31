-- ===== src/Wm/Restack/Order.antt =====
-- `restack` as a permutation of the stack.
use mathlib.Core.List.{append-nil, Perm, perm_middle}
use mathlib.Core.List.Perm
use wayray.Base.{
  nat_eq, ℕ, zero, suc, ◌+◌, ◌≡◌, refl, sym, ap, ◌∙◌, ◌⊎◌, inl, inr, some, List, [], ◌∷◌, ◌++◌,
  arith, Option-cases, length,
}
use wayray.Wm.Types.{WindowId, RenderCommand, ZOrder, top, bottom, above, below, preserve}
use wayray.Wm.Restack.{position, remove_at, insert_at, beside, direct, apply_command, restack}

-- A list taken apart at a window.
pub position-split :
    (id : WindowId) (ws : List WindowId) (pos : ℕ)
    → position id ws ≡ some pos
    → (pre : List WindowId) × (post : List WindowId) × (ws ≡ pre ++ id ∷ post) × (pos ≡ length pre)
unfolding position
position-split id [] pos h = absurd (cc)
position-split id (w ∷ ws) pos h = elim (Option-cases (position id ws)) [
  | inl e ↦ ([], ws, ground arith, ground arith)
  | inr (i, e) ↦ elim (nat_eq.dec w id) [
    | yes same ↦ ([], ws, ground arith, ground arith)
    | no differ ↦
        let (pre, post, f, g) = position-split id ws i e in
        (w ∷ pre, post, ap (◌∷◌ w) f, ground arith)
  ]
]

pub remove_at-append :
    (pre : List WindowId) (w : WindowId) (post : List WindowId)
    → remove_at (length pre) (pre ++ w ∷ post) ≡ pre ++ post
unfolding remove_at
remove_at-append [] w post = refl
remove_at-append (x ∷ pre) w post = ap (◌∷◌ x) (remove_at-append pre w post)

pub insert_at-append :
    (pre : List WindowId) (w : WindowId) (post : List WindowId)
    → insert_at (length pre) w (pre ++ post) ≡ pre ++ w ∷ post
unfolding insert_at
insert_at-append [] w [] = refl
insert_at-append [] w (x ∷ post) = refl
insert_at-append (x ∷ pre) w post = ap (◌∷◌ x) (insert_at-append pre w post)

-- One window was taken out and put back; the others are as they were.
abbrev pub Moves : WindowId → List WindowId → List WindowId → Type 0
Moves id order order' =
    (pre : List WindowId) × (post : List WindowId) × (pre' : List WindowId) × (post' : List
      WindowId)
    × (order ≡ pre ++ id ∷ post)
    × (order' ≡ pre' ++ id ∷ post')
    × (pre ++ post ≡ pre' ++ post')

insert_at-split :
    (i : ℕ) (w : WindowId) (ws : List WindowId)
    → (pre : List WindowId) × (post : List WindowId) × (insert_at i w ws ≡ pre ++ w ∷ post)
      × (ws ≡ pre ++ post)
unfolding insert_at
insert_at-split i w [] = ([], [], refl, refl)
insert_at-split zero w (x ∷ ws) = ([], x ∷ ws, refl, refl)
insert_at-split (suc i) w (x ∷ ws) =
    let (pre, post, e, f) = insert_at-split i w ws in (x ∷ pre, post, ap (◌∷◌ x) e, ap (◌∷◌ x) f)

beside-Moves :
    (pre post : List WindowId) (id s : WindowId) (offset : ℕ)
    → Moves id (pre ++ id ∷ post) (beside (pre ++ id ∷ post) (length pre) id s offset)
unfolding beside
beside-Moves pre post id s offset = elim (nat_eq.dec s id) [
  | yes same ↦ (pre, post, pre, post, refl, ground arith, refl)
  | no differ ↦
      let order = pre ++ id ∷ post in
      let rest = remove_at (length pre) order in
      let whole : rest ≡ pre ++ post = remove_at-append pre id post in
      elim (Option-cases (position s rest)) [
        | inl e ↦
            let (pre', post', f, g) = insert_at-split (length pre) id rest in
            (pre, post, pre', post', refl, ground arith, sym whole ∙ g)
        | inr (k, e) ↦
            let (pre', post', f, g) = insert_at-split (k + offset) id rest in
            (pre, post, pre', post', refl, ground arith, sym whole ∙ g)
      ]
]

direct-Moves :
    (pre post : List WindowId) (id : WindowId) (z : ZOrder)
    → Moves id (pre ++ id ∷ post) (direct (pre ++ id ∷ post) (length pre) id z)
unfolding direct
direct-Moves pre post id preserve = (pre, post, pre, post, refl, refl, refl)
direct-Moves pre post id top =
    (pre, post, pre ++ post, [], refl, rw (remove_at-append pre id post), sym (append-nil _))
direct-Moves pre post id bottom =
    (pre, post, [], pre ++ post, refl, rw (remove_at-append pre id post), refl)
direct-Moves pre post id (above s) = beside-Moves pre post id s 1
direct-Moves pre post id (below s) = beside-Moves pre post id s 0

-- A command leaves the stack as it is, or takes its window out and puts it back at another place: the
-- other windows stay in the same order.
pub apply_command-Moves :
    (order : List WindowId) (cmd : RenderCommand)
    → (apply_command order cmd ≡ order) ⊎ Moves cmd.id order (apply_command order cmd)
unfolding apply_command
apply_command-Moves order cmd = elim (Option-cases (position cmd.id order)) [
  | inl e ↦ inl (ground arith)
  | inr (pos, e) ↦
      let (pre, post, f, g) = position-split cmd.id order pos e in
      let placed : apply_command order cmd
          ≡ direct (pre ++ cmd.id ∷ post) (length pre) cmd.id cmd.z_order =
        ground arith in
      let (a, b, c, d, e₁, e₂, e₃) = direct-Moves pre post cmd.id cmd.z_order in
      inr (a, b, c, d, f ∙ e₁, placed ∙ e₂, e₃)
]

Moves-perm :
    (id : WindowId) (order order' : List WindowId) → Moves id order order' → Perm order' order
Moves-perm id order order' (pre, post, pre', post', e, f, g) =
    rw (e, f) (Perm.trans (perm_middle pre' post') (Perm.symm (rw (← g) (perm_middle pre post))))

-- Restacking, by any commands, permutes the stack: no window is lost, made up or doubled.
pub restack-perm :
    (order : List WindowId) (cmds : List RenderCommand) → Perm (restack order cmds) order
unfolding restack
restack-perm order [] = Perm.refl order
restack-perm order (cmd ∷ cmds) = elim (apply_command-Moves order cmd) [
  | inl e ↦ rw e (restack-perm order cmds)
  | inr m ↦
      Perm.trans (restack-perm (apply_command order cmd) cmds)
        (Moves-perm cmd.id order (apply_command order cmd) m)
]
