-- ===== src/Wm/Restack/Directives.antt =====
-- Where the z-order directives of `restack` put their windows.
use mathlib.Core.List.{Perm, Mem, perm_middle, mem-cons, not-mem-nil}
use mathlib.Core.List.Perm
use mathlib.Core.Logic.Or
use mathlib.Core.Logic.{∥∥₁_prop}
use native.Mathlib.Nat.{add-zero}
use native.Mathlib.Numerals.{add-one}
use wayray.Base.{
  nat_eq, suc, ◌+◌, ◌≡◌, refl, subst, sym, ap, ◌≢◌, inl, inr, none, List, [], ◌∷◌, ◌++◌, arith,
  Option-cases, length,
}
use wayray.Wm.Types.{WindowId, RenderCommand, ZOrder, top, bottom, above, below, preserve}
use wayray.Wm.Restack.{position, remove_at, insert_at, beside, direct, apply_command, restack}
use wayray.Wm.Restack.Order.{position-split, remove_at-append, insert_at-append, restack-perm}

insert_at_next :
    (pre : List WindowId) (s w : WindowId) (post : List WindowId)
    → insert_at (suc (length pre)) w (pre ++ s ∷ post) ≡ pre ++ s ∷ w ∷ post
unfolding insert_at
insert_at_next [] s w [] = refl
insert_at_next [] s w (x ∷ post) = refl
insert_at_next (x ∷ pre) s w post = ap (◌∷◌ x) (insert_at_next pre s w post)

-- Where a directive puts its window.
abbrev pub Obeys : WindowId → ZOrder → List WindowId → List WindowId → Type 0
Obeys id preserve order order' = order' ≡ order
Obeys id top order order' = (rest : List WindowId) × (order' ≡ rest ++ id ∷ [])
Obeys id bottom order order' = (rest : List WindowId) × (order' ≡ id ∷ rest)
Obeys id (above s) order order' =
    (pre : List WindowId) × (post : List WindowId) × (order' ≡ pre ++ s ∷ id ∷ post)
Obeys id (below s) order order' =
    (pre : List WindowId) × (post : List WindowId) × (order' ≡ pre ++ id ∷ s ∷ post)

-- The sibling of a directive is another window that is on the stack.
abbrev pub HasSibling : WindowId → ZOrder → List WindowId → Type 0
HasSibling id (above s) order = (s ≢ id) × Mem s order
HasSibling id (below s) order = (s ≢ id) × Mem s order
HasSibling id _ order = Unit

position-mem : (id : WindowId) (ws : List WindowId) → position id ws ≡ none → ¬ Mem id ws
unfolding position
position-mem id [] e m = not-mem-nil m
position-mem id (w ∷ ws) e m =
    Or.elim (λ a b. absurd a) (mem-cons.0 m) (λ h. ground arith)
      (λ h. position-mem id ws (ground arith) h)

mem_rest :
    (s id : WindowId) (pre post : List WindowId)
    → s ≢ id
    → Mem s (pre ++ id ∷ post)
    → Mem s (pre ++ post)
mem_rest s id pre post h m =
    Or.elim ∥∥₁_prop (mem-cons.0 ((Perm.mem_iff (perm_middle pre post)).0 m)) (λ e. absurd (h e))
      (λ r. r)

beside-Obeys :
    (pre post : List WindowId) (id s : WindowId)
    → s ≢ id
    → Mem s (pre ++ id ∷ post)
    → (a : List WindowId) × (b : List WindowId) × (beside (pre ++ id ∷ post) (length pre) id s 1
        ≡ a ++ s ∷ id ∷ b)
      × (beside (pre ++ id ∷ post) (length pre) id s 0 ≡ a ++ id ∷ s ∷ b)
unfolding beside
beside-Obeys pre post id s differ m =
    let rest = remove_at (length pre) (pre ++ id ∷ post) in
    let whole : rest ≡ pre ++ post = remove_at-append pre id post in
    elim (Option-cases (position s rest)) [
      | inl e ↦ absurd (position-mem s rest e (rw whole (mem_rest s id pre post differ m)))
      | inr (k, e) ↦
          let (a, b, f, g) = position-split s rest k e in
          let over : insert_at (k + 1) id rest ≡ a ++ s ∷ id ∷ b =
            rw (f, g, add-one) (insert_at_next a s id b) in
          let under : insert_at (k + 0) id rest ≡ a ++ id ∷ s ∷ b =
            rw (f, g, add-zero) (insert_at-append a id (s ∷ b)) in
          (a, b, ground arith, ground arith)
    ]

direct-Obeys :
    (pre post : List WindowId) (id : WindowId) (z : ZOrder)
    → HasSibling id z (pre ++ id ∷ post)
    → Obeys id z (pre ++ id ∷ post) (direct (pre ++ id ∷ post) (length pre) id z)
unfolding direct
direct-Obeys pre post id preserve h = refl
direct-Obeys pre post id top h = (remove_at (length pre) (pre ++ id ∷ post), refl)
direct-Obeys pre post id bottom h = (remove_at (length pre) (pre ++ id ∷ post), refl)
direct-Obeys pre post id (above s) h =
    let (a, b, over, under) = beside-Obeys pre post id s h.0 h.1 in (a, b, over)
direct-Obeys pre post id (below s) h =
    let (a, b, over, under) = beside-Obeys pre post id s h.0 h.1 in (a, b, under)

apply_command-Obeys :
    (order : List WindowId) (cmd : RenderCommand)
    → Mem cmd.id order
    → HasSibling cmd.id cmd.z_order order
    → Obeys cmd.id cmd.z_order order (apply_command order cmd)
unfolding apply_command
apply_command-Obeys order cmd m h = elim (Option-cases (position cmd.id order)) [
  | inl e ↦ absurd (position-mem cmd.id order e m)
  | inr (pos, e) ↦
      let (pre, post, f, g) = position-split cmd.id order pos e in
      let placed : apply_command order cmd ≡ direct order (length pre) cmd.id cmd.z_order =
        ground arith in
      rw placed (
        subst (λ o. Obeys cmd.id cmd.z_order o (direct o (length pre) cmd.id cmd.z_order)) (sym f)
          (direct-Obeys pre post cmd.id cmd.z_order (subst (HasSibling cmd.id cmd.z_order) f h)))
]

restack-append :
    (order : List WindowId) (cmds : List RenderCommand) (cmd : RenderCommand)
    → restack order (cmds ++ cmd ∷ []) ≡ apply_command (restack order cmds) cmd
unfolding restack
restack-append order [] cmd = refl
restack-append order (c ∷ cmds) cmd = restack-append (apply_command order c) cmds cmd

HasSibling-perm :
    (id : WindowId) (z : ZOrder) (order order' : List WindowId)
    → Perm order' order
    → HasSibling id z order
    → HasSibling id z order'
HasSibling-perm id top order order' p h = tt
HasSibling-perm id bottom order order' p h = tt
HasSibling-perm id preserve order order' p h = tt
HasSibling-perm id (above s) order order' p h = (h.0, (Perm.mem_iff p).1 h.1)
HasSibling-perm id (below s) order order' p h = (h.0, (Perm.mem_iff p).1 h.1)

-- The last command wins, whatever came before it: its window, which is on the stack with the sibling
-- that it names, ends at the top, at the bottom, directly above or directly below the sibling, or
-- stays where the earlier commands left it.
pub restack_last_wins :
    (order : List WindowId) (cmds : List RenderCommand) (cmd : RenderCommand)
    → Mem cmd.id order
    → HasSibling cmd.id cmd.z_order order
    → Obeys cmd.id cmd.z_order (restack order cmds) (restack order (cmds ++ cmd ∷ []))
restack_last_wins order cmds cmd m h = rw (restack-append order cmds cmd) (
    apply_command-Obeys (restack order cmds) cmd ((Perm.mem_iff (restack-perm order cmds)).1 m)
      (HasSibling-perm cmd.id cmd.z_order order (restack order cmds) (restack-perm order cmds) h))
