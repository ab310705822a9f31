-- ===== src/Wm/Workspace/Modes.antt =====
-- Workspace mode and tag mode of `WorkspaceState`, over every history of requests.
use wayray.Base.{
  nat_eq, string_eq, ℕ, String, ◌≡◌, refl, ◌⊎◌, inl, Bool, Option, none, some, List, [], ◌∷◌, arith,
  ◌!=◌,
}
use wayray.Base.Dict.{
  Dict, lookup, insert, erase, NodupKeys, lookup-insert, lookup-erase, lookup-retain,
  insert-NodupKeys, erase-NodupKeys, retain-NodupKeys,
}
use wayray.Wm.Types.{WindowId}
use wayray.Wm.Workspace.{
  WorkspaceState, default, create_workspace, destroy_workspace, set_active_workspace,
  set_active_tags, assign_window, set_window_tags, set_window_output, fall_back, affected_outputs,
}

-- The calls of the protocol handlers.
pub data Request : Type 0 where
  create destroy : String → Request
  activate : String → String → Request
  activate_tags : String → ℕ → Request
  assign : WindowId → String → Request
  tag : WindowId → ℕ → Request
  place : WindowId → String → Request

unfoldable pub handle : WorkspaceState → Request → WorkspaceState
handle w (create name) = create_workspace w name
handle w (destroy name) = destroy_workspace w name
handle w (activate output name) = set_active_workspace w output name
handle w (activate_tags output tags) = set_active_tags w output tags
handle w (assign id name) = assign_window w id name
handle w (tag id tags) = set_window_tags w id tags
handle w (place id output) = set_window_output w id output

unfoldable pub handle_all : WorkspaceState → List Request → WorkspaceState
handle_all w [] = w
handle_all w (q ∷ qs) = handle_all (handle w q) qs

pub record Inv (w : WorkspaceState) : Type 0 where
  pub exclusive :
      (id : WindowId) → (lookup id w.window_tags ≡ none) ⊎ (lookup id w.window_workspace ≡ none)
  pub nodup_window_workspace : NodupKeys w.window_workspace
  pub nodup_active : NodupKeys w.active

fall_back-NodupKeys :
    (f : Option String) (outs : List String) (d : Dict String String)
    → NodupKeys d
    → NodupKeys (fall_back f outs d)
unfolding fall_back
fall_back-NodupKeys f [] d u = u
fall_back-NodupKeys none (out ∷ outs) d u =
    fall_back-NodupKeys none outs (erase out d) (erase-NodupKeys out d u)
fall_back-NodupKeys (some n) (out ∷ outs) d u =
    fall_back-NodupKeys (some n) outs (insert out n d) (insert-NodupKeys out n d u)

handle-Inv : (w : WorkspaceState) (q : Request) → Inv w → Inv (handle w q)
unfolding handle create_workspace destroy_workspace set_active_workspace set_active_tags
    assign_window set_window_tags set_window_output
handle-Inv w (create name) v = record {
  exclusive = v.exclusive;
  nodup_window_workspace = v.nodup_window_workspace;
  nodup_active = v.nodup_active;
}
handle-Inv w (destroy name) v = record {
  exclusive = λ id.
      ground
        (arith, v.exclusive id, lookup-retain other id w.window_workspace v.nodup_window_workspace);
  nodup_window_workspace = retain-NodupKeys _ w.window_workspace v.nodup_window_workspace;
  nodup_active = fall_back-NodupKeys _ (affected_outputs name w.active) w.active v.nodup_active;
}
  where
    other : WindowId → String → Bool
    other = λ _ ws. ws != name
handle-Inv w (activate output name) v = record {
  exclusive = v.exclusive;
  nodup_window_workspace = v.nodup_window_workspace;
  nodup_active = insert-NodupKeys output name w.active v.nodup_active;
}
handle-Inv w (activate_tags output tags) v = record {
  exclusive = v.exclusive;
  nodup_window_workspace = v.nodup_window_workspace;
  nodup_active = v.nodup_active;
}
handle-Inv w (assign id name) v = record {
  exclusive = λ j. ground (
    arith,
    v.exclusive j,
    lookup-insert j id name w.window_workspace,
    lookup-erase j id w.window_tags,
  );
  nodup_window_workspace = insert-NodupKeys id name w.window_workspace v.nodup_window_workspace;
  nodup_active = v.nodup_active;
}
handle-Inv w (tag id tags) v = record {
  exclusive = λ j. ground (
    arith,
    v.exclusive j,
    lookup-insert j id tags w.window_tags,
    lookup-erase j id w.window_workspace,
  );
  nodup_window_workspace = erase-NodupKeys id w.window_workspace v.nodup_window_workspace;
  nodup_active = v.nodup_active;
}
handle-Inv w (place id output) v = record {
  exclusive = v.exclusive;
  nodup_window_workspace = v.nodup_window_workspace;
  nodup_active = v.nodup_active;
}

default-Inv : Inv default
unfolding default lookup
default-Inv = record { exclusive = λ id. inl refl; nodup_window_workspace = tt; nodup_active = tt }

handle_all-Inv : (w : WorkspaceState) (qs : List Request) → Inv w → Inv (handle_all w qs)
unfolding handle_all
handle_all-Inv w [] v = v
handle_all-Inv w (q ∷ qs) v = handle_all-Inv (handle w q) qs (handle-Inv w q v)

pub start-Inv : (qs : List Request) → Inv (handle_all default qs)
start-Inv qs = handle_all-Inv default qs default-Inv

-- Whatever requests come from the start, no window is ever both in a workspace and in tag mode.
pub modes_exclusive :
    (qs : List Request) (id : WindowId)
    → let w = handle_all default qs in
      (lookup id w.window_tags ≡ none) ⊎ (lookup id w.window_workspace ≡ none)
modes_exclusive qs id = (start-Inv qs).exclusive id
