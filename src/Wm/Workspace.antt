-- ===== src/Wm/Workspace.antt =====
-- `WorkspaceState` of crates/wrsrvd/src/wm/types.rs: which windows are visible on which output, by
-- exclusive workspaces or by tags. `WorkspaceInfo` is empty, so a workspace is its name.
pub mod Modes
pub mod Names
pub mod Visibility
use Prim.Native.Nat.{bit_and}
use Prim.Native.String
use Prim.Native.Char.{code}
use wayray.Base.{
  nat_eq, string_eq, ℕ, String, Bool, true, false, not, ◌&&◌, ◌||◌, Option, none, some, List, [],
  ◌∷◌, ltb, ◌==◌, ◌!=◌, if◌then◌else◌,
}
use wayray.Base.Dict.{Dict, lookup, insert, erase, retain, keys, contains_key, is_some}
use wayray.Wm.Types.{WindowId}

-- `DEFAULT_OUTPUT`
abbrev pub default_output_name : String
default_output_name = "wayray-0"

pub record WorkspaceInfo : Type 0 where

pub record WorkspaceState : Type 0 where
  pub workspaces : Dict String WorkspaceInfo
  pub active : Dict String String
  pub default_output : String
  pub window_workspace : Dict WindowId String
  pub window_tags : Dict WindowId ℕ
  pub active_tags : Dict String ℕ
  pub window_output : Dict WindowId String

-- `WorkspaceState::default`
unfoldable pub default : WorkspaceState
default = record {
  workspaces = [];
  active = [];
  default_output = default_output_name;
  window_workspace = [];
  window_tags = [];
  active_tags = (default_output_name, 0x1) ∷ [];
  window_output = [];
}

-- `output_key`
unfoldable pub output_key : WorkspaceState → String → String
output_key w output =
    if (contains_key output w.active || contains_key output w.active_tags)
      || (output == w.default_output)
    then output
    else w.default_output

abbrev unwrap_or : ℕ → Option ℕ → ℕ
unwrap_or d none = d
unwrap_or d (some n) = n

-- `active_tags_for`
unfoldable pub active_tags_for : WorkspaceState → String → ℕ
unfolding output_key
active_tags_for w output = unwrap_or 0x1 (lookup (output_key w output) w.active_tags)

-- `active_workspace_for`
unfoldable pub active_workspace_for : WorkspaceState → String → Option String
unfolding output_key
active_workspace_for w output = lookup (output_key w output) w.active

-- `create_workspace`
unfoldable pub create_workspace : WorkspaceState → String → WorkspaceState
create_workspace w name = record w { workspaces = insert name (record {}) w.workspaces }

-- `set_active_workspace`
unfoldable pub set_active_workspace : WorkspaceState → String → String → WorkspaceState
set_active_workspace w output name = record w { active = insert output name w.active }

-- `set_active_tags`
unfoldable pub set_active_tags : WorkspaceState → String → ℕ → WorkspaceState
set_active_tags w output tags = record w { active_tags = insert output tags w.active_tags }

-- `assign_window`
unfoldable pub assign_window : WorkspaceState → WindowId → String → WorkspaceState
assign_window w id name = record w {
  window_workspace = insert id name w.window_workspace;
  window_tags = erase id w.window_tags;
}

-- `set_window_tags`
unfoldable pub set_window_tags : WorkspaceState → WindowId → ℕ → WorkspaceState
set_window_tags w id tags = record w {
  window_tags = insert id tags w.window_tags;
  window_workspace = erase id w.window_workspace;
}

-- `set_window_output`
unfoldable pub set_window_output : WorkspaceState → WindowId → String → WorkspaceState
set_window_output w id output = record w { window_output = insert id output w.window_output }

-- The order of texts: that of their bytes, which for UTF-8 is that of their code points.
unfoldable pub codes_ltb : String → String → Bool
codes_ltb s String.[] = false
codes_ltb String.[] (String.◌∷◌ d t) = true
codes_ltb (String.◌∷◌ c s) (String.◌∷◌ d t) =
    ltb (code c) (code d) || (code c == code d && codes_ltb s t)

-- `self.workspaces.keys().min()`
unfoldable pub min_key : List String → Option String
unfolding codes_ltb
min_key [] = none
min_key (k ∷ ks) = elim (min_key ks) [
  | none ↦ some k
  | some m ↦ if codes_ltb m k then some m else some k
]

-- the outputs whose active workspace is `name`
unfoldable pub affected_outputs : String → Dict String String → List String
affected_outputs name [] = []
affected_outputs name ((out, ws) ∷ d) =
    if ws == name then out ∷ affected_outputs name d else affected_outputs name d

abbrev replace_active : Option String → String → Dict String String → Dict String String
replace_active (some next) out d = insert out next d
replace_active none out d = erase out d

-- the loop over the affected outputs
unfoldable pub fall_back : Option String → List String → Dict String String → Dict String String
fall_back fallback [] d = d
fall_back fallback (out ∷ outs) d = fall_back fallback outs (replace_active fallback out d)

-- `destroy_workspace`
unfoldable pub destroy_workspace : WorkspaceState → String → WorkspaceState
unfolding min_key affected_outputs fall_back keys
destroy_workspace w name =
    let workspaces = erase name w.workspaces in
    record w {
      workspaces = workspaces;
      window_workspace = retain (λ _ ws. ws != name) w.window_workspace;
      active = fall_back (min_key (keys workspaces)) (affected_outputs name w.active) w.active;
    }

-- `assigned` and `output` resolve to different outputs
abbrev elsewhere : WorkspaceState → Option String → String → Bool
elsewhere w none output = false
elsewhere w (some assigned) output = output_key w assigned != output_key w output

abbrev is_active_workspace : Option String → String → Bool
is_active_workspace none ws = false
is_active_workspace (some active) ws = active == ws

-- `is_visible`, for the window's output, tags and workspace
unfoldable pub visible_as :
    WorkspaceState → Option String → Option ℕ → Option String → String → Bool
unfolding active_tags_for active_workspace_for output_key
visible_as w assigned (some tags) ws output =
    if elsewhere w assigned output
    then false
    else not (bit_and tags (active_tags_for w output) == 0)
visible_as w assigned none (some ws) output =
    if elsewhere w assigned output
    then false
    else is_active_workspace (active_workspace_for w output) ws
visible_as w assigned none none output = if elsewhere w assigned output then false else true

unfoldable pub is_visible : WorkspaceState → WindowId → String → Bool
unfolding visible_as
is_visible w id output =
    visible_as w (lookup id w.window_output) (lookup id w.window_tags)
      (lookup id w.window_workspace) output
