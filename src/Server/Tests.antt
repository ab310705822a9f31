-- ===== src/Server/Tests.antt =====
-- Tests of the server: one client that comes, types and leaves.
use wayray.Base.{
  ℕ, ◌*◌, ◌/◌, ◌≡◌, ◌≢◌, ◌≤◌, refl, true, false, Option, none, some, List, [], ◌∷◌, ◌++◌, ltb,
  arith, nat_eq, string_eq, if◌then◌else◌,
}
use wayray.Base.Int.{pos}
use wayray.Base.Member.{same_list}
use wayray.Base.Dict.{lookup}
use wayray.Wire.Codec.{Bytes}
use wayray.Wire.Encoding.{Zstd, encode_region, slice, checksum}
use wayray.Wire.Messages.{ClientHello, server_info_request, pressed}
use wayray.Session.Store.{SessionStore, null_store}
use wayray.Session.Registry.{with_cluster, resumable_tokens, count_by_state}
use wayray.Session.Registry.History.{run, run-with_cluster-Inv}
use wayray.Server.Frames.{
  FrameStream, CompositorToNet, Rect, keyframe_interval, send_frame_to_network,
}
use wayray.Server.Frames.Cadence.{send_frames, most_deltas, send_frames-most_deltas}
use wayray.Server.Network.{
  ServerConfig, Published, bind, SessionBinding, classify_connection, query_peer_for_token, routed,
  polled, served, server_loop, idle, loop_step,
}
use wayray.Server.Network.Probes.{classify_connection-outsider, peer}
use wayray.Server.Keyboard.{Keyboard}
use wayray.Server.Keyboard.Held.{
  KeyTurn, key, client_gone, key_turns, holds_after, release_all_keys-holds_after,
}
use wayray.Server.Cluster.{ClusterConfig, Probes, Float}
use wayray.Server.Compositor.{CalloopData, Moment, connect_client, disconnect_client}
use wayray.Server.Compositor.HotDesk.{Gets, Happening, takes, cleans, happens, NotExpired, hot_desk}
use wayray.Session.Registry.Started.{Sound}
use wayray.Session.Registry.{get, is_resumable}
use wayray.Base.Dict.{is_some, insert, erase}
use wayray.Session.Lifecycle
use wayray.Server.Compositor.{disconnect_client}
use wayray.Server.Compositor.Turns.{take_turn}
use wayray.Server.Compositor.Turns.{Turn, connects, disconnects, lifelines, drain}
use wayray.Server.Compositor.Exclusive.{Idle, Exclusive, drain-Exclusive}
use wayray.Server.Compositor.Publishing.{IsPublished, query_peer_for_token-drain}
use wayray.Wm.Floating
use wayray.Wm.Protocol.{WmProtocolState, ObjectId, start}
use wayray.Wm.Types.{RenderCommand, top}
use wayray.Server.Render.{WmState, frame_commands, frame_commands_dropped}

instance unfoldable no_store : SessionStore (Unit {0})
no_store = null_store

abbrev naturals : Float
naturals = record { F = ℕ; of_u32 = λ n. n; div = λ a b. a / b; lt = ltb; redirect_threshold = 9 }

abbrev no_peers : Probes
no_peers = record {
  is_late = λ n. false;
  parses = λ s. true;
  query_peer_for_token = λ s token secret. none;
  query_peer_info = λ s secret. none;
}

abbrev at_second : ℕ → Moment
at_second n = record {
  random_token = "drawn";
  probes = no_peers;
  now = record { mono = n * 1000000000; epoch = n };
}

abbrev alone : ClusterConfig
alone = record { local_id = "a"; cluster_secret = "s"; servers = [] }

abbrev hello : ClientHello
hello = record { version = 2; capabilities = "display" ∷ []; token = none }

abbrev hello_again : ClientHello
hello_again = record { version = 2; capabilities = []; token = some "drawn" }

abbrev keys : Keyboard
keys = record {
  modifiers = [];
  pressed_keys = [];
  protocol = none;
  builtin = Floating.new (pos 800) (pos 600);
  open_windows = [];
}

abbrev fresh : CalloopData (Unit {0})
fresh = record {
  stream = record {
    previous_frame = 0 ∷ 0 ∷ 0 ∷ 0 ∷ [];
    frame_sequence = 0;
    client_connected = false;
    force_keyframe = false;
    frames_since_keyframe = 0;
  };
  session_registry = run (with_cluster "a" 50 tt) [];
  active_session = none;
  cluster = alone;
  has_peer_rt = false;
  connected_client_addr = none;
  published = record { active_sessions = 0; local_tokens = [] };
  keyboard = keys;
  remote_clipboard = none;
}

abbrev first_binding : SessionBinding
first_binding = record { session_id = 1; resumed = false; token = "drawn" }

bound : (connect_client naturals fresh (at_second 1) hello "x").1 ≡ bind first_binding
unfolding connect_client lookup run with_cluster
bound = refl

fresh-Sound : Sound fresh.session_registry
unfolding run with_cluster lookup
fresh-Sound = record {
  inv = run-with_cluster-Inv "a" 50 tt [] (omega arith);
  indexed = λ id s e alive. absurd (ground (arith, e));
  started = λ id s e. absurd (ground (arith, e));
}

abbrev stranger : ClientHello
stranger = record { version = 2; capabilities = []; token = some "other" }

-- The client leaves, another one comes and leaves, and the clean-up runs.
abbrev meanwhile : List Happening
meanwhile =
    takes (disconnects (at_second 2).now)
    ∷ takes (connects (at_second 3) stranger "z")
    ∷ takes (disconnects (at_second 4).now)
    ∷ cleans (at_second 60).now
    ∷ []

abbrev served_first : CalloopData (Unit {0})
served_first = (connect_client naturals fresh (at_second 1) hello "x").0

meanwhile-NotExpired : NotExpired naturals (λ s. []) 1 served_first meanwhile
unfolding NotExpired take_turn connect_client disconnect_client lookup run with_cluster get insert
    nat_eq Lifecycle.transition string_eq erase
meanwhile-NotExpired = ((λ t e. ground (arith, e)), tt)

hot_desk_example :
    Gets
      (connect_client naturals
        (happens naturals (λ s. []) served_first meanwhile)
        (at_second 61)
        hello_again
        "y")
      (record first_binding { resumed = true })
hot_desk_example =
    hot_desk naturals (λ s. []) fresh (at_second 1) (at_second 61) hello hello_again "x" "y"
      first_binding meanwhile fresh-Sound (unfold run with_cluster in omega arith) bound
      meanwhile-NotExpired refl

fresh-Idle : Idle fresh
unfolding Idle run with_cluster lookup
fresh-Idle = ((λ id s e a. absurd (ground (arith, e))), refl)

abbrev visit : List Turn
visit =
    disconnects (at_second 0).now
    ∷ connects (at_second 1) hello "x"
    ∷ disconnects (at_second 2).now
    ∷ []

visit_served :
    lifelines visit
    ≡ (server_loop idle (routed hello_again "z" ∷ routed hello "x" ∷ polled ∷ served ∷ [])).1
unfolding lifelines server_loop loop_step
visit_served = refl

drain-Exclusive_example : Exclusive (drain naturals (λ s. []) fresh visit)
drain-Exclusive_example =
    drain-Exclusive naturals (λ s. []) fresh
      (routed hello_again "z" ∷ routed hello "x" ∷ polled ∷ served ∷ []) visit fresh-Idle
      visit_served

abbrev config : ServerConfig
config = record {
  output_width = 800;
  output_height = 600;
  server_id = "a";
  capacity = 50;
  cluster_secret = "s";
}

fresh-IsPublished : IsPublished fresh
unfolding IsPublished run with_cluster count_by_state resumable_tokens
fresh-IsPublished = (refl, refl)

secret_set : config.cluster_secret ≢ ""
secret_set e = cc e

query_peer_for_token-drain_example :
    let d = drain naturals (λ s. []) fresh visit in
    query_peer_for_token (peer (λ v. "") config d.published) "drawn" "s"
    ≡ (if is_some (is_resumable d.session_registry "drawn") then some "a" else none)
query_peer_for_token-drain_example =
    query_peer_for_token-drain naturals (λ s. []) (λ v. "") config fresh visit "drawn"
      fresh-IsPublished fresh-Sound (unfold run with_cluster in omega arith) secret_set

abbrev silent : ServerConfig
silent = record config { cluster_secret = "" }

abbrev busy : Published
busy = record { active_sessions = 3; local_tokens = "drawn" ∷ [] }

classify_connection-outsider_example :
    classify_connection (λ v. "") silent fresh.published (server_info_request "")
    ≡ classify_connection (λ v. "") silent busy (server_info_request "")
classify_connection-outsider_example =
    classify_connection-outsider (λ v. "") silent fresh.published busy (server_info_request "")
      (λ e. refl)

abbrev typing : List KeyTurn
typing =
    key (record { keycode = 42; state = pressed; time = 0 })
    ∷ key (record { keycode = 30; state = pressed; time = 0 })
    ∷ []

release_all_keys-holds_after_example :
    let (kb, effects) = key_turns keys (typing ++ client_gone ∷ []) in
    (holds_after false effects 30 ≡ false) × (kb.modifiers ≡ [])
release_all_keys-holds_after_example = release_all_keys-holds_after keys typing 30 refl

abbrev stored : Zstd
stored = record { encode_all = some; decode_all = some }

abbrev pixel : Bytes
pixel = 90 ∷ 90 ∷ 90 ∷ 255 ∷ []

abbrev frames : List (Bytes × Option (List Rect))
frames = (pixel, none) ∷ (pixel, none) ∷ []

abbrev after_frames : FrameStream × List CompositorToNet
after_frames = elim (send_frames stored (pos 1) (pos 1) 4 fresh.stream frames) [
  | some r ↦ r
  | none ↦ (fresh.stream, [])
]

frames_sent : send_frames stored (pos 1) (pos 1) 4 fresh.stream frames ≡ some after_frames
unfolding send_frames send_frame_to_network same_list nat_eq encode_region slice checksum
frames_sent = refl

send_frames-most_deltas_example :
    (most_deltas 0 after_frames.1 ≤ keyframe_interval)
    × (after_frames.0.frames_since_keyframe ≤ keyframe_interval)
send_frames-most_deltas_example =
    send_frames-most_deltas stored (pos 1) (pos 1) 4 fresh.stream after_frames.0 frames
      after_frames.1 (omega arith) frames_sent

abbrev manager : ObjectId
manager = 7

abbrev moved : RenderCommand
moved = record { id = 1; position = (pos 10, pos 20); z_order = top; visible = true }

abbrev managed : WmProtocolState
managed = record start { wm_client = some manager; pending_render_commands = moved ∷ [] }

abbrev managed_state : WmState
managed_state = record { builtin = keys.builtin; protocol = some managed }

frame_commands_dropped_example : (frame_commands managed_state (1 ∷ [])).1 ≡ []
frame_commands_dropped_example =
    frame_commands_dropped managed_state (1 ∷ []) managed manager refl refl
