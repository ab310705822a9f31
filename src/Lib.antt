-- ===== src/Lib.antt =====
-- WayRay: a thin-client Wayland compositor (crates/wrsrvd), its wire protocol
-- (crates/wayray-protocol), its client and its tools.
--
-- The server keeps the sessions of its users: a client presents a token, and the registry finds the
-- session bound to it, suspends it when the client leaves, and destroys it when it has been suspended
-- for too long. Every change of state is written to a durable store, from which a restarted server
-- restores the sessions. Inside a session, windows are placed by the built-in floating window manager
-- or by an external one that speaks a protocol of its own, such as crates/wr-wm-tiling; workspaces
-- and tags decide which window is visible on which output. Each rendered frame goes as compressed
-- regions through a channel to the network thread, which relays it behind a length prefix to the one
-- client that it serves; the client applies the regions, compares checksums and sends its keys back.
-- A server that does not have the session of a token asks its peers and redirects the client.
--
-- Files, and the code that they model:
--   Base: lists, maps, integers and tests that the parts share.
--   Session/Lifecycle: crates/wrsrvd/src/session/types.rs (Session, can_transition_to, transition,
--     is_suspend_expired). Its Diagram is the lifecycle as a step relation.
--   Session/Store: crates/wrsrvd/src/session/persistence.rs (the SessionStore trait, rows, record_of).
--   Session/Registry: crates/wrsrvd/src/session/registry.rs, one function per method; Restore models
--     restore_persisted and enable_persistence, Counts state_counts. The other children are proofs:
--     Invariant, History and Startup over all sequences of calls, Destroy, Durability and Restart for
--     the store, Indexed, Tokens and Resumable for the index of tokens, Moves, Started and Cleaning
--     for the calls that the compositor makes.
--   Wm/Types, Wm/Restack, Wm/Workspace: crates/wrsrvd/src/wm/types.rs (restack, WorkspaceState).
--   Wm/Floating: crates/wrsrvd/src/wm/floating.rs (BuiltinFloatingWm).
--   Wm/Protocol: crates/wrsrvd/src/wm/protocol.rs (WmProtocolState; its request
--     handlers are in Requests), and BorderSpec of types.rs.
--   Wire/Codec, Wire/Encoding: crates/wayray-protocol/src/codec.rs and encoding.rs.
--   Wire/Messages: crates/wayray-protocol/src/messages.rs; Clipboard has its clipboard helpers.
--   Wire/Pins: crates/wayray-protocol/src/tls.rs (fingerprints, verify_or_remember, check_pin).
--   Server/Frames, Server/Render: crates/wrsrvd/src/backend/headless.rs (send_frame_to_network, and
--     the commands that render_headless_frame takes).
--   Server/Compositor: the same file's drain_network_events, publish_cluster_state and clean-up in
--     run. Turns composes it with Server/Network; the other children are proofs.
--   Server/Cluster: crates/wayray-protocol/src/cluster.rs (the lookups), and of headless.rs the
--     probes of peers and the placement of sessions.
--   Server/Network, Server/Relay: crates/wrsrvd/src/network.rs (classify_connection, the handshake of
--     serve_client, server_loop, the queries of peers; check_compositor_commands).
--   Server/Keyboard: crates/wrsrvd/src/state.rs (ModifierTracker, the keyboard's arm of
--     inject_network_input, release_all_keys).
--   Client/Frames, Client/Redirects: crates/wrclient/src/main.rs (the frame's arm of
--     run_session_loop, connect_following_redirects). Client/Input: crates/wrclient/src/input.rs, and
--     the keyboard's arms of window_event.
--   Stream: the compositor, the network thread and the client as one system, with a step relation
--     that interleaves them. A read or a write that is cancelled part-way (the client's timeout, the
--     select! of serve_client) is a step after which the display stream may hold any frames. Queue,
--     Frame, Sync and CatchUp are proofs.
--   Tiling: the layout of crates/wr-wm-tiling/src/main.rs (calculate_layout, bsp_layout); Split and
--     Apart are proofs.
-- Modules named Tests run the theorems at concrete inputs.
--
-- A method that changes a struct takes the state and returns the new one; an error is a value, and a
-- caller that logs an error goes on with the old state. A method that reads a clock takes the reading
-- as an argument. A `u64` or `u32` counter wraps as in a release build; an `i32` is an integer, since
-- sizes and positions of screens are far from its limits. A HashMap is an association list, so its
-- order of iteration is one of the possible ones. An index out of range, a panic in the source, is
-- `none`. The only fuel is that of the tiling layout, one unit for each window: every call splits its
-- windows into two smaller parts.
--
-- Parameters, with what the code relies on as hypotheses: the durable store (IsDurable, IsLoadable:
-- rows are inserted, updated and removed in call order, and loaded once for each id), postcard
-- (RoundTrips: a serialised value deserialises to itself), zstd (Lossless, and Total: it compresses
-- every input), the floating-point numbers of the load factors (Float), what the peers answer
-- (Probes) and what the connection attempts of the client come to (Network), char::is_whitespace and
-- the characters of a string. A QUIC stream delivers what is written in order and without
-- loss. The stride of a frame
-- is four bytes for each pixel of its width, and what the damage tracker reports holds all that has
-- changed since the last frame.
--
-- Not modelled: the SQLite store behind the trait, the tasks and handshakes of QUIC and TLS, the
-- files of certificates and pins, the launcher and the admin socket; of the client the windowing, the
-- audio, the pointer and its own side of the handshake (network.rs); of the compositor the calls of
-- smithay, the winit backend, the pointer, the clipboard pipes and the placement of the windows that
-- the render commands lead to; color_f32, which computes floats. The projects under vendor are copies
-- of others.
pub mod Base
pub mod Client
pub mod Server
pub mod Session
pub mod Stream
pub mod Tiling
pub mod Wire
pub mod Wm
