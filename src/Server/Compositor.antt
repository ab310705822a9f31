-- ===== src/Server/Compositor.antt =====
-- crates/wrsrvd/src/backend/headless.rs: what the compositor does with the events of the network
-- thread, and its periodic clean-up. Logging is left out, as is the input of the pointer.
pub mod Moved
pub mod Kept
pub mod Bound
pub mod HotDesk
pub mod Turns
pub mod OnlyActive
pub mod Exclusive
pub mod Publishing
use wayray.Base.{
  ℕ, ◌+◌, ◌%◌, ◌^◌, ◌*◌, String, max, Bool, true, false, Option, none, some, List, [], ◌∷◌, ◌++◌,
  map, string_eq, if◌then◌else◌,
}
use wayray.Wire.Codec.{Bytes}
use wayray.Wire.Messages.{
  ClientHello, ClipboardData, ControlMessage, request_keyframe, clipboard_data, KeyboardEvent,
}
use wayray.Wire.Messages.Clipboard.{Mime, cap_clipboard_payload}
use wayray.Session.Lifecycle.{
  SessionId, SessionToken, SessionState, creating, active, suspended, destroyed, Session, ok, err,
}
use wayray.Session.Store.{Clock, SessionStore}
use wayray.Session.Registry.{
  SessionRegistry, SessionLocation, local, remote, unknown, locate, note_remote_session, get,
  is_resumable, activate, suspend, create_session, after, resumable_tokens, count_by_state,
  cleanup_expired, purge_destroyed, prune_remote_sessions,
}
use wayray.Server.Frames.{FrameStream}
use wayray.Server.Network.{
  ConnectDecision, bind, redirect, Published, set_active_sessions, set_local_tokens,
}
use wayray.Server.Keyboard.{Keyboard, Effect, inject_key, release_all_keys}
use wayray.Server.Cluster.{
  ClusterConfig, Probes, Float, addr_of, discover_remote_home, pick_peer_for_new_session,
}

-- the fields of `CalloopData` for clients and sessions; those of the frame stream are `stream`,
-- what the network thread reads of them is `published`
pub record CalloopData (S : Type 0) : Type 0 where
  pub stream : FrameStream
  pub session_registry : SessionRegistry S
  pub active_session : Option SessionId
  pub cluster : ClusterConfig
  pub has_peer_rt : Bool
  pub connected_client_addr : Option String
  pub published : Published
  pub keyboard : Keyboard
  pub remote_clipboard : Option ClipboardData

-- what is told to the session launcher
pub data LauncherEvent : Type 0 where
  session_created : SessionToken → LauncherEvent
  session_destroyed : SessionToken → SessionId → LauncherEvent

-- `vec.fill(0)`
unfoldable pub fill_zero : Bytes → Bytes
fill_zero = map λ _. 0

-- what lies outside the compositor while it answers one client: the token that
-- `generate_random_token` draws, the probes, the clocks
pub record Moment : Type 0 where
  pub random_token : String
  pub probes : Probes
  pub now : Clock

abbrev pub or_default : Option String → String → String
or_default none s = s
or_default (some t) s = t

-- `map(|s| s.state).unwrap_or(SessionState::Destroyed)`
abbrev pub state_of : Option Session → SessionState
state_of none = destroyed
state_of (some s) = s.state

abbrev pub is_empty : List SessionId → Bool
is_empty [] = true
is_empty (id ∷ ids) = false

module _ {S : Type 0} where
  -- `publish_cluster_state`
  unfoldable pub publish_cluster_state : CalloopData S → CalloopData S
  unfolding set_active_sessions set_local_tokens count_by_state resumable_tokens
  publish_cluster_state d = record d {
    published =
        set_local_tokens
          (set_active_sessions d.published (count_by_state d.session_registry active % 2 ^ 32))
          (resumable_tokens d.session_registry);
  }

  -- `load_factor`
  abbrev pub load_factor : (f : Float) → SessionRegistry S → f.F
  load_factor f r = f.div (f.of_u32 (count_by_state r active)) (f.of_u32 (max r.capacity 1))

  -- the peers' answer, noted in the registry
  abbrev pub note_home :
      CalloopData S → SessionToken → Clock → Option String → CalloopData S × SessionLocation
  note_home d token now none = (d, unknown)
  note_home d token now (some server_id) = (
    record d { session_registry = note_remote_session d.session_registry token server_id now },
    remote server_id,
  )

  abbrev pub ask_peers :
      CalloopData S → Moment → SessionToken → SessionLocation → CalloopData S × SessionLocation
  ask_peers d m token (local id) = (d, local id)
  ask_peers d m token (remote server_id) = (d, remote server_id)
  ask_peers d m token unknown =
      note_home d token m.now (discover_remote_home m.probes d.cluster d.has_peer_rt token)

  -- where the session of a token is, with the peers asked if the registry does not know
  unfoldable pub locate_session :
      CalloopData S → Moment → SessionToken → CalloopData S × SessionLocation
  unfolding locate note_remote_session discover_remote_home
  locate_session d m token = ask_peers d m token (locate d.session_registry token m.now)

  -- the address of the home server, where the client is to be redirected
  unfoldable pub home_addr : CalloopData S → SessionLocation → Option (String × String)
  unfolding addr_of
  home_addr d (remote server_id) = elim (addr_of d.cluster server_id) [
    | none ↦ none
    | some addr ↦ some (server_id, addr)
  ]
  home_addr d (local id) = none
  home_addr d unknown = none

  -- the client is bound to a session
  unfoldable pub bind_client :
      CalloopData S
      → SessionRegistry S
      → SessionId
      → Bool
      → SessionToken
      → String
      → CalloopData S × ConnectDecision
  unfolding publish_cluster_state fill_zero
  bind_client d r id resumed token remote_addr = (
    publish_cluster_state (record d {
      session_registry = r;
      active_session = some id;
      connected_client_addr = some remote_addr;
      stream = record d.stream {
        client_connected = true;
        previous_frame = fill_zero d.stream.previous_frame;
        force_keyframe = true;
      };
    }),
    bind (record { session_id = id; resumed = resumed; token = token }),
  )

module _ {S : Type 0} ⦃st : SessionStore S⦄ where
  abbrev pub resume_from : SessionRegistry S → SessionId → Clock → SessionState → SessionRegistry S
  resume_from r id now suspended = after r (activate r id now)
  resume_from r id now active = r
  resume_from r id now creating = r
  resume_from r id now destroyed = r

  -- a session that can be resumed is activated if it is suspended
  unfoldable pub resume : SessionRegistry S → SessionId → Clock → SessionRegistry S
  unfolding get activate
  resume r id now = resume_from r id now (state_of (get r id))

  -- a new session, on a peer if one is picked
  abbrev pub start_session :
      CalloopData S
      → Moment
      → SessionToken
      → String
      → Option (String × String)
      → CalloopData S × ConnectDecision × List LauncherEvent
  start_session d m token remote_addr (some (server_id, addr)) = (d, redirect server_id addr, [])
  start_session d m token remote_addr none =
      let (r, id) = create_session d.session_registry token m.now in
      let (d', decision) =
        bind_client d (after r (activate r id m.now)) id false token remote_addr in
      (d', decision, session_created token ∷ [])

  -- the session that can be resumed, if there is one, or a new one
  abbrev pub resume_or_start :
      (f : Float)
      → CalloopData S
      → Moment
      → SessionToken
      → String
      → Option SessionId
      → CalloopData S × ConnectDecision × List LauncherEvent
  resume_or_start f d m token remote_addr (some id) =
      let (d', decision) =
        bind_client d (resume d.session_registry id m.now) id true token remote_addr in
      (d', decision, [])
  resume_or_start f d m token remote_addr none = start_session d m token remote_addr (
      pick_peer_for_new_session f m.probes d.cluster d.has_peer_rt
        (load_factor f d.session_registry))

  -- the client is redirected home, or served here
  abbrev pub redirect_or_serve :
      (f : Float)
      → CalloopData S
      → Moment
      → SessionToken
      → String
      → Option (String × String)
      → CalloopData S × ConnectDecision × List LauncherEvent
  redirect_or_serve f d m token remote_addr (some (server_id, addr)) =
      (d, redirect server_id addr, [])
  redirect_or_serve f d m token remote_addr none =
      resume_or_start f d m token remote_addr (is_resumable d.session_registry token)

  -- the `ClientConnected` arm of `drain_network_events`
  unfoldable pub connect_client :
      (f : Float)
      → CalloopData S
      → Moment
      → ClientHello
      → String
      → CalloopData S × ConnectDecision × List LauncherEvent
  unfolding locate_session home_addr is_resumable resume pick_peer_for_new_session create_session
      activate bind_client
  connect_client f d m hello remote_addr =
      let token = or_default hello.token m.random_token in
      let (d', location) = locate_session d m token in
      redirect_or_serve f d' m token remote_addr (home_addr d' location)

  abbrev pub suspend_active : SessionRegistry S → Option SessionId → Clock → SessionRegistry S
  suspend_active r none now = r
  suspend_active r (some id) now = after r (suspend r id now)

  -- the `ClientDisconnected` arm
  unfoldable pub disconnect_client : CalloopData S → Clock → CalloopData S × List Effect
  unfolding suspend publish_cluster_state release_all_keys
  disconnect_client d now =
      let (kb, effects) = release_all_keys d.keyboard in
      (
        publish_cluster_state (record d {
          keyboard = kb;
          session_registry = suspend_active d.session_registry d.active_session now;
          active_session = none;
          connected_client_addr = none;
          stream = record d.stream { client_connected = false };
        }),
        effects,
      )

  -- the `Control` arm; `chars` gives the characters of a text
  unfoldable pub control : (String → Mime) → CalloopData S → ControlMessage → CalloopData S
  unfolding cap_clipboard_payload
  control chars d request_keyframe = record d { stream = record d.stream { force_keyframe = true } }
  control chars d (clipboard_data clip) = record d {
    remote_clipboard =
        some
          (record clip { payload = (cap_clipboard_payload clip.payload (chars clip.mime_type)).0 });
  }
  control chars d other = d

  -- the sessions that are gone, for the launcher
  unfoldable pub destroyed_events : SessionRegistry S → List SessionId → List LauncherEvent
  unfolding get
  destroyed_events r [] = []
  destroyed_events r (id ∷ ids) =
      let rest = destroyed_events r ids in
      elim (get r id) [ none ↦ rest | some s ↦ session_destroyed s.token id ∷ rest ]

  -- the periodic clean-up of the main loop of `run`
  unfoldable pub clean_up : CalloopData S → Clock → CalloopData S × List LauncherEvent
  unfolding cleanup_expired purge_destroyed prune_remote_sessions destroyed_events
  clean_up d now =
      let (r, expired) = cleanup_expired d.session_registry now in
      let r' = (if is_empty expired then r else purge_destroyed r) in
      (record d { session_registry = prune_remote_sessions r' now }, destroyed_events r expired)
