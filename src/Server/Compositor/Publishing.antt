-- ===== src/Server/Compositor/Publishing.antt =====
-- What the compositor publishes of its sessions for the probes of its peers.
use wayray.Base.{
  ℕ, ◌%◌, ◌^◌, String, ◌≡◌, ◌≢◌, refl, Bool, true, false, Option, none, some, List, [], ◌∷◌, arith,
  nat_eq, string_eq, if◌then◌else◌,
}
use wayray.Wire.Messages.Clipboard.{Mime}
use wayray.Session.Lifecycle.{SessionId, SessionToken, active}
use wayray.Session.Store.{Clock, SessionStore}
use wayray.Session.Registry.{
  SessionRegistry, SessionLocation, local, remote, unknown, locate, is_resumable, activate,
  create_session, after, note_remote_session, count_by_state, resumable_tokens,
}
use wayray.Server.Network.{set_active_sessions, set_local_tokens}
use wayray.Server.Cluster.{Float, discover_remote_home, pick_peer_for_new_session}
use wayray.Server.Compositor.{
  CalloopData, Moment, or_default, locate_session, ask_peers, note_home, home_addr,
  redirect_or_serve, resume_or_start, start_session, load_factor, bind_client, resume,
  connect_client, disconnect_client, publish_cluster_state,
}
use wayray.Server.Compositor.Turns.{
  Turn, connects, disconnects, controls, take_turn, drain, control_keeps,
}
use wayray.Base.{◌+◌, ◌<◌, length}
use wayray.Base.Dict.{is_some}
use wayray.Session.Registry.Started.{Sound}
use wayray.Session.Registry.Resumable.{contains-resumable_tokens}
use wayray.Server.Compositor.Moved.{take_turn-carried}
use wayray.Server.Compositor.Kept.{Kept, Carries-Kept}
use wayray.Server.Network.{ServerConfig, query_peer_for_token}
use wayray.Server.Network.Probes.{peer, query_peer_for_token-peer}

module _ {S : Type 0} where
  -- The published load and tokens are those of the registry.
  unfoldable pub IsPublished : CalloopData S → Type 0
  IsPublished d =
      (d.published.active_sessions ≡ count_by_state d.session_registry active % 2 ^ 32)
      × (d.published.local_tokens ≡ resumable_tokens d.session_registry)

  bind_client-IsPublished :
      (d : CalloopData S) (r : SessionRegistry S) (id : SessionId) (resumed : Bool)
      (token : SessionToken) (addr : String)
      → IsPublished (bind_client d r id resumed token addr).0
  unfolding bind_client publish_cluster_state set_active_sessions set_local_tokens IsPublished
  bind_client-IsPublished d r id resumed token addr = (refl, refl)

module _ {S : Type 0} ⦃st : SessionStore S⦄ where
  disconnect_client-IsPublished :
      (d : CalloopData S) (now : Clock) → IsPublished (disconnect_client d now).0
  unfolding disconnect_client publish_cluster_state set_active_sessions set_local_tokens IsPublished
  disconnect_client-IsPublished d now = (refl, refl)

  start_session-IsPublished :
      (d : CalloopData S) (m : Moment) (token : SessionToken) (addr : String)
      (peer : Option (String × String))
      → IsPublished d
      → IsPublished (start_session d m token addr peer).0
  start_session-IsPublished d m token addr (some (server_id, to)) h = h
  start_session-IsPublished d m token addr none h =
      let (r, id) = create_session d.session_registry token m.now in
      bind_client-IsPublished d (after r (activate r id m.now)) id false token addr

  resume_or_start-IsPublished :
      (f : Float) (d : CalloopData S) (m : Moment) (token : SessionToken) (addr : String)
      (found : Option SessionId)
      → IsPublished d
      → IsPublished (resume_or_start f d m token addr found).0
  resume_or_start-IsPublished f d m token addr none h =
      start_session-IsPublished d m token addr
        (pick_peer_for_new_session f m.probes d.cluster d.has_peer_rt
          (load_factor f d.session_registry))
        h
  resume_or_start-IsPublished f d m token addr (some id) h =
      bind_client-IsPublished d (resume d.session_registry id m.now) id true token addr

  redirect_or_serve-IsPublished :
      (f : Float) (d : CalloopData S) (m : Moment) (token : SessionToken) (addr : String)
      (home : Option (String × String))
      → IsPublished d
      → IsPublished (redirect_or_serve f d m token addr home).0
  redirect_or_serve-IsPublished f d m token addr (some (server_id, to)) h = h
  redirect_or_serve-IsPublished f d m token addr none h =
      resume_or_start-IsPublished f d m token addr (is_resumable d.session_registry token) h

  note_home-IsPublished :
      (d : CalloopData S) (token : SessionToken) (now : Clock) (home : Option String)
      → IsPublished d
      → IsPublished (note_home d token now home).0
  unfolding note_remote_session IsPublished count_by_state resumable_tokens
  note_home-IsPublished d token now none h = h
  note_home-IsPublished d token now (some server_id) h = h

  ask_peers-IsPublished :
      (d : CalloopData S) (m : Moment) (token : SessionToken) (location : SessionLocation)
      → IsPublished d
      → IsPublished (ask_peers d m token location).0
  ask_peers-IsPublished d m token (local id) h = h
  ask_peers-IsPublished d m token (remote server_id) h = h
  ask_peers-IsPublished d m token unknown h =
      note_home-IsPublished d token m.now
        (discover_remote_home m.probes d.cluster d.has_peer_rt token) h

  take_turn-IsPublished :
      (f : Float) (chars : String → Mime) (d : CalloopData S) (turn : Turn)
      → IsPublished d
      → IsPublished (take_turn f chars d turn)
  unfolding take_turn connect_client disconnect_client locate_session IsPublished
  take_turn-IsPublished f chars d (connects m hello addr) h =
      let token = or_default hello.token m.random_token in
      let location = locate d.session_registry token m.now in
      let (d', found) = ask_peers d m token location in
      redirect_or_serve-IsPublished f d' m token addr (home_addr d' found)
        (ask_peers-IsPublished d m token location h)
  take_turn-IsPublished f chars d (disconnects now) h = disconnect_client-IsPublished d now
  take_turn-IsPublished f chars d (controls msg) h =
      let (r, a, p) = control_keeps chars d msg in rw (r, p) h

  drain-IsPublished :
      (f : Float) (chars : String → Mime) (d : CalloopData S) (turns : List Turn)
      → IsPublished d
      → IsPublished (drain f chars d turns)
  unfolding drain
  drain-IsPublished f chars d [] h = h
  drain-IsPublished f chars d (turn ∷ turns) h =
      drain-IsPublished f chars (take_turn f chars d turn) turns
        (take_turn-IsPublished f chars d turn h)

  drain-Kept :
      (f : Float) (chars : String → Mime) (d : CalloopData S) (n : ℕ) (turns : List Turn)
      → n + length turns < 2 ^ 64
      → Kept n d.session_registry
      → Sound (drain f chars d turns).session_registry
  unfolding drain
  drain-Kept f chars d n [] room k = k.sound
  drain-Kept f chars d n (turn ∷ turns) room k =
      drain-Kept f chars (take_turn f chars d turn) (n + 1) turns (omega (arith, room)) (
        take_turn-carried (Kept n) (Kept (n + 1)) (Carries-Kept n (omega (arith, room))) f chars d
          turn k)

  -- After any run of connections, disconnections and control messages, a peer that asks this server
  -- for a token, with the secret that the two share, learns this server's id exactly if the token
  -- can be resumed here, as `is_resumable` decides it for a client. At first what is published is
  -- right, and every session of the registry has been started and is what its token finds; ids are
  -- left for the run, and the secret is not empty. The periodic clean-up, which publishes nothing, is
  -- not part of the run.
  pub query_peer_for_token-drain :
      (f : Float) (chars : String → Mime) (mismatch_reason : ℕ → String) (config : ServerConfig)
      (d : CalloopData S) (turns : List Turn) (token : String)
      → IsPublished d
      → Sound d.session_registry
      → d.session_registry.next_id + length turns < 2 ^ 64
      → config.cluster_secret ≢ ""
      → let d' = drain f chars d turns in
        query_peer_for_token (peer mismatch_reason config d'.published) token config.cluster_secret
        ≡ (if is_some (is_resumable d'.session_registry token) then some config.server_id else none)
  unfolding IsPublished
  query_peer_for_token-drain f chars mismatch_reason config d turns token h v room secret =
      let d' = drain f chars d turns in
      let (load, tokens) = drain-IsPublished f chars d turns h in
      let n = d.session_registry.next_id in
      let sound = drain-Kept f chars d n turns room (record { sound = v; few = omega arith }) in
      ground (
        arith,
        query_peer_for_token-peer mismatch_reason config d'.published token config.cluster_secret,
        tokens,
        contains-resumable_tokens d'.session_registry token sound,
      )
