-- ===== src/Server/Compositor/Moved.antt =====
-- What a turn of the compositor does to the registry: a principle for its predicates.
use wayray.Base.{String, ◌≡◌, refl, Option, none, some, nat_eq, string_eq}
use wayray.Wire.Messages.{ClientHello}
use wayray.Wire.Messages.Clipboard.{Mime}
use wayray.Session.Lifecycle.{
  SessionId, SessionToken, SessionState, creating, active, suspended, destroyed,
}
use wayray.Session.Store.{Clock, SessionStore}
use wayray.Session.Registry.{
  SessionRegistry, SessionLocation, local, remote, unknown, locate, is_resumable, activate, suspend,
  after, note_remote_session, get,
}
use wayray.Session.Registry.Started.{started_with}
use wayray.Server.Cluster.{Float, discover_remote_home, pick_peer_for_new_session}
use wayray.Server.Compositor.{
  CalloopData, Moment, or_default, locate_session, ask_peers, note_home, home_addr,
  redirect_or_serve, resume_or_start, start_session, load_factor, bind_client, resume, resume_from,
  state_of, connect_client, disconnect_client, suspend_active, publish_cluster_state,
}
use wayray.Server.Compositor.Turns.{Turn, connects, disconnects, controls, take_turn, control_keeps}

module _ {S : Type 0} ⦃st : SessionStore S⦄ where
  -- Each of the changes that a turn makes takes a registry from `P` to `Q`.
  pub record Carries (P Q : SessionRegistry S → Type 0) : Type 0 where
    pub stays : (r : SessionRegistry S) → P r → Q r
    pub notes :
        (r : SessionRegistry S) (token : SessionToken) (server_id : String) (now : Clock)
        → P r
        → P (note_remote_session r token server_id now)
    pub activates :
        (r : SessionRegistry S) (id : SessionId) (now : Clock)
        → P r
        → Q (after r (activate r id now))
    pub suspends :
        (r : SessionRegistry S) (id : SessionId) (now : Clock)
        → P r
        → Q (after r (suspend r id now))
    pub starts :
        (r : SessionRegistry S) (token : SessionToken) (now : Clock)
        → is_resumable r token ≡ none
        → P r
        → Q (started_with r token now)

  module _ (P Q : SessionRegistry S → Type 0) (c : Carries P Q) where
    resume_from-carried :
        (r : SessionRegistry S) (id : SessionId) (now : Clock) (state : SessionState)
        → P r
        → Q (resume_from r id now state)
    resume_from-carried r id now suspended h = c.activates r id now h
    resume_from-carried r id now active h = c.stays r h
    resume_from-carried r id now creating h = c.stays r h
    resume_from-carried r id now destroyed h = c.stays r h

    start_session-carried :
        (d : CalloopData S) (m : Moment) (token : SessionToken) (addr : String)
        (peer : Option (String × String))
        → is_resumable d.session_registry token ≡ none
        → P d.session_registry
        → Q (start_session d m token addr peer).0.session_registry
    unfolding bind_client publish_cluster_state
    start_session-carried d m token addr (some (server_id, to)) e h = c.stays d.session_registry h
    start_session-carried d m token addr none e h = c.starts d.session_registry token m.now e h

    resume_or_start-carried :
        (f : Float) (d : CalloopData S) (m : Moment) (token : SessionToken) (addr : String)
        (found : Option SessionId)
        → is_resumable d.session_registry token ≡ found
        → P d.session_registry
        → Q (resume_or_start f d m token addr found).0.session_registry
    unfolding bind_client publish_cluster_state resume
    resume_or_start-carried f d m token addr none e h =
        start_session-carried d m token addr
          (pick_peer_for_new_session f m.probes d.cluster d.has_peer_rt
            (load_factor f d.session_registry))
          e h
    resume_or_start-carried f d m token addr (some id) e h =
        resume_from-carried d.session_registry id m.now (state_of (get d.session_registry id)) h

    redirect_or_serve-carried :
        (f : Float) (d : CalloopData S) (m : Moment) (token : SessionToken) (addr : String)
        (home : Option (String × String))
        → P d.session_registry
        → Q (redirect_or_serve f d m token addr home).0.session_registry
    redirect_or_serve-carried f d m token addr (some (server_id, to)) h =
        c.stays d.session_registry h
    redirect_or_serve-carried f d m token addr none h =
        resume_or_start-carried f d m token addr (is_resumable d.session_registry token) refl h

    note_home-carried :
        (d : CalloopData S) (token : SessionToken) (now : Clock) (home : Option String)
        → P d.session_registry
        → P (note_home d token now home).0.session_registry
    note_home-carried d token now none h = h
    note_home-carried d token now (some server_id) h =
        c.notes d.session_registry token server_id now h

    ask_peers-carried :
        (d : CalloopData S) (m : Moment) (token : SessionToken) (location : SessionLocation)
        → P d.session_registry
        → P (ask_peers d m token location).0.session_registry
    ask_peers-carried d m token (local id) h = h
    ask_peers-carried d m token (remote server_id) h = h
    ask_peers-carried d m token unknown h =
        note_home-carried d token m.now
          (discover_remote_home m.probes d.cluster d.has_peer_rt token) h

    suspend_active-carried :
        (r : SessionRegistry S) (id : Option SessionId) (now : Clock)
        → P r
        → Q (suspend_active r id now)
    suspend_active-carried r none now h = c.stays r h
    suspend_active-carried r (some id) now h = c.suspends r id now h

    pub connect_client-carried :
        (f : Float) (d : CalloopData S) (m : Moment) (hello : ClientHello) (addr : String)
        → P d.session_registry
        → Q (connect_client f d m hello addr).0.session_registry
    unfolding connect_client locate_session
    connect_client-carried f d m hello addr h =
        let token = or_default hello.token m.random_token in
        let location = locate d.session_registry token m.now in
        let (d', found) = ask_peers d m token location in
        redirect_or_serve-carried f d' m token addr (home_addr d' found)
          (ask_peers-carried d m token location h)

    pub take_turn-carried :
        (f : Float) (chars : String → Mime) (d : CalloopData S) (turn : Turn)
        → P d.session_registry
        → Q (take_turn f chars d turn).session_registry
    unfolding take_turn disconnect_client publish_cluster_state
    take_turn-carried f chars d (connects m hello addr) h =
        connect_client-carried f d m hello addr h
    take_turn-carried f chars d (disconnects now) h =
        suspend_active-carried d.session_registry d.active_session now h
    take_turn-carried f chars d (controls msg) h =
        rw (control_keeps chars d msg).0 (c.stays d.session_registry h)
