-- ===== src/Server/Compositor/Exclusive.antt =====
-- Which sessions are active over a run of the compositor.
use wayray.Base.{
  String, ◌≡◌, refl, sym, subst, Bool, true, false, Option, none, some, List, [], ◌∷◌, nat_eq,
  string_eq,
}
use wayray.Wire.Messages.{ClientHello, ControlMessage}
use wayray.Wire.Messages.Clipboard.{Mime}
use wayray.Session.Lifecycle.{SessionId, SessionToken}
use wayray.Session.Store.{Clock, SessionStore}
use wayray.Session.Registry.{
  SessionLocation, local, remote, unknown, locate, is_resumable, note_remote_session,
}
use wayray.Server.Network.{server_loop, idle, LoopEvent}
use wayray.Server.Network.Serving.{OneServed, server_loop-OneServed}
use wayray.Server.Cluster.{Float, discover_remote_home, pick_peer_for_new_session}
use wayray.Server.Compositor.{
  CalloopData, Moment, or_default, locate_session, ask_peers, note_home, home_addr,
  redirect_or_serve, resume_or_start, start_session, load_factor, bind_client, connect_client,
  disconnect_client, publish_cluster_state, control,
}
use wayray.Server.Compositor.Turns.{
  Turn, connects, disconnects, controls, lifelines, take_turn, drain, control_keeps,
}
use wayray.Server.Compositor.OnlyActive.{
  OnlyActive, suspend_active-OnlyActive, create_session-OnlyActive, resume-OnlyActive,
}

module _ {S : Type 0} ⦃st : SessionStore S⦄ where
  -- No client is served, and no session is active.
  unfoldable pub Idle : CalloopData S → Type 0
  Idle d = OnlyActive d.session_registry none × (d.active_session ≡ none)

  -- No session is active but the compositor's active session.
  unfoldable pub Exclusive : CalloopData S → Type 0
  Exclusive d = OnlyActive d.session_registry d.active_session

  Idle-Exclusive : (d : CalloopData S) → Idle d → Exclusive d
  unfolding Idle Exclusive
  Idle-Exclusive d (h, e) = rw e h

  start_session-Exclusive :
      (d : CalloopData S) (m : Moment) (token : SessionToken) (addr : String)
      (peer : Option (String × String))
      → Idle d
      → Exclusive (start_session d m token addr peer).0
  unfolding bind_client publish_cluster_state Idle Exclusive
  start_session-Exclusive d m token addr (some (server_id, to)) h = Idle-Exclusive d h
  start_session-Exclusive d m token addr none h =
      create_session-OnlyActive d.session_registry token m.now h.0

  resume_or_start-Exclusive :
      (f : Float) (d : CalloopData S) (m : Moment) (token : SessionToken) (addr : String)
      (found : Option SessionId)
      → Idle d
      → Exclusive (resume_or_start f d m token addr found).0
  unfolding bind_client publish_cluster_state Idle Exclusive
  resume_or_start-Exclusive f d m token addr none h =
      start_session-Exclusive d m token addr
        (pick_peer_for_new_session f m.probes d.cluster d.has_peer_rt
          (load_factor f d.session_registry))
        h
  resume_or_start-Exclusive f d m token addr (some id) h =
      resume-OnlyActive d.session_registry id m.now h.0

  redirect_or_serve-Exclusive :
      (f : Float) (d : CalloopData S) (m : Moment) (token : SessionToken) (addr : String)
      (home : Option (String × String))
      → Idle d
      → Exclusive (redirect_or_serve f d m token addr home).0
  redirect_or_serve-Exclusive f d m token addr (some (server_id, to)) h = Idle-Exclusive d h
  redirect_or_serve-Exclusive f d m token addr none h =
      resume_or_start-Exclusive f d m token addr (is_resumable d.session_registry token) h

  note_home-Idle :
      (d : CalloopData S) (token : SessionToken) (now : Clock) (home : Option String)
      → Idle d
      → Idle (note_home d token now home).0
  unfolding note_remote_session Idle
  note_home-Idle d token now none h = h
  note_home-Idle d token now (some server_id) h = h

  ask_peers-Idle :
      (d : CalloopData S) (m : Moment) (token : SessionToken) (location : SessionLocation)
      → Idle d
      → Idle (ask_peers d m token location).0
  ask_peers-Idle d m token (local id) h = h
  ask_peers-Idle d m token (remote server_id) h = h
  ask_peers-Idle d m token unknown h =
      note_home-Idle d token m.now (discover_remote_home m.probes d.cluster d.has_peer_rt token) h

  connect_client-Exclusive :
      (f : Float) (d : CalloopData S) (m : Moment) (hello : ClientHello) (addr : String)
      → Idle d
      → Exclusive (connect_client f d m hello addr).0
  unfolding connect_client locate_session
  connect_client-Exclusive f d m hello addr h =
      let token = or_default hello.token m.random_token in
      let location = locate d.session_registry token m.now in
      let (d', found) = ask_peers d m token location in
      redirect_or_serve-Exclusive f d' m token addr (home_addr d' found)
        (ask_peers-Idle d m token location h)

  disconnect_client-Idle :
      (d : CalloopData S) (now : Clock) → Exclusive d → Idle (disconnect_client d now).0
  unfolding disconnect_client publish_cluster_state Idle Exclusive
  disconnect_client-Idle d now h =
      (suspend_active-OnlyActive d.session_registry d.active_session now h, refl)

  control-Exclusive :
      (chars : String → Mime) (d : CalloopData S) (msg : ControlMessage)
      → Exclusive d
      → Exclusive (control chars d msg)
  unfolding Exclusive
  control-Exclusive chars d msg h = let (r, a, p) = control_keeps chars d msg in rw (r, a) h

  control-Idle :
      (chars : String → Mime) (d : CalloopData S) (msg : ControlMessage)
      → Idle d
      → Idle (control chars d msg)
  unfolding Idle
  control-Idle chars d msg h = let (r, a, p) = control_keeps chars d msg in rw (r, a) h

  -- Idle between two clients, exclusive while one is connected.
  abbrev pub IsExclusive : Bool → CalloopData S → Type 0
  IsExclusive true d = Exclusive d
  IsExclusive false d = Idle d

  drain-IsExclusive :
      (f : Float) (chars : String → Mime) (d : CalloopData S) (connected : Bool) (turns : List Turn)
      → OneServed connected (lifelines turns)
      → IsExclusive connected d
      → Exclusive (drain f chars d turns)
  unfolding drain take_turn lifelines OneServed
  drain-IsExclusive f chars d true [] a h = h
  drain-IsExclusive f chars d false [] a h = Idle-Exclusive d h
  drain-IsExclusive f chars d false (connects m hello addr ∷ turns) a h =
      drain-IsExclusive f chars (connect_client f d m hello addr).0 true turns a
        (connect_client-Exclusive f d m hello addr h)
  drain-IsExclusive f chars d true (connects m hello addr ∷ turns) a h = absurd a
  drain-IsExclusive f chars d true (disconnects now ∷ turns) a h =
      drain-IsExclusive f chars (disconnect_client d now).0 false turns a
        (disconnect_client-Idle d now h)
  drain-IsExclusive f chars d false (disconnects now ∷ turns) a h =
      drain-IsExclusive f chars (disconnect_client d now).0 false turns a
        (disconnect_client-Idle d now (Idle-Exclusive d h))
  drain-IsExclusive f chars d true (controls msg ∷ turns) a h =
      drain-IsExclusive f chars (control chars d msg) true turns a (control-Exclusive chars d msg h)
  drain-IsExclusive f chars d false (controls msg ∷ turns) a h =
      drain-IsExclusive f chars (control chars d msg) false turns a (control-Idle chars d msg h)

  -- Whatever connections the network thread serves, and however they arrive, end and preempt one
  -- another, before they are polled for the first time or after, at most one session is active, the one that the compositor holds as its active session.
  -- At first no client is served and no session is active.
  pub drain-Exclusive :
      (f : Float) (chars : String → Mime) (d : CalloopData S) (events : List LoopEvent)
      (turns : List Turn)
      → Idle d
      → lifelines turns ≡ (server_loop idle events).1
      → Exclusive (drain f chars d turns)
  drain-Exclusive f chars d events turns h e =
      drain-IsExclusive f chars d false turns
        (subst (OneServed false) (sym e) (server_loop-OneServed idle events)) h
