-- ===== src/Server/Compositor/HotDesk.antt =====
-- Hot-desking: the session of a client waits for the next client with its token.
use wayray.Base.{
  ℕ, ◌+◌, ◌<◌, ◌^◌, length, [], ◌∷◌, ◌⊎◌, inl, String, ◌≡◌, refl, inr, true, Option, none, some,
  List, arith, nat_eq, string_eq,
}
use wayray.Wire.Messages.{ClientHello}
use wayray.Session.Lifecycle.{SessionId, SessionToken, active, suspended}
use wayray.Session.Store.{Clock, SessionStore}
use wayray.Session.Registry.{SessionLocation, local, remote, unknown, locate, is_resumable}
use wayray.Session.Registry.{get, SessionRegistry}
use wayray.Session.Registry.Invariant.{Inv}
use wayray.Session.Registry.Started.{Sound, Lives-is_resumable}
use wayray.Session.Registry.Cleaning.{HasTime}
use wayray.Wire.Messages.Clipboard.{Mime}
use wayray.Server.Compositor.{clean_up}
use wayray.Server.Compositor.Turns.{Turn, take_turn}
use wayray.Server.Compositor.Moved.{connect_client-carried, take_turn-carried}
use wayray.Server.Compositor.Kept.{Kept, Holds, Carries-Kept, Carries-Holds, clean_up-Holds}
use wayray.Server.Network.{ConnectDecision, bind, redirect, SessionBinding}
use wayray.Server.Cluster.{Float, discover_remote_home, pick_peer_for_new_session}
use wayray.Server.Compositor.{
  CalloopData, Moment, LauncherEvent, or_default, locate_session, ask_peers, note_home, home_addr,
  redirect_or_serve, resume_or_start, start_session, load_factor, bind_client, connect_client,
  publish_cluster_state,
}
use wayray.Server.Compositor.Bound.{
  Leads, note_remote_session-Inv, is_resumable-Leads, locate-Leads, Leads-is_resumable,
  resume-Leads, create_session-Leads,
}

module _ {S : Type 0} ⦃st : SessionStore S⦄ where
  -- A client that is bound has the active session, to which its token leads.
  abbrev pub BoundTo : SessionToken → CalloopData S × ConnectDecision × List LauncherEvent → Type 0
  BoundTo token (d, redirect server_id addr, events) = Unit
  BoundTo token (d, bind b, events) =
      (b.token ≡ token)
      × (d.active_session ≡ some b.session_id)
      × Leads d.session_registry token b.session_id active

  start_session-BoundTo :
      (d : CalloopData S) (m : Moment) (token : SessionToken) (addr : String)
      (peer : Option (String × String))
      → BoundTo token (start_session d m token addr peer)
  unfolding bind_client publish_cluster_state
  start_session-BoundTo d m token addr (some (server_id, to)) = tt
  start_session-BoundTo d m token addr none =
      (refl, refl, create_session-Leads d.session_registry token m.now)

  resume_or_start-BoundTo :
      (f : Float) (d : CalloopData S) (m : Moment) (token : SessionToken) (addr : String)
      (found : Option SessionId)
      → Inv d.session_registry
      → is_resumable d.session_registry token ≡ found
      → BoundTo token (resume_or_start f d m token addr found)
  unfolding bind_client publish_cluster_state
  resume_or_start-BoundTo f d m token addr none v e = start_session-BoundTo d m token addr (
      pick_peer_for_new_session f m.probes d.cluster d.has_peer_rt
        (load_factor f d.session_registry))
  resume_or_start-BoundTo f d m token addr (some id) v e = (
    refl,
    refl,
    resume-Leads d.session_registry token id m.now
        (Leads-is_resumable d.session_registry token id v e),
  )

  redirect_or_serve-BoundTo :
      (f : Float) (d : CalloopData S) (m : Moment) (token : SessionToken) (addr : String)
      (home : Option (String × String))
      → Inv d.session_registry
      → BoundTo token (redirect_or_serve f d m token addr home)
  redirect_or_serve-BoundTo f d m token addr (some (server_id, to)) v = tt
  redirect_or_serve-BoundTo f d m token addr none v =
      resume_or_start-BoundTo f d m token addr (is_resumable d.session_registry token) v refl

  note_home-Inv :
      (d : CalloopData S) (token : SessionToken) (now : Clock) (home : Option String)
      → Inv d.session_registry
      → Inv (note_home d token now home).0.session_registry
  note_home-Inv d token now none v = v
  note_home-Inv d token now (some server_id) v =
      note_remote_session-Inv d.session_registry token server_id now v

  ask_peers-Inv :
      (d : CalloopData S) (m : Moment) (token : SessionToken) (location : SessionLocation)
      → Inv d.session_registry
      → Inv (ask_peers d m token location).0.session_registry
  ask_peers-Inv d m token (local id) v = v
  ask_peers-Inv d m token (remote server_id) v = v
  ask_peers-Inv d m token unknown v =
      note_home-Inv d token m.now (discover_remote_home m.probes d.cluster d.has_peer_rt token) v

  pub connect_client-BoundTo :
      (f : Float) (d : CalloopData S) (m : Moment) (hello : ClientHello) (addr : String)
      → Inv d.session_registry
      → BoundTo (or_default hello.token m.random_token) (connect_client f d m hello addr)
  unfolding connect_client locate_session
  connect_client-BoundTo f d m hello addr v =
      let token = or_default hello.token m.random_token in
      let location = locate d.session_registry token m.now in
      let (d', found) = ask_peers d m token location in
      redirect_or_serve-BoundTo f d' m token addr (home_addr d' found)
        (ask_peers-Inv d m token location v)

  -- What a client gets that is bound to a session.
  abbrev pub Gets : CalloopData S × ConnectDecision × List LauncherEvent → SessionBinding → Type 0
  Gets result b =
      (result.1 ≡ bind b)
      × (result.0.active_session ≡ some b.session_id)
      × Leads result.0.session_registry b.token b.session_id active

  -- A client whose session is here gets it.
  Leads-connect_client :
      (f : Float) (d : CalloopData S) (m : Moment) (hello : ClientHello) (addr : String)
      (token : SessionToken) (id : SessionId)
      → hello.token ≡ some token
      → Leads d.session_registry token id active ⊎ Leads d.session_registry token id suspended
      → Gets
          (connect_client f d m hello addr)
          (record { session_id = id; resumed = true; token = token })
  unfolding connect_client locate_session home_addr bind_client publish_cluster_state
  Leads-connect_client f d m hello addr token id given (inl l) =
      rw (given, locate-Leads d.session_registry token id active m.now l)
        (rw (is_resumable-Leads d.session_registry token id active (inl refl) l)
          (refl, refl, resume-Leads d.session_registry token id m.now (inl l)))
  Leads-connect_client f d m hello addr token id given (inr l) =
      rw (given, locate-Leads d.session_registry token id suspended m.now l)
        (rw (is_resumable-Leads d.session_registry token id suspended (inr refl) l)
          (refl, refl, resume-Leads d.session_registry token id m.now (inr l)))

  BoundTo-Gets :
      (token : SessionToken) (result : CalloopData S × ConnectDecision × List LauncherEvent)
      (b : SessionBinding)
      → BoundTo token result
      → result.1 ≡ bind b
      → Gets result b
  BoundTo-Gets token (d, redirect server_id addr, events) b h e = absurd (ground (arith, e))
  BoundTo-Gets token (d, bind b', events) b (named, same, l) e =
      let equal : b' ≡ b = ground (arith, e) in rw (← equal) (refl, same, rw named l)

  Holds-Leads :
      (r : SessionRegistry S) (id : SessionId) (token : SessionToken) (n : ℕ)
      → Holds id token n r
      → Leads r token id active ⊎ Leads r token id suspended
  Holds-Leads r id token n h =
      Leads-is_resumable r token id h.kept.sound.inv
        (Lives-is_resumable r token id h.kept.sound h.lives)

-- What happens at the server: an event of the network thread, or the periodic clean-up.
pub data Happening : Type 0 where
  takes : Turn → Happening
  cleans : Clock → Happening

module _ {S : Type 0} ⦃st : SessionStore S⦄ (f : Float) (chars : String → Mime) where
  unfoldable pub happens : CalloopData S → List Happening → CalloopData S
  unfolding take_turn clean_up
  happens d [] = d
  happens d (takes turn ∷ hs) = happens (take_turn f chars d turn) hs
  happens d (cleans now ∷ hs) = happens (clean_up d now).0 hs

  -- No clean-up finds the session suspended for as long as its timeout.
  unfoldable pub NotExpired : SessionId → CalloopData S → List Happening → Type 0
  unfolding take_turn clean_up get
  NotExpired id d [] = Unit
  NotExpired id d (takes turn ∷ hs) = NotExpired id (take_turn f chars d turn) hs
  NotExpired id d (cleans now ∷ hs) =
      HasTime (get d.session_registry id) now × NotExpired id (clean_up d now).0 hs

  happens-Holds :
      (d : CalloopData S) (id : SessionId) (token : SessionToken) (n : ℕ) (hs : List Happening)
      → n + length hs < 2 ^ 64
      → NotExpired id d hs
      → Holds id token n d.session_registry
      → Holds id token (n + length hs) (happens d hs).session_registry
  unfolding happens NotExpired
  happens-Holds d id token n [] room time h = record {
    kept = record { sound = h.kept.sound; few = omega (arith, h.kept.few) };
    lives = h.lives;
  }
  happens-Holds d id token n (takes turn ∷ hs) room time h =
      let end =
        happens-Holds (take_turn f chars d turn) id token (n + 1) hs (omega (arith, room)) time (
          take_turn-carried (Holds id token n) (Holds id token (n + 1))
            (Carries-Holds id token n (omega (arith, room))) f chars d turn h) in
      record {
        kept = record { sound = end.kept.sound; few = omega (arith, end.kept.few) };
        lives = end.lives;
      }
  happens-Holds d id token n (cleans now ∷ hs) room (time, later) h =
      let end =
        happens-Holds (clean_up d now).0 id token n hs (omega (arith, room)) later
          (clean_up-Holds d id token n now time h) in
      record {
        kept = record { sound = end.kept.sound; few = omega (arith, end.kept.few) };
        lives = end.lives;
      }

  -- A client that has been bound to a session finds it again: whatever clients connect, send control
  -- messages and go away in between, with this token or others, and whenever the clean-up runs, as
  -- long as it does not find the session suspended for its timeout, the next client that connects
  -- with the token of the binding is bound to the same session, which is the active one and in the
  -- active state, and is told that it was resumed. At first every session of the registry has been
  -- started and is what its token finds; ids are left for all that happens.
  pub hot_desk :
      (d : CalloopData S) (m m' : Moment) (hello hello' : ClientHello) (addr addr' : String)
      (b : SessionBinding) (hs : List Happening)
      → Sound d.session_registry
      → d.session_registry.next_id + 1 + length hs < 2 ^ 64
      → (connect_client f d m hello addr).1 ≡ bind b
      → NotExpired b.session_id (connect_client f d m hello addr).0 hs
      → hello'.token ≡ some b.token
      → Gets
          (connect_client f (happens (connect_client f d m hello addr).0 hs) m' hello' addr')
          (record b { resumed = true })
  hot_desk d m m' hello hello' addr addr' b hs v room bound time given =
      let token = or_default hello.token m.random_token in
      let n = d.session_registry.next_id in
      let result = connect_client f d m hello addr in
      let (same, running, l) =
        BoundTo-Gets token result b (connect_client-BoundTo f d m hello addr v.inv) bound in
      let kept =
        connect_client-carried (Kept n) (Kept (n + 1)) (Carries-Kept n (omega (arith, room))) f d m
          hello addr (record { sound = v; few = omega arith }) in
      let held : Holds b.session_id b.token (n + 1) result.0.session_registry = record {
        kept = kept;
        lives = record {
          session = l.session;
          found = l.found;
          named = l.named;
          alive = ground (arith, l.in_state);
        };
      } in
      let end =
        happens-Holds result.0 b.session_id b.token (n + 1) hs (omega (arith, room)) time held in
      Leads-connect_client f (happens result.0 hs) m' hello' addr' b.token b.session_id given (
        Holds-Leads (happens result.0 hs).session_registry b.session_id b.token (n + 1 + length hs)
          end)
