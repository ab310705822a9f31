-- ===== src/Session/Registry/Moves.antt =====
-- Activating and suspending a session of crates/wrsrvd/src/session/registry.rs, where it works.
use wayray.Base.{◌≡◌, ◌⊎◌, none, some, arith, nat_eq}
use wayray.Base.Dict.{lookup, insert}
use wayray.Session.Lifecycle
use wayray.Session.Lifecycle.{
  SessionId, SessionState, creating, active, suspended, Session, ok, err,
}
use wayray.Session.Store.{Clock, SessionStore}
use wayray.Session.Registry.{SessionRegistry, settle, activate, suspend, after}

abbrev pub activated : Session → Session
activated s = record s { state = active; suspended_at = none }

abbrev pub paused : Session → Clock → Session
paused s now = record s { state = suspended; suspended_at = some now.mono }

activate_session :
    (s : Session) (now : Clock)
    → (s.state ≡ creating) ⊎ (s.state ≡ suspended)
    → Lifecycle.transition s active now.mono ≡ ok (activated s)
unfolding Lifecycle.transition
activate_session s now h = ground arith

pause_session :
    (s : Session) (now : Clock)
    → s.state ≡ active
    → Lifecycle.transition s suspended now.mono ≡ ok (paused s now)
unfolding Lifecycle.transition
pause_session s now h = ground arith

module _ {S : Type 0} ⦃st : SessionStore S⦄ where
  -- the registry with a session written back
  abbrev pub stored : SessionRegistry S → SessionId → Session → Clock → SessionRegistry S
  stored r id s now = record r {
    sessions = insert id s r.sessions;
    store = st.persist r.store s now;
  }

  pub activate_lem :
      (r : SessionRegistry S) (id : SessionId) (s : Session) (now : Clock)
      → lookup id r.sessions ≡ some s
      → (s.state ≡ creating) ⊎ (s.state ≡ suspended)
      → after r (activate r id now) ≡ stored r id (activated s) now
  unfolding activate settle
  activate_lem r id s now e h = ground (arith, activate_session s now h)

  pub suspend_lem :
      (r : SessionRegistry S) (id : SessionId) (s : Session) (now : Clock)
      → lookup id r.sessions ≡ some s
      → s.state ≡ active
      → after r (suspend r id now) ≡ stored r id (paused s now) now
  unfolding suspend settle
  suspend_lem r id s now e h = ground (arith, pause_session s now h)
