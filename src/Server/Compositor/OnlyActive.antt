-- ===== src/Server/Compositor/OnlyActive.antt =====
-- Which sessions of the registry are active, when the compositor moves one of them.
use wayray.Base.{
  ◌≡◌, ◌≢◌, refl, inl, inr, Option, none, some, arith, nat_eq, string_eq, Option-cases,
}
use wayray.Base.Dict.{lookup, lookup-insert}
use wayray.Session.Lifecycle
use wayray.Session.Lifecycle.{
  SessionId, SessionToken, SessionState, SessionState-discrete, creating, active, suspended,
  destroyed, Session, new_session,
}
use wayray.Session.Store.{Clock, SessionStore}
use wayray.Session.Registry.{SessionRegistry, activate, suspend, create_session, after, get}
use wayray.Session.Registry.Moves.{stored, activated, paused, activate_lem, suspend_lem}
use wayray.Server.Compositor.{resume, resume_from, state_of, suspend_active}

module _ {S : Type 0} where
  -- No session is active but this one.
  abbrev pub OnlyActive : SessionRegistry S → Option SessionId → Type 0
  OnlyActive r o =
      (id : SessionId) (s : Session)
      → lookup id r.sessions ≡ some s
      → s.state ≡ active
      → o ≡ some id

module _ {S : Type 0} ⦃st : SessionStore S⦄ where
  stored-OnlyActive :
      (r : SessionRegistry S) (id : SessionId) (s : Session) (now : Clock)
      → OnlyActive r none
      → OnlyActive (stored r id s now) (some id)
  stored-OnlyActive r id s now h j t e a = ground (arith, h j t, lookup-insert j id s r.sessions)

  none-OnlyActive :
      (r : SessionRegistry S) (o : Option SessionId) → OnlyActive r none → OnlyActive r o
  none-OnlyActive r o h j t e a = absurd (ground (arith, h j t e a))

  resume_state-OnlyActive :
      (r : SessionRegistry S) (id : SessionId) (now : Clock) (s : Session) (state : SessionState)
      → lookup id r.sessions ≡ some s
      → s.state ≡ state
      → OnlyActive r none
      → OnlyActive (resume_from r id now state) (some id)
  resume_state-OnlyActive r id now s suspended e a h =
      rw (activate_lem r id s now e (inr a)) (stored-OnlyActive r id (activated s) now h)
  resume_state-OnlyActive r id now s active e a h = none-OnlyActive r (some id) h
  resume_state-OnlyActive r id now s creating e a h = none-OnlyActive r (some id) h
  resume_state-OnlyActive r id now s destroyed e a h = none-OnlyActive r (some id) h

  resume_from-OnlyActive :
      (r : SessionRegistry S) (id : SessionId) (now : Clock) (found : Option Session)
      → lookup id r.sessions ≡ found
      → OnlyActive r none
      → OnlyActive (resume_from r id now (state_of found)) (some id)
  resume_from-OnlyActive r id now none e h = none-OnlyActive r (some id) h
  resume_from-OnlyActive r id now (some s) e h = resume_state-OnlyActive r id now s s.state e refl h

  pub resume-OnlyActive :
      (r : SessionRegistry S) (id : SessionId) (now : Clock)
      → OnlyActive r none
      → OnlyActive (resume r id now) (some id)
  unfolding resume get
  resume-OnlyActive r id now h = resume_from-OnlyActive r id now (lookup id r.sessions) refl h

  pub create_session-OnlyActive :
      (r : SessionRegistry S) (token : SessionToken) (now : Clock)
      → OnlyActive r none
      → let (r', id) = create_session r token now in
        OnlyActive (after r' (activate r' id now)) (some id)
  unfolding create_session new_session
  create_session-OnlyActive r token now h =
      let (r', id) = create_session r token now in
      let s = new_session id token r.local_server_id now.mono in
      let found : lookup id r'.sessions ≡ some s =
        ground (arith, lookup-insert id id s r.sessions) in
      let still : OnlyActive r' none =
        λ j t e a. ground (arith, h j t, lookup-insert j id s r.sessions, e, a) in
      rw (activate_lem r' id s now found (inl refl))
        (stored-OnlyActive r' id (activated s) now still)

  suspend_refused :
      (r : SessionRegistry S) (id : SessionId) (now : Clock)
      → ((s : Session) → lookup id r.sessions ≡ some s → s.state ≢ active)
      → after r (suspend r id now) ≡ r
  unfolding suspend Lifecycle.transition
  suspend_refused r id now h = elim (Option-cases (lookup id r.sessions)) [
    | inl e ↦ ground arith
    | inr (s, e) ↦ ground (arith, h s e)
  ]

  pub suspend_active-OnlyActive :
      (r : SessionRegistry S) (o : Option SessionId) (now : Clock)
      → OnlyActive r o
      → OnlyActive (suspend_active r o now) none
  suspend_active-OnlyActive r none now h = h
  suspend_active-OnlyActive r (some id) now h = elim (Option-cases (lookup id r.sessions)) [
    | inl e ↦
        rw (suspend_refused r id now (λ s g. absurd (ground (arith, e, g))))
          (λ j t g a. absurd (ground (arith, h j t g a, e, g)))
    | inr (s, e) ↦ elim (SessionState-discrete s.state active) [
      | yes a ↦
          rw (suspend_lem r id s now e a)
            (λ j t g b. ground (arith, h j t, lookup-insert j id (paused s now) r.sessions, g, b))
      | no n ↦
          rw (suspend_refused r id now (λ s' g. ground (arith, e, g)))
            (λ j t g a. absurd (ground (arith, h j t g a, e, g)))
    ]
  ]
