-- ===== src/Server/Compositor/Bound.antt =====
-- The session that a client is bound to.
use wayray.Base.{String, ◌≡◌, refl, ◌⊎◌, inl, inr, some, arith, nat_eq, string_eq}
use wayray.Base.Dict.{lookup, lookup-insert_self, insert-NodupKeys}
use wayray.Session.Lifecycle.{
  SessionId, SessionToken, SessionState, active, suspended, Session, new_session,
}
use wayray.Session.Store.{Clock, SessionStore}
use wayray.Session.Registry.{
  SessionRegistry, local, locate, note_remote_session, get, is_resumable, activate, suspend,
  create_session, after,
}
use wayray.Session.Registry.Invariant.{Inv}
use wayray.Session.Registry.Tokens.{is_resumable_iff}
use wayray.Session.Registry.Moves.{activated, paused, stored, activate_lem, suspend_lem}
use wayray.Server.Compositor.{resume}

module _ {S : Type 0} where
  -- The token leads to a session with this id and token, in this state.
  pub record Leads (r : SessionRegistry S) (token : SessionToken) (id : SessionId)
      (state : SessionState) : Type 0 where
    pub indexed : lookup token r.token_index ≡ some id
    pub session : Session
    pub found : lookup id r.sessions ≡ some session
    pub filed : session.id ≡ id
    pub named : session.token ≡ token
    pub in_state : session.state ≡ state

  pub note_remote_session-Inv :
      (r : SessionRegistry S) (token : SessionToken) (server_id : String) (now : Clock)
      → Inv r
      → Inv (note_remote_session r token server_id now)
  unfolding note_remote_session
  note_remote_session-Inv r token server_id now v = record {
    nodup = v.nodup;
    nodup_remote = insert-NodupKeys token _ r.remote_sessions v.nodup_remote;
    filed = v.filed;
    bound = v.bound;
  }

  pub is_resumable-Leads :
      (r : SessionRegistry S) (token : SessionToken) (id : SessionId) (state : SessionState)
      → (state ≡ active) ⊎ (state ≡ suspended)
      → Leads r token id state
      → is_resumable r token ≡ some id
  unfolding is_resumable
  is_resumable-Leads r token id state h l =
      ground (arith, l.indexed, l.found, l.in_state, l.filed, h)

  pub locate-Leads :
      (r : SessionRegistry S) (token : SessionToken) (id : SessionId) (state : SessionState)
      (now : Clock)
      → Leads r token id state
      → locate r token now ≡ local id
  unfolding locate
  locate-Leads r token id state now l = ground (arith, l.indexed)

  pub Leads-is_resumable :
      (r : SessionRegistry S) (token : SessionToken) (id : SessionId)
      → Inv r
      → is_resumable r token ≡ some id
      → Leads r token id active ⊎ Leads r token id suspended
  unfolding get
  Leads-is_resumable r token id v h =
      let (indexed, (s, e, named, state)) = (is_resumable_iff r token id v).0 h in
      elim state [
        | inl a ↦ inl (record {
          indexed = indexed;
          session = s;
          found = e;
          filed = (v.filed id s e).0;
          named = named;
          in_state = a;
        })
        | inr a ↦ inr (record {
          indexed = indexed;
          session = s;
          found = e;
          filed = (v.filed id s e).0;
          named = named;
          in_state = a;
        })
      ]

module _ {S : Type 0} ⦃st : SessionStore S⦄ where
  stored-Leads :
      (r : SessionRegistry S) (token : SessionToken) (id : SessionId) (s : Session)
      (state : SessionState) (now : Clock)
      → lookup token r.token_index ≡ some id
      → s.id ≡ id
      → s.token ≡ token
      → s.state ≡ state
      → Leads (stored r id s now) token id state
  stored-Leads r token id s state now a b c e = record {
    indexed = a;
    session = s;
    found = lookup-insert_self id s r.sessions;
    filed = b;
    named = c;
    in_state = e;
  }

  pub suspend-Leads :
      (r : SessionRegistry S) (token : SessionToken) (id : SessionId) (now : Clock)
      → Leads r token id active
      → Leads (after r (suspend r id now)) token id suspended
  suspend-Leads r token id now l =
      rw (suspend_lem r id l.session now l.found l.in_state) (
        stored-Leads r token id (paused l.session now) suspended now l.indexed l.filed l.named refl)

  resume_active :
      (r : SessionRegistry S) (id : SessionId) (s : Session) (now : Clock)
      → lookup id r.sessions ≡ some s
      → s.state ≡ active
      → resume r id now ≡ r
  unfolding resume get
  resume_active r id s now e h = ground arith

  resume_suspended :
      (r : SessionRegistry S) (id : SessionId) (s : Session) (now : Clock)
      → lookup id r.sessions ≡ some s
      → s.state ≡ suspended
      → resume r id now ≡ stored r id (activated s) now
  unfolding resume get
  resume_suspended r id s now e h = ground (arith, activate_lem r id s now e (inr h))

  pub resume-Leads :
      (r : SessionRegistry S) (token : SessionToken) (id : SessionId) (now : Clock)
      → Leads r token id active ⊎ Leads r token id suspended
      → Leads (resume r id now) token id active
  resume-Leads r token id now (inl l) = rw (resume_active r id l.session now l.found l.in_state) l
  resume-Leads r token id now (inr l) =
      rw (resume_suspended r id l.session now l.found l.in_state)
        (stored-Leads r token id (activated l.session) active now l.indexed l.filed l.named refl)

  pub create_session-Leads :
      (r : SessionRegistry S) (token : SessionToken) (now : Clock)
      → let (r', id) = create_session r token now in
        Leads (after r' (activate r' id now)) token id active
  unfolding create_session new_session
  create_session-Leads r token now =
      let (r', id) = create_session r token now in
      let s = new_session id token r.local_server_id now.mono in
      rw (activate_lem r' id s now (lookup-insert_self id s r.sessions) (inl refl)) (
        stored-Leads r' token id (activated s) active now
          (lookup-insert_self token id r.token_index) refl refl refl)
