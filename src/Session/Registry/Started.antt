-- ===== src/Session/Registry/Started.antt =====
-- Registries in which every session has been started: its creation and its first activation are
-- one step of the compositor.
use wayray.Base.{
  nat_eq, string_eq, String, ◌+◌, ◌<◌, ◌≤◌, ◌^◌, ◌≡◌, refl, ◌≢◌, inl, inr, true, none, some, arith,
  ◌==◌, Bool-cases, Option-cases,
}
use wayray.Base.Dict.{insert, lookup, lookup-insert, lookup-insert_self}
use wayray.Session.Lifecycle
use wayray.Session.Lifecycle.{
  SessionId, SessionToken, SessionState, creating, active, suspended, destroyed, Session,
  new_session,
}
use wayray.Session.Lifecycle.Diagram.{transition-SameSession, transition_edge, Result-cases}
use wayray.Session.Store.{Clock, SessionStore}
use wayray.Session.Registry.{
  SessionRegistry, create_session, settle, transition, activate, note_remote_session, after,
  is_resumable_state, is_resumable, find_by_token,
}
use wayray.Session.Registry.Invariant.{Inv, create_session-Inv, transition-Inv}
use wayray.Session.Registry.History.{transition-next_id}
use wayray.Session.Registry.Indexed.{IsIndexed, create_session-IsIndexed, transition-IsIndexed}
use wayray.Session.Registry.Moves.{activated, activate_lem}

module _ {S : Type 0} where
  abbrev pub AllStarted : SessionRegistry S → Type 0
  AllStarted r = (id : SessionId) (s : Session) → lookup id r.sessions ≡ some s → s.state ≢ creating

  -- A registry as the compositor keeps it.
  pub record Sound (r : SessionRegistry S) : Type 0 where
    pub inv : Inv r
    pub indexed : IsIndexed r
    pub started : AllStarted r

  -- The session of this id has this token, and it is active or suspended.
  pub record Lives (id : SessionId) (token : SessionToken) (r : SessionRegistry S) : Type 0 where
    pub session : Session
    pub found : lookup id r.sessions ≡ some session
    pub named : session.token ≡ token
    pub alive : is_resumable_state session.state ≡ true

  -- What the token of a sound registry leads to can be resumed.
  pub unbound :
      (r : SessionRegistry S) (token : SessionToken)
      → Sound r
      → is_resumable r token ≡ none
      → lookup token r.token_index ≡ none
  unfolding is_resumable find_by_token
  unbound r token v e = elim (Option-cases (lookup token r.token_index)) [
    | inl f ↦ f
    | inr (id, f) ↦ elim (Option-cases (lookup id r.sessions)) [
      | inl g ↦ absurd (ground (arith, v.inv.bound token id f))
      | inr (s, g) ↦ absurd (ground (arith, v.inv.bound token id f, v.started id s g))
    ]
  ]

  pub Lives-is_resumable :
      (r : SessionRegistry S) (token : SessionToken) (id : SessionId)
      → Sound r
      → Lives id token r
      → is_resumable r token ≡ some id
  unfolding is_resumable find_by_token
  Lives-is_resumable r token id v l = ground (
    arith,
    v.indexed id l.session l.found,
    l.found,
    l.named,
    l.alive,
    v.inv.filed id l.session l.found,
  )

  pub note_remote_session-Sound :
      (r : SessionRegistry S) (token : SessionToken) (server_id : String) (now : Clock)
      → Inv (note_remote_session r token server_id now)
      → Sound r
      → Sound (note_remote_session r token server_id now)
  unfolding note_remote_session
  note_remote_session-Sound r token server_id now i v = record {
    inv = i;
    indexed = v.indexed;
    started = v.started;
  }

module _ {S : Type 0} ⦃st : SessionStore S⦄ where
  pub transition-AllStarted :
      (r : SessionRegistry S) (id : SessionId) (next : SessionState) (now : Clock)
      → next ≢ creating
      → AllStarted r
      → AllStarted (after r (transition r id next now))
  unfolding transition settle
  transition-AllStarted r id next now going h = elim (Option-cases (lookup id r.sessions)) [
    | inl e ↦ rw (e, transition) h
    | inr (old, e) ↦ elim (Result-cases (Lifecycle.transition old next now.mono)) [
      | inl (x, f) ↦ rw (e, transition) (rw (f, transition) h)
      | inr (s, f) ↦
          let moved = transition_edge old next now.mono f in
          rw (e, transition)
            (rw (f, transition)
              (λ j t g. ground (arith, h j t, lookup-insert j id s r.sessions, moved.1, going)))
    ]
  ]

  pub transition-Sound :
      (r : SessionRegistry S) (id : SessionId) (next : SessionState) (now : Clock)
      → next ≢ creating
      → Sound r
      → Sound (after r (transition r id next now))
  transition-Sound r id next now going v = record {
    inv = transition-Inv r id next now v.inv;
    indexed = transition-IsIndexed r id next now v.indexed;
    started = transition-AllStarted r id next now going v.started;
  }

  -- the registry with a new session, activated
  abbrev pub started_with : SessionRegistry S → SessionToken → Clock → SessionRegistry S
  started_with r token now =
      let (r', id) = create_session r token now in after r' (activate r' id now)

  pub started_with-Sound :
      (r : SessionRegistry S) (token : SessionToken) (now : Clock)
      → r.next_id + 1 < 2 ^ 64
      → is_resumable r token ≡ none
      → Sound r
      → Sound (started_with r token now)
  unfolding create_session new_session activate
  started_with-Sound r token now room new v =
      let (r', id) = create_session r token now in
      let s = new_session id token r.local_server_id now.mono in
      let found = lookup-insert_self id s r.sessions in
      record {
        inv = transition-Inv r' id active now (create_session-Inv r token now room v.inv);
        indexed =
            transition-IsIndexed r' id active now
              (create_session-IsIndexed r token now (unbound r token v new) v.indexed);
        started = rw (activate_lem r' id s now found (inl refl)) (λ j t g. ground (
          arith,
          v.started j t,
          lookup-insert j id (activated s) (insert id s r.sessions),
          lookup-insert j id s r.sessions,
        ));
      }

  pub started_with-next_id :
      (r : SessionRegistry S) (token : SessionToken) (now : Clock)
      → r.next_id + 1 < 2 ^ 64
      → (started_with r token now).next_id ≤ r.next_id + 1
  unfolding create_session activate
  started_with-next_id r token now room =
      let (r', id) = create_session r token now in
      omega (arith, transition-next_id r' id active now)

  settled_Lives :
      (r : SessionRegistry S) (id j : SessionId) (token : SessionToken) (next : SessionState)
      (old s : Session) (now : Clock)
      → lookup j r.sessions ≡ some old
      → s.token ≡ old.token
      → s.state ≡ next
      → is_resumable_state next ≡ true
      → Lives id token r
      → Lives id token (settle r j next s now)
  unfolding settle
  settled_Lives r id j token next old s now e same to going l = elim (Bool-cases (j == id)) [
    | inl here ↦ record {
      session = s;
      found = ground (arith, lookup-insert id j s r.sessions);
      named = ground (arith, l.found, l.named);
      alive = ground arith;
    }
    | inr other ↦ record {
      session = l.session;
      found = ground (arith, l.found, lookup-insert id j s r.sessions);
      named = l.named;
      alive = l.alive;
    }
  ]

  pub transition-Lives :
      (r : SessionRegistry S) (id j : SessionId) (token : SessionToken) (next : SessionState)
      (now : Clock)
      → is_resumable_state next ≡ true
      → Lives id token r
      → Lives id token (after r (transition r j next now))
  unfolding transition settle
  transition-Lives r id j token next now going l = elim (Option-cases (lookup j r.sessions)) [
    | inl e ↦ rw (e, transition) l
    | inr (old, e) ↦ elim (Result-cases (Lifecycle.transition old next now.mono)) [
      | inl (x, f) ↦ rw (e, transition) (rw (f, transition) l)
      | inr (s, f) ↦
          let moved = transition_edge old next now.mono f in
          let same = transition-SameSession old next now.mono f in
          rw (e, transition)
            (rw (f, transition)
              (settled_Lives r id j token next old s now e same.token moved.1 going l))
    ]
  ]

  pub started_with-Lives :
      (r : SessionRegistry S) (id : SessionId) (token token' : SessionToken) (now : Clock)
      → Inv r
      → Lives id token r
      → Lives id token (started_with r token' now)
  unfolding create_session activate
  started_with-Lives r id token token' now v l =
      let (r', j) = create_session r token' now in
      let s = new_session j token' r.local_server_id now.mono in
      transition-Lives r' id j token active now refl (record {
        session = l.session;
        found =
            ground (
              arith,
              l.found,
              v.filed id l.session l.found,
              lookup-insert id r.next_id s r.sessions,
            );
        named = l.named;
        alive = l.alive;
      })
