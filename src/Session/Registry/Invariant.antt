-- ===== src/Session/Registry/Invariant.antt =====
-- The well-formedness of the registry of crates/wrsrvd/src/session/registry.rs.
use wayray.Base.{
  ℕ, ◌+◌, ◌<◌, ◌^◌, ◌≡◌, refl, ◌∙◌, ◌≢◌, inl, inr, true, false, Bool, String, Option, none, some,
  List, [], ◌∷◌, arith, nat_eq, string_eq, if◌then◌else◌, Option-cases,
}
use wayray.Base.Dict.{
  lookup, insert, NodupKeys, lookup-insert, lookup-erase, lookup-retain, insert-NodupKeys,
  retain-NodupKeys, erase-NodupKeys,
}
use wayray.Session.Lifecycle
use wayray.Session.Lifecycle.{
  SessionId, SessionToken, SessionState, destroyed, Session, Result, ok, err, new_session,
}
use wayray.Session.Lifecycle.Diagram.{
  transition-SameSession, transition-IsTimed, transition_edge, IsTimed, Result-cases,
}
use wayray.Session.Store.{Clock, SessionStore}
use wayray.Session.Registry.{
  SessionRegistry, create_session, settle, transition, update_session, purge_destroyed, after,
  is_destroyed, destroy_all, destroy, set_user, set_suspend_timeout, cleanup_expired, expired_ids,
}

-- The session bound to a token.
abbrev pub IsBound : SessionToken → Option Session → Type 0
IsBound token none = ⊥
IsBound token (some s) = (s.token ≡ token) × (s.state ≢ destroyed)

-- What `set_user` and `set_suspend_timeout` leave alone.
abbrev pub KeepsBinding : Session → Session → Type 0
KeepsBinding s t =
    (t.id ≡ s.id) × (t.token ≡ s.token) × (t.state ≡ s.state) × (t.suspended_at ≡ s.suspended_at)

module _ {S : Type 0} where
  -- A session is filed under its own id, which has been issued; and a token of the index leads to a
  -- session that has this token and is not destroyed.
  pub record Inv (r : SessionRegistry S) : Type 0 where
    pub nodup : NodupKeys r.sessions
    pub nodup_remote : NodupKeys r.remote_sessions
    pub filed :
        (id : SessionId) (s : Session)
        → lookup id r.sessions ≡ some s
        → (s.id ≡ id) × (id < r.next_id) × IsTimed s
    pub bound :
        (token : SessionToken) (id : SessionId)
        → lookup token r.token_index ≡ some id
        → IsBound token (lookup id r.sessions)

  -- An id that has not been issued has no session.
  pub unissued : (r : SessionRegistry S) → Inv r → lookup r.next_id r.sessions ≡ none
  unissued r v = elim (Option-cases (lookup r.next_id r.sessions)) [
    | inl e ↦ e
    | inr (s, e) ↦ absurd (omega (arith, v.filed r.next_id s e))
  ]

module _ {S : Type 0} ⦃st : SessionStore S⦄ where
  -- Creating a session keeps the registry well formed, as long as ids are left.
  pub create_session-Inv :
      (r : SessionRegistry S) (token : SessionToken) (now : Clock)
      → r.next_id + 1 < 2 ^ 64
      → Inv r
      → Inv (create_session r token now).0
  unfolding create_session new_session
  create_session-Inv r token now room v = record {
    nodup = insert-NodupKeys r.next_id _ r.sessions v.nodup;
    nodup_remote = erase-NodupKeys token r.remote_sessions v.nodup_remote;
    filed = λ id s h. ground (arith, lookup-insert id r.next_id s0 r.sessions, v.filed id s);
    bound = λ t id h. ground (
      arith,
      lookup-insert t token r.next_id r.token_index,
      lookup-insert id r.next_id s0 r.sessions,
      v.bound t id,
      unissued r v,
    );
  }
    where
      s0 : Session
      s0 = new_session r.next_id token r.local_server_id now.mono

  settle_filed :
      (r : SessionRegistry S) (id : SessionId) (next : SessionState) (s : Session) (now : Clock)
      → Inv r
      → (s.id ≡ id) × (id < r.next_id) × IsTimed s
      → (j : SessionId) (t : Session) → lookup j (settle r id next s now).sessions ≡ some t
      → (t.id ≡ j) × (j < (settle r id next s now).next_id) × IsTimed t
  unfolding settle
  settle_filed r id next s now v w j t h =
      ground (arith, lookup-insert j id s r.sessions, v.filed j t)

  settle-IsBound :
      (r : SessionRegistry S) (id : SessionId) (next : SessionState) (old s : Session) (now : Clock)
      → Inv r
      → lookup id r.sessions ≡ some old
      → s.token ≡ old.token
      → s.state ≡ next
      → (t : SessionToken) (j : SessionId) → lookup t (settle r id next s now).token_index ≡ some j
      → IsBound t (lookup j (settle r id next s now).sessions)
  unfolding settle
  settle-IsBound r id next old s now v found same state t j h =
      ground
        (arith, lookup-insert j id s r.sessions, lookup-erase t s.token r.token_index, v.bound t j)

  settle_nodup :
      (r : SessionRegistry S) (id : SessionId) (next : SessionState) (s : Session) (now : Clock)
      → Inv r
      → NodupKeys (settle r id next s now).sessions
  unfolding settle
  settle_nodup r id next s now v = ground (arith, insert-NodupKeys id s r.sessions v.nodup)

  settle_remote :
      (r : SessionRegistry S) (id : SessionId) (next : SessionState) (s : Session) (now : Clock)
      → Inv r
      → NodupKeys (settle r id next s now).remote_sessions
  unfolding settle
  settle_remote r id next s now v = ground (arith, v.nodup_remote)

  settle-Inv :
      (r : SessionRegistry S) (id : SessionId) (next : SessionState) (old s : Session) (now : Clock)
      → Inv r
      → lookup id r.sessions ≡ some old
      → Lifecycle.transition old next now.mono ≡ ok s
      → Inv (settle r id next s now)
  settle-Inv r id next old s now v found e =
      let same = transition-SameSession old next now.mono e in
      let old_filed = v.filed id old found in
      record {
        nodup = settle_nodup r id next s now v;
        nodup_remote = settle_remote r id next s now v;
        filed =
            settle_filed r id next s now v
              (same.id ∙ old_filed.0, old_filed.1, transition-IsTimed old next now.mono e);
        bound =
            settle-IsBound r id next old s now v found same.token
              (transition_edge old next now.mono e).1;
      }

  -- Every attempted transition keeps the registry well formed.
  pub transition-Inv :
      (r : SessionRegistry S) (id : SessionId) (next : SessionState) (now : Clock)
      → Inv r
      → Inv (after r (transition r id next now))
  unfolding transition
  transition-Inv r id next now v = elim (Option-cases (lookup id r.sessions)) [
    | inl e ↦ rw (e, transition) v
    | inr (old, e) ↦ elim (Result-cases (Lifecycle.transition old next now.mono)) [
      | inl (x, f) ↦ rw (e, transition) (rw (f, transition) v)
      | inr (s, f) ↦ rw (e, transition) (rw (f, transition) (settle-Inv r id next old s now v e f))
    ]
  ]

  insert-Inv :
      (r : SessionRegistry S) (id : SessionId) (old s : Session) (d : S)
      → Inv r
      → lookup id r.sessions ≡ some old
      → KeepsBinding old s
      → Inv (record r { sessions = insert id s r.sessions; store = d })
  insert-Inv r id old s d v found k = record {
    nodup = insert-NodupKeys id s r.sessions v.nodup;
    nodup_remote = v.nodup_remote;
    filed =
        λ j t h. ground (arith, lookup-insert j id s r.sessions, v.filed j t, v.filed id old found);
    bound = λ t j h. ground (arith, lookup-insert j id s r.sessions, v.bound t j);
  }

  update_session-Inv :
      (r : SessionRegistry S) (id : SessionId) (f : Session → Session) (now : Clock)
      → ((s : Session) → KeepsBinding s (f s))
      → Inv r
      → Inv (update_session r id f now)
  unfolding update_session
  update_session-Inv r id f now k v = elim (Option-cases (lookup id r.sessions)) [
    | inl e ↦ rw (e, update_session) v
    | inr (s, e) ↦ rw (e, update_session) (insert-Inv r id s (f s) _ v e (k s))
  ]

  pub set_user-Inv :
      (r : SessionRegistry S) (id : SessionId) (user : String) (now : Clock)
      → Inv r
      → Inv (set_user r id user now)
  unfolding set_user
  set_user-Inv r id user now = update_session-Inv r id _ now (λ s. (refl, refl, refl, refl))

  pub set_suspend_timeout-Inv :
      (r : SessionRegistry S) (id : SessionId) (timeout : ℕ) (now : Clock)
      → Inv r
      → Inv (set_suspend_timeout r id timeout now)
  unfolding set_suspend_timeout
  set_suspend_timeout-Inv r id timeout now =
      update_session-Inv r id _ now (λ s. (refl, refl, refl, refl))

  destroy_all-Inv :
      (r : SessionRegistry S) (ids : List SessionId) (now : Clock)
      → Inv r
      → Inv (destroy_all r ids now)
  unfolding destroy_all destroy
  destroy_all-Inv r [] now v = v
  destroy_all-Inv r (id ∷ ids) now v =
      destroy_all-Inv (after r (destroy r id now)) ids now (transition-Inv r id destroyed now v)

  pub cleanup_expired-Inv :
      (r : SessionRegistry S) (now : Clock) → Inv r → Inv (cleanup_expired r now).0
  unfolding cleanup_expired
  cleanup_expired-Inv r now = destroy_all-Inv r (expired_ids r now) now

  pub purge_destroyed-Inv : (r : SessionRegistry S) → Inv r → Inv (purge_destroyed r)
  unfolding purge_destroyed
  purge_destroyed-Inv r v = record {
    nodup = retain-NodupKeys _ r.sessions v.nodup;
    nodup_remote = v.nodup_remote;
    filed = λ j t h. ground (arith, lookup-retain live j r.sessions v.nodup, v.filed j t);
    bound = λ t j h. ground (arith, lookup-retain live j r.sessions v.nodup, v.bound t j);
  }
    where
      live : SessionId → Session → Bool
      live = λ _ s. if is_destroyed s.state then false else true
