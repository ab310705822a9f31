-- ===== src/Session/Registry/Indexed.antt =====
-- The token index of crates/wrsrvd/src/session/registry.rs, read from the sessions to their tokens.
use wayray.Base.{
  nat_eq, string_eq, ◌+◌, ◌<◌, ◌^◌, ◌≡◌, refl, ◌≢◌, inl, inr, Bool, true, false, none, some, arith,
  if◌then◌else◌, Option-cases, List, [], ◌∷◌, length,
}
use wayray.Base.Dict.{lookup, insert, lookup-insert, lookup-erase, lookup-retain}
use wayray.Session.Lifecycle
use wayray.Session.Lifecycle.{
  SessionId, SessionState, SessionToken, destroyed, Session, ok, err, new_session,
}
use wayray.Session.Lifecycle.Diagram.{
  transition-SameSession, transition_edge, ◌⟶◌, Result-cases, activate, suspend, resume, abort,
  close, expire,
}
use wayray.Session.Store.{Clock, SessionStore}
use wayray.Session.Registry.{
  SessionRegistry, create_session, settle, transition, update_session, purge_destroyed, after,
  destroy_all, destroy, set_user, set_suspend_timeout, cleanup_expired, expired_ids,
  note_remote_session, prune_remote_sessions, is_destroyed, get, find_by_token,
}
use wayray.Session.Registry.Invariant.{Inv, KeepsBinding}
use wayray.Session.Registry.History.{
  Command, step, run, creates, moves, sets_user, sets_timeout, notes_remote, cleans, prunes, purges,
  step-Inv, step-next_id,
}

source_live : {s t : SessionState} → s ⟶ t → s ≢ destroyed
source_live activate e = cc
source_live suspend e = cc
source_live resume e = cc
source_live abort e = cc
source_live close e = cc
source_live expire e = cc

module _ {S : Type 0} where
  -- Every session that is not destroyed is the one that its token leads to.
  abbrev pub IsIndexed : SessionRegistry S → Type 0
  IsIndexed r =
      (id : SessionId) (s : Session)
      → lookup id r.sessions ≡ some s
      → s.state ≢ destroyed
      → lookup s.token r.token_index ≡ some id

module _ {S : Type 0} ⦃st : SessionStore S⦄ where
  pub create_session-IsIndexed :
      (r : SessionRegistry S) (token : SessionToken) (now : Clock)
      → lookup token r.token_index ≡ none
      → IsIndexed r
      → IsIndexed (create_session r token now).0
  unfolding create_session new_session
  create_session-IsIndexed r token now fresh h id s e alive = ground (
    arith,
    h id s,
    lookup-insert id r.next_id (new_session r.next_id token r.local_server_id now.mono) r.sessions,
    lookup-insert s.token token r.next_id r.token_index,
  )

  settle-IsIndexed :
      (r : SessionRegistry S) (id : SessionId) (next : SessionState) (old s : Session) (now : Clock)
      → lookup id r.sessions ≡ some old
      → s.token ≡ old.token
      → s.state ≡ next
      → old.state ⟶ next
      → IsIndexed r
      → IsIndexed (settle r id next s now)
  unfolding settle
  settle-IsIndexed r id next old s now found same to edge h j t e alive = ground (
    arith,
    h j t,
    h id old found (source_live edge),
    lookup-insert j id s r.sessions,
    lookup-erase t.token s.token r.token_index,
  )

  pub transition-IsIndexed :
      (r : SessionRegistry S) (id : SessionId) (next : SessionState) (now : Clock)
      → IsIndexed r
      → IsIndexed (after r (transition r id next now))
  unfolding transition
  transition-IsIndexed r id next now h = elim (Option-cases (lookup id r.sessions)) [
    | inl e ↦ rw (e, transition) h
    | inr (old, e) ↦ elim (Result-cases (Lifecycle.transition old next now.mono)) [
      | inl (x, f) ↦ rw (e, transition) (rw (f, transition) h)
      | inr (s, f) ↦
          let moved = transition_edge old next now.mono f in
          rw (e, transition)
            (rw (f, transition)
              (settle-IsIndexed r id next old s now e
                (transition-SameSession old next now.mono f).token moved.1 moved.0 h))
    ]
  ]

  insert-IsIndexed :
      (r : SessionRegistry S) (id : SessionId) (old s : Session) (d : S)
      → lookup id r.sessions ≡ some old
      → KeepsBinding old s
      → IsIndexed r
      → IsIndexed (record r { sessions = insert id s r.sessions; store = d })
  insert-IsIndexed r id old s d found k h j t e alive =
      ground (arith, h j t, h id old found, lookup-insert j id s r.sessions)

  update_session-IsIndexed :
      (r : SessionRegistry S) (id : SessionId) (f : Session → Session) (now : Clock)
      → ((s : Session) → KeepsBinding s (f s))
      → IsIndexed r
      → IsIndexed (update_session r id f now)
  unfolding update_session
  update_session-IsIndexed r id f now k h = elim (Option-cases (lookup id r.sessions)) [
    | inl e ↦ rw (e, update_session) h
    | inr (s, e) ↦
        rw (e, update_session)
          (insert-IsIndexed r id s (f s) (st.persist r.store (f s) now) e (k s) h)
  ]

  pub destroy_all-IsIndexed :
      (r : SessionRegistry S) (ids : List SessionId) (now : Clock)
      → IsIndexed r
      → IsIndexed (destroy_all r ids now)
  unfolding destroy_all destroy
  destroy_all-IsIndexed r [] now h = h
  destroy_all-IsIndexed r (id ∷ ids) now h =
      destroy_all-IsIndexed (after r (destroy r id now)) ids now
        (transition-IsIndexed r id destroyed now h)

  pub purge_destroyed-IsIndexed :
      (r : SessionRegistry S) → Inv r → IsIndexed r → IsIndexed (purge_destroyed r)
  unfolding purge_destroyed
  purge_destroyed-IsIndexed r v h id s e alive =
      ground (arith, h id s, lookup-retain live id r.sessions v.nodup)
    where
      live : SessionId → Session → Bool
      live = λ _ s. if is_destroyed s.state then false else true

  -- A session is created for a token only if the token is not bound.
  abbrev pub Fits : SessionRegistry S → Command → Type 0
  Fits r (creates token) = lookup token r.token_index ≡ none
  Fits r _ = Unit

  abbrev pub AllFit : SessionRegistry S → List (Command × Clock) → Type 0
  AllFit r [] = Unit
  AllFit r ((c, now) ∷ cs) = Fits r c × AllFit (step r (c, now)) cs

  pub step-IsIndexed :
      (r : SessionRegistry S) (c : Command) (now : Clock)
      → Fits r c
      → Inv r
      → IsIndexed r
      → IsIndexed (step r (c, now))
  unfolding step note_remote_session prune_remote_sessions set_user set_suspend_timeout
      cleanup_expired
  step-IsIndexed r (creates token) now fit v h = create_session-IsIndexed r token now fit h
  step-IsIndexed r (moves id next) now fit v h = transition-IsIndexed r id next now h
  step-IsIndexed r (sets_user id user) now fit v h =
      update_session-IsIndexed r id _ now (λ s. (refl, refl, refl, refl)) h
  step-IsIndexed r (sets_timeout id timeout) now fit v h =
      update_session-IsIndexed r id _ now (λ s. (refl, refl, refl, refl)) h
  step-IsIndexed r (notes_remote token server) now fit v h = h
  step-IsIndexed r cleans now fit v h = destroy_all-IsIndexed r (expired_ids r now) now h
  step-IsIndexed r prunes now fit v h = h
  step-IsIndexed r purges now fit v h = purge_destroyed-IsIndexed r v h

  pub run-IsIndexed :
      (r : SessionRegistry S) (cs : List (Command × Clock))
      → r.next_id + length cs < 2 ^ 64
      → AllFit r cs
      → Inv r
      → IsIndexed r
      → IsIndexed (run r cs)
  unfolding run
  run-IsIndexed r [] room fit v h = h
  run-IsIndexed r ((c, now) ∷ cs) room fit v h =
      run-IsIndexed (step r (c, now)) cs (omega (arith, step-next_id r (c, now) (omega arith)))
        fit.1 (step-Inv r (c, now) (omega arith) v) (step-IsIndexed r c now fit.0 v h)

  -- Where sessions are created only for unbound tokens and ids are left, after every history of a
  -- well-formed registry whose live sessions are all bound, each session that is not destroyed is
  -- what its token finds.
  pub find_by_token-run :
      (r : SessionRegistry S) (cs : List (Command × Clock)) (id : SessionId) (s : Session)
      → r.next_id + length cs < 2 ^ 64
      → AllFit r cs
      → Inv r
      → IsIndexed r
      → get (run r cs) id ≡ some s
      → s.state ≢ destroyed
      → find_by_token (run r cs) s.token ≡ some s
  unfolding find_by_token get
  find_by_token-run r cs id s room fit v h e alive =
      ground (arith, run-IsIndexed r cs room fit v h id s e alive)
