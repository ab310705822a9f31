-- ===== src/Session/Registry/Durability.antt =====
-- The registry and its durable store (crates/wrsrvd/src/session/registry.rs): the rows and the sessions.
use wayray.Base.{
  nat_eq, string_eq, ◌≡◌, refl, ◌∙◌, inl, inr, Option, none, some, arith, if◌then◌else◌,
  Option-cases, List, [], ◌∷◌, ◌+◌, ◌<◌, ◌^◌, length,
}
use wayray.Base.Dict.{lookup, insert, lookup-insert}
use wayray.Session.Lifecycle
use wayray.Session.Lifecycle.{
  SessionId, SessionState, SessionToken, destroyed, Session, ok, err, new_session,
}
use wayray.Session.Lifecycle.Diagram.{transition-SameSession, transition_edge, Result-cases}
use wayray.Session.Store.{Clock, SessionStore, IsDurable, Durable, durable}
use wayray.Session.Registry.{
  SessionRegistry, create_session, settle, transition, update_session, purge_destroyed, after,
  destroy_all, destroy, set_user, set_suspend_timeout, cleanup_expired, expired_ids,
  note_remote_session, prune_remote_sessions, is_destroyed, get,
}
use wayray.Session.Registry.Invariant.{Inv, transition-Inv, KeepsBinding}
use wayray.Session.Registry.Destroy.{get-purge_destroyed}
use wayray.Session.Registry.History.{
  Command, step, run, creates, moves, sets_user, sets_timeout, notes_remote, cleans, prunes, purges,
  step-Inv, step-next_id,
}

-- The row that a session should have.
abbrev pub row_of : Option Session → Option Durable
row_of none = none
row_of (some s) = if is_destroyed s.state then none else some (durable s)

-- The rows that a restart takes into account. A user or a timeout that is set after the end of a
-- session writes a row of a destroyed session.
abbrev pub live_row : Option Durable → Option Durable
live_row none = none
live_row (some d) = if is_destroyed d.state then none else some d

module _ {S : Type 0} ⦃st : SessionStore S⦄ (law : IsDurable st) where
  abbrev pub Agrees : SessionRegistry S → Type 0
  Agrees r = (id : SessionId) → live_row (law.row r.store id) ≡ row_of (lookup id r.sessions)

  create_session-Agrees :
      (r : SessionRegistry S) (token : SessionToken) (now : Clock)
      → Agrees r
      → Agrees (create_session r token now).0
  unfolding create_session
  create_session-Agrees r token now h id =
      ground
        (arith, h id, law.row-persist r.store s0 now id, lookup-insert id r.next_id s0 r.sessions)
    where
      s0 : Session
      s0 = new_session r.next_id token r.local_server_id now.mono

  settle-Agrees :
      (r : SessionRegistry S) (id : SessionId) (next : SessionState) (s : Session) (now : Clock)
      → s.id ≡ id
      → s.state ≡ next
      → Agrees r
      → Agrees (settle r id next s now)
  unfolding settle
  settle-Agrees r id next s now same e h j = ground (
    arith,
    h j,
    law.row-persist r.store s now j,
    law.row-remove r.store id j,
    lookup-insert j id s r.sessions,
  )

  transition-Agrees :
      (r : SessionRegistry S) (id : SessionId) (next : SessionState) (now : Clock)
      → Inv r
      → Agrees r
      → Agrees (after r (transition r id next now))
  unfolding transition
  transition-Agrees r id next now v h = elim (Option-cases (lookup id r.sessions)) [
    | inl e ↦ rw (e, transition) h
    | inr (old, e) ↦ elim (Result-cases (Lifecycle.transition old next now.mono)) [
      | inl (x, f) ↦ rw (e, transition) (rw (f, transition) h)
      | inr (s, f) ↦
          rw (e, transition)
            (rw (f, transition)
              (settle-Agrees r id next s now
                ((transition-SameSession old next now.mono f).id ∙ (v.filed id old e).0)
                (transition_edge old next now.mono f).1 h))
    ]
  ]

  insert-Agrees :
      (r : SessionRegistry S) (id : SessionId) (old s : Session) (now : Clock)
      → lookup id r.sessions ≡ some old
      → old.id ≡ id
      → KeepsBinding old s
      → Agrees r
      → Agrees (record r { sessions = insert id s r.sessions; store = st.persist r.store s now })
  insert-Agrees r id old s now e same k h j =
      ground (arith, h j, law.row-persist r.store s now j, lookup-insert j id s r.sessions)

  update_session-Agrees :
      (r : SessionRegistry S) (id : SessionId) (f : Session → Session) (now : Clock)
      → ((s : Session) → KeepsBinding s (f s))
      → Inv r
      → Agrees r
      → Agrees (update_session r id f now)
  unfolding update_session
  update_session-Agrees r id f now k v h = elim (Option-cases (lookup id r.sessions)) [
    | inl e ↦ rw (e, update_session) h
    | inr (s, e) ↦
        rw (e, update_session) (insert-Agrees r id s (f s) now e (v.filed id s e).0 (k s) h)
  ]

  destroy_all-Agrees :
      (r : SessionRegistry S) (ids : List SessionId) (now : Clock)
      → Inv r
      → Agrees r
      → Agrees (destroy_all r ids now)
  unfolding destroy_all destroy
  destroy_all-Agrees r [] now v h = h
  destroy_all-Agrees r (id ∷ ids) now v h =
      destroy_all-Agrees (after r (destroy r id now)) ids now (transition-Inv r id destroyed now v)
        (transition-Agrees r id destroyed now v h)

  purge_destroyed-Agrees : (r : SessionRegistry S) → Inv r → Agrees r → Agrees (purge_destroyed r)
  unfolding purge_destroyed get
  purge_destroyed-Agrees r v h id = ground (arith, h id, get-purge_destroyed r id v)

  -- One call keeps the live rows those of the live sessions.
  pub step-Agrees :
      (r : SessionRegistry S) (c : Command × Clock) → Inv r → Agrees r → Agrees (step r c)
  unfolding step note_remote_session prune_remote_sessions set_user set_suspend_timeout
      cleanup_expired
  step-Agrees r (creates token, now) v h = create_session-Agrees r token now h
  step-Agrees r (moves id next, now) v h = transition-Agrees r id next now v h
  step-Agrees r (sets_user id user, now) v h =
      update_session-Agrees r id _ now (λ s. (refl, refl, refl, refl)) v h
  step-Agrees r (sets_timeout id timeout, now) v h =
      update_session-Agrees r id _ now (λ s. (refl, refl, refl, refl)) v h
  step-Agrees r (notes_remote token server, now) v h = h
  step-Agrees r (cleans, now) v h = destroy_all-Agrees r (expired_ids r now) now v h
  step-Agrees r (prunes, now) v h = h
  step-Agrees r (purges, now) v h = purge_destroyed-Agrees r v h

  -- With a store that keeps its contract, after any history that starts well formed and with the
  -- right rows, and while ids are left, the live rows of the store are those of the sessions that
  -- are not destroyed.
  pub run-Agrees :
      (r : SessionRegistry S) (cs : List (Command × Clock))
      → r.next_id + length cs < 2 ^ 64
      → Inv r
      → Agrees r
      → Agrees (run r cs)
  unfolding run
  run-Agrees r [] room v h = h
  run-Agrees r (c ∷ cs) room v h =
      run-Agrees (step r c) cs (omega (arith, step-next_id r c (omega arith)))
        (step-Inv r c (omega arith) v) (step-Agrees r c v h)
