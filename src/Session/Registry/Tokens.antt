-- ===== src/Session/Registry/Tokens.antt =====
-- What a client's token leads to: lookup, resumption, location, and a token that is bound anew.
use wayray.Base.{
  ◌<◌, ◌≤◌, ◌≡◌, ◌∙◌, ◌≢◌, ◌↔◌, ◌⊎◌, inl, inr, none, some, arith, ◌==◌, nat_eq, string_eq,
  if◌then◌else◌, Option-cases, Bool, String,
}
use wayray.Base.Dict.{
  lookup, lookup-insert, lookup-erase, lookup-retain, lookup-insert_ne, lookup-insert_self,
}
use wayray.Session.Lifecycle.{
  SessionId, SessionToken, active, suspended, destroyed, Session, new_session, elapsed,
}
use wayray.Session.Store.{Clock, SessionStore}
use wayray.Session.Registry.{
  SessionRegistry, local, remote, RemoteEntry, create_session, find_by_token, is_resumable, locate,
  get, destroy, after, prune_remote_sessions, remote_session_ttl, is_trusted,
}
use wayray.Session.Registry.Destroy.{destroy_live, retired}
use wayray.Session.Registry.Invariant.{Inv, unissued}

module _ {S : Type 0} where
  -- A session that is found by a token is the one that the index names, it has this token, and it is
  -- not destroyed.
  pub find_by_token-some :
      (r : SessionRegistry S) (token : SessionToken) (s : Session)
      → Inv r
      → find_by_token r token ≡ some s
      → (lookup token r.token_index ≡ some s.id)
        × (lookup s.id r.sessions ≡ some s)
        × (s.token ≡ token)
        × (s.state ≢ destroyed)
  unfolding find_by_token
  find_by_token-some r token s v h = elim (Option-cases (lookup token r.token_index)) [
    | inl e ↦ absurd (ground arith)
    | inr (id, e) ↦ ground (arith, v.bound token id e, v.filed id s)
  ]

  -- In a well-formed registry a token can be resumed exactly if the index leads to an active or a
  -- suspended session, and then with that session's id, under which the session has this token.
  pub is_resumable_iff :
      (r : SessionRegistry S) (token : SessionToken) (id : SessionId)
      → Inv r
      → (is_resumable r token ≡ some id) ↔ (
          (lookup token r.token_index ≡ some id)
          × ((s : Session) × (get r id ≡ some s)
              × (s.token ≡ token)
              × ((s.state ≡ active) ⊎ (s.state ≡ suspended))))
  is_resumable_iff r token id v =
      (λ h. resumed (Option-cases (find_by_token r token)) h, λ h. resumes h.0 h.1)
    where
      resumed :
          (find_by_token r token ≡ none) ⊎ ((s : Session) × (find_by_token r token ≡ some s))
          → is_resumable r token ≡ some id
          → (lookup token r.token_index ≡ some id)
            × ((s : Session) × (get r id ≡ some s)
                × (s.token ≡ token)
                × ((s.state ≡ active) ⊎ (s.state ≡ suspended)))
      resumed (inl e) h = absurd (unfold is_resumable in cc e)
      resumed (inr (s, e)) h =
          let found = find_by_token-some r token s v e in
          unfold is_resumable get in
          (ground (arith, found), (s, ground (arith, found), found.2, ground arith))

      resumes :
          lookup token r.token_index ≡ some id
          → ((s : Session) × (get r id ≡ some s)
              × (s.token ≡ token)
              × ((s.state ≡ active) ⊎ (s.state ≡ suspended)))
          → is_resumable r token ≡ some id
      resumes e (s, f, same, alive) = unfold is_resumable get in ground (arith, v.filed id s f)

  -- Where a token is located, on every branch: on this server if it is in the index; else on the
  -- server that was noted less than the time to live ago; else nowhere.
  pub locate_lem :
      (r : SessionRegistry S) (token : SessionToken) (now : Clock)
      → ((id : SessionId)
          → (locate r token now ≡ local id) ↔ (lookup token r.token_index ≡ some id))
        × ((server : String)
            → (locate r token now ≡ remote server) ↔ (
                (lookup token r.token_index ≡ none)
                × ((e : RemoteEntry) × (lookup token r.remote_sessions ≡ some e)
                    × (e.server_id ≡ server)
                    × (elapsed e.noted_at now.mono < remote_session_ttl))))
  unfolding locate
  locate_lem r token now = (
    λ id. (λ h. ground arith, λ h. ground arith),
    λ server. (λ h. ground arith, λ h. ground arith),
  )

  -- In a well-formed registry, pruning the remote sessions never changes where a token is located,
  -- then or later.
  pub locate-prune_remote_sessions :
      (r : SessionRegistry S) (token : SessionToken) (now later : Clock)
      → Inv r
      → now.mono ≤ later.mono
      → locate (prune_remote_sessions r now) token later ≡ locate r token later
  unfolding locate prune_remote_sessions
  locate-prune_remote_sessions r token now later v h =
      ground (arith, lookup-retain fresh token r.remote_sessions v.nodup_remote)
    where
      fresh : SessionToken → RemoteEntry → Bool
      fresh = λ _ e. is_trusted e now

module _ {S : Type 0} ⦃st : SessionStore S⦄ where
  -- In a well-formed registry, a created session is what its token leads to from then on, and every
  -- other token leads to the session that it led to before.
  pub find_by_token-create_session :
      (r : SessionRegistry S) (token t : SessionToken) (now : Clock)
      → Inv r
      → find_by_token (create_session r token now).0 t ≡ (
          if token == t
          then some (new_session r.next_id token r.local_server_id now.mono)
          else find_by_token r t)
  unfolding find_by_token create_session
  find_by_token-create_session r token t now v = elim (Option-cases (lookup t r.token_index)) [
    | inl e ↦ ground (
      arith,
      lookup-insert t token r.next_id r.token_index,
      lookup-insert r.next_id r.next_id s0 r.sessions,
    )
    | inr (id, e) ↦ ground (
      arith,
      lookup-insert t token r.next_id r.token_index,
      lookup-insert r.next_id r.next_id s0 r.sessions,
      lookup-insert id r.next_id s0 r.sessions,
      unissued r v,
      v.bound t id e,
    )
  ]
    where
      s0 : Session
      s0 = new_session r.next_id token r.local_server_id now.mono

  -- In a well-formed registry, destroying a session whose token has since been bound to a new
  -- session also unbinds the new one: it stays in the registry and its token finds nothing.
  pub destroy_unbinds_successor :
      (r : SessionRegistry S) (token : SessionToken) (old : Session) (now later : Clock)
      → Inv r
      → get r old.id ≡ some old
      → old.token ≡ token
      → old.state ≢ destroyed
      → let (r', id) = create_session r token now in
        let r'' = after r' (destroy r' old.id later) in
        (get r'' id ≡ some (new_session id token r.local_server_id now.mono))
        × (find_by_token r'' token ≡ none)
        × (id ≢ old.id)
  unfolding get find_by_token create_session
  destroy_unbinds_successor r token old now later v found same alive =
      let r' = (create_session r token now).0 in
      let s0 = new_session r.next_id token r.local_server_id now.mono in
      let apart : r.next_id ≢ old.id = λ e. ground (arith, unissued r v) in
      rw
        (destroy_live r' old.id old later
          (lookup-insert_ne old.id r.next_id s0 r.sessions apart ∙ found) alive)
        (
          ground (
            arith,
            lookup-insert r.next_id old.id (retired old) r'.sessions,
            lookup-insert_self r.next_id s0 r.sessions,
          ),
          ground (arith, lookup-erase token old.token r'.token_index),
          apart,
        )
