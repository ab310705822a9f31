-- ===== src/Session/Registry/History.antt =====
-- Histories of the registry: any sequence of its calls, errors included.
use wayray.Base.{
  nat_eq, string_eq, ℕ, ◌+◌, ◌<◌, ◌≤◌, ◌^◌, ◌≡◌, refl, String, List, [], ◌∷◌, arith, length,
}
use wayray.Session.Lifecycle.{SessionId, SessionToken, SessionState}
use wayray.Session.Store.{Clock, SessionStore}
use wayray.Session.Registry.{
  SessionRegistry, create_session, settle, transition, update_session, purge_destroyed, after,
  destroy_all, destroy, set_user, set_suspend_timeout, cleanup_expired, note_remote_session,
  prune_remote_sessions, with_cluster,
}
use wayray.Session.Registry.Invariant.{
  Inv, create_session-Inv, transition-Inv, set_user-Inv, set_suspend_timeout-Inv,
  cleanup_expired-Inv, purge_destroyed-Inv,
}
use wayray.Base.Dict.{lookup, insert-NodupKeys, retain-NodupKeys}

-- The calls that change a registry.
pub data Command : Type 0 where
  creates : SessionToken → Command
  moves : SessionId → SessionState → Command
  sets_user : SessionId → String → Command
  sets_timeout : SessionId → ℕ → Command
  notes_remote : SessionToken → String → Command
  cleans prunes purges : Command

module _ {S : Type 0} ⦃st : SessionStore S⦄ where
  unfoldable pub step : SessionRegistry S → Command × Clock → SessionRegistry S
  step r (creates token, now) = (create_session r token now).0
  step r (moves id next, now) = after r (transition r id next now)
  step r (sets_user id user, now) = set_user r id user now
  step r (sets_timeout id timeout, now) = set_suspend_timeout r id timeout now
  step r (notes_remote token server, now) = note_remote_session r token server now
  step r (cleans, now) = (cleanup_expired r now).0
  step r (prunes, now) = prune_remote_sessions r now
  step r (purges, now) = purge_destroyed r

  unfoldable pub run : SessionRegistry S → List (Command × Clock) → SessionRegistry S
  run r [] = r
  run r (c ∷ cs) = run (step r c) cs

  pub transition-next_id :
      (r : SessionRegistry S) (id : SessionId) (next : SessionState) (now : Clock)
      → (after r (transition r id next now)).next_id ≡ r.next_id
  unfolding transition settle
  transition-next_id r id next now = ground arith

  pub destroy_all-next_id :
      (r : SessionRegistry S) (ids : List SessionId) (now : Clock)
      → (destroy_all r ids now).next_id ≡ r.next_id
  unfolding destroy_all destroy
  destroy_all-next_id r [] now = refl
  destroy_all-next_id r (id ∷ ids) now = ground (
    arith,
    destroy_all-next_id (after r (destroy r id now)) ids now,
    transition-next_id r id _ now,
  )

  pub step-next_id :
      (r : SessionRegistry S) (c : Command × Clock)
      → r.next_id + 1 < 2 ^ 64
      → (step r c).next_id ≤ r.next_id + 1
  unfolding step create_session set_user set_suspend_timeout update_session note_remote_session
      cleanup_expired prune_remote_sessions purge_destroyed
  step-next_id r (creates token, now) h = ground arith
  step-next_id r (moves id next, now) h = omega (arith, transition-next_id r id next now)
  step-next_id r (sets_user id user, now) h = ground arith
  step-next_id r (sets_timeout id timeout, now) h = ground arith
  step-next_id r (notes_remote token server, now) h = ground arith
  step-next_id r (cleans, now) h = omega (arith, destroy_all-next_id r _ now)
  step-next_id r (prunes, now) h = ground arith
  step-next_id r (purges, now) h = ground arith

  -- One call, whatever its outcome, keeps the registry well formed while ids are left.
  pub step-Inv :
      (r : SessionRegistry S) (c : Command × Clock)
      → r.next_id + 1 < 2 ^ 64
      → Inv r
      → Inv (step r c)
  unfolding step note_remote_session prune_remote_sessions
  step-Inv r (creates token, now) h v = create_session-Inv r token now h v
  step-Inv r (moves id next, now) h v = transition-Inv r id next now v
  step-Inv r (sets_user id user, now) h v = set_user-Inv r id user now v
  step-Inv r (sets_timeout id timeout, now) h v = set_suspend_timeout-Inv r id timeout now v
  step-Inv r (notes_remote token server, now) h v = record {
    nodup = v.nodup;
    nodup_remote = insert-NodupKeys token _ r.remote_sessions v.nodup_remote;
    filed = v.filed;
    bound = v.bound;
  }
  step-Inv r (cleans, now) h v = cleanup_expired-Inv r now v
  step-Inv r (prunes, now) h v = record {
    nodup = v.nodup;
    nodup_remote = retain-NodupKeys _ r.remote_sessions v.nodup_remote;
    filed = v.filed;
    bound = v.bound;
  }
  step-Inv r (purges, now) h v = purge_destroyed-Inv r v

  pub run-Inv :
      (r : SessionRegistry S) (cs : List (Command × Clock))
      → r.next_id + length cs < 2 ^ 64
      → Inv r
      → Inv (run r cs)
  unfolding run
  run-Inv r [] h v = v
  run-Inv r (c ∷ cs) h v =
      run-Inv (step r c) cs (omega (arith, step-next_id r c (omega arith)))
        (step-Inv r c (omega arith) v)

  pub with_cluster-Inv :
      (server : String) (capacity : ℕ) (d : S) → Inv (with_cluster server capacity d)
  unfolding with_cluster lookup
  with_cluster-Inv server capacity d = record {
    nodup = tt;
    nodup_remote = tt;
    filed = λ id s h. cc;
    bound = λ token id h. cc;
  }

  -- Every history of fewer than 2 ^ 64 - 1 calls on a fresh registry keeps it well formed: the
  -- sessions are filed once each under their own issued ids, with a suspension time exactly while
  -- suspended, and every token of the index leads to a session with that token that is not
  -- destroyed.
  pub run-with_cluster-Inv :
      (server : String) (capacity : ℕ) (d : S) (cs : List (Command × Clock))
      → 1 + length cs < 2 ^ 64
      → Inv (run (with_cluster server capacity d) cs)
  unfolding with_cluster
  run-with_cluster-Inv server capacity d cs h = run-Inv _ cs h (with_cluster-Inv server capacity d)
