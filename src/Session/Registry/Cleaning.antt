-- ===== src/Session/Registry/Cleaning.antt =====
-- The calls of the periodic clean-up, on a registry in which every session has been started.
use wayray.Base.{
  nat_eq, string_eq, subst, ℕ, ◌-◌, ◌<◌, ◌≡◌, inl, inr, Bool, true, false, Option, none, some, List,
  [], ◌∷◌, arith, if◌then◌else◌, Option-cases,
}
use wayray.Base.Dict.{lookup-retain, retain-NodupKeys}
use wayray.Session.Lifecycle.{SessionId, SessionToken, destroyed, Session, is_suspend_expired}
use wayray.Session.Store.{Clock, SessionStore}
use wayray.Session.Registry.{
  SessionRegistry, destroy, destroy_all, cleanup_expired, expired_ids, purge_destroyed,
  prune_remote_sessions, after, is_destroyed, get,
}
use wayray.Session.Registry.Invariant.{Inv, cleanup_expired-Inv, purge_destroyed-Inv}
use wayray.Session.Registry.Indexed.{destroy_all-IsIndexed, purge_destroyed-IsIndexed}
use wayray.Session.Registry.Destroy.{get-cleanup_expired, get-purge_destroyed}
use wayray.Session.Registry.Started.{Sound, AllStarted, Lives, transition-AllStarted}

-- A session has not been suspended for as long as its timeout.
abbrev pub HasTime : Option Session → Clock → Type 0
HasTime none now = Unit
HasTime (some s) now = (t : ℕ) → s.suspended_at ≡ some t → now.mono - t < s.suspend_timeout

in_time : (s : Session) (now : Clock) → HasTime (some s) now → is_suspend_expired s now.mono ≡ false
unfolding is_suspend_expired
in_time s now h = elim (Option-cases s.suspended_at) [
  | inl e ↦ ground arith
  | inr (t, e) ↦ ground (arith, h t e)
]

module _ {S : Type 0} ⦃st : SessionStore S⦄ where
  destroy_all-AllStarted :
      (r : SessionRegistry S) (ids : List SessionId) (now : Clock)
      → AllStarted r
      → AllStarted (destroy_all r ids now)
  unfolding destroy_all destroy
  destroy_all-AllStarted r [] now h = h
  destroy_all-AllStarted r (id ∷ ids) now h =
      destroy_all-AllStarted (after r (destroy r id now)) ids now
        (transition-AllStarted r id destroyed now (λ e. cc) h)

  pub cleanup_expired-Sound :
      (r : SessionRegistry S) (now : Clock) → Sound r → Sound (cleanup_expired r now).0
  unfolding cleanup_expired
  cleanup_expired-Sound r now v = record {
    inv = cleanup_expired-Inv r now v.inv;
    indexed = destroy_all-IsIndexed r (expired_ids r now) now v.indexed;
    started = destroy_all-AllStarted r (expired_ids r now) now v.started;
  }

  pub purge_destroyed-Sound : (r : SessionRegistry S) → Sound r → Sound (purge_destroyed r)
  unfolding purge_destroyed
  purge_destroyed-Sound r v = record {
    inv = purge_destroyed-Inv r v.inv;
    indexed = purge_destroyed-IsIndexed r v.inv v.indexed;
    started =
        λ id s e. ground (arith, lookup-retain live id r.sessions v.inv.nodup, v.started id s);
  }
    where
      live : SessionId → Session → Bool
      live = λ _ s. if is_destroyed s.state then false else true

  pub cleanup_expired-Lives :
      (r : SessionRegistry S) (id : SessionId) (token : SessionToken) (now : Clock)
      → Inv r
      → HasTime (get r id) now
      → Lives id token r
      → Lives id token (cleanup_expired r now).0
  unfolding get
  cleanup_expired-Lives r id token now v h l = record {
    session = l.session;
    found = ground (
      arith,
      get-cleanup_expired r id now v,
      l.found,
      in_time l.session now (subst (λ o. HasTime o now) l.found h),
    );
    named = l.named;
    alive = l.alive;
  }

  pub purge_destroyed-Lives :
      (r : SessionRegistry S) (id : SessionId) (token : SessionToken)
      → Inv r
      → Lives id token r
      → Lives id token (purge_destroyed r)
  unfolding get
  purge_destroyed-Lives r id token v l = record {
    session = l.session;
    found = ground (arith, get-purge_destroyed r id v, l.found, l.alive);
    named = l.named;
    alive = l.alive;
  }

module _ {S : Type 0} where
  pub prune_remote_sessions-Sound :
      (r : SessionRegistry S) (now : Clock) → Sound r → Sound (prune_remote_sessions r now)
  unfolding prune_remote_sessions
  prune_remote_sessions-Sound r now v = record {
    inv = record {
      nodup = v.inv.nodup;
      nodup_remote = retain-NodupKeys _ r.remote_sessions v.inv.nodup_remote;
      filed = v.inv.filed;
      bound = v.inv.bound;
    };
    indexed = v.indexed;
    started = v.started;
  }

  pub prune_remote_sessions-Lives :
      (r : SessionRegistry S) (id : SessionId) (token : SessionToken) (now : Clock)
      → Lives id token r
      → Lives id token (prune_remote_sessions r now)
  unfolding prune_remote_sessions
  prune_remote_sessions-Lives r id token now l = record {
    session = l.session;
    found = l.found;
    named = l.named;
    alive = l.alive;
  }
