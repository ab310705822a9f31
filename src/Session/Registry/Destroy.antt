-- ===== src/Session/Registry/Destroy.antt =====
-- What destroying a session, or all the expired ones, does to every session of the registry.
use wayray.Base.{
  nat_eq, string_eq, ℕ, ◌≡◌, refl, ◌≢◌, inl, inr, Bool, true, false, Option, none, some, List, [],
  ◌∷◌, map, filter, arith, ◌==◌, if◌then◌else◌, Option-cases,
}
use wayray.Base.Dict.{Dict, lookup, insert, erase, NodupKeys, values, lookup-insert, lookup-retain}
use wayray.Base.Member.{contains}
use wayray.Session.Lifecycle
use wayray.Session.Lifecycle.{
  SessionId, SessionState, SessionState-discrete, destroyed, Session, ok, err, is_suspend_expired,
}
use wayray.Session.Store.{Clock, SessionStore}
use wayray.Session.Registry.{
  SessionRegistry, destroy, after, destroy_all, expired_ids, cleanup_expired, get, settle,
  is_destroyed, purge_destroyed,
}
use wayray.Session.Registry.Invariant.{Inv}

-- A session that was destroyed; destroying it again changes nothing.
abbrev pub retired : Session → Session
retired s = if is_destroyed s.state then s else record s { state = destroyed; suspended_at = none }

retire_live :
    (s : Session) (now : ℕ)
    → s.state ≢ destroyed
    → Lifecycle.transition s destroyed now ≡ ok (retired s)
unfolding Lifecycle.transition
retire_live s now h = ground arith

destroyed? : (s : SessionState) → Dec (s ≡ destroyed)
destroyed? s = SessionState-discrete s destroyed

abbrev pub retire? : Bool → Option Session → Option Session
retire? b none = none
retire? b (some s) = some (if b then retired s else s)

module _ {S : Type 0} ⦃st : SessionStore S⦄ where
  pub destroy_live :
      (r : SessionRegistry S) (id : SessionId) (s : Session) (now : Clock)
      → lookup id r.sessions ≡ some s
      → s.state ≢ destroyed
      → after r (destroy r id now) ≡ record r {
        sessions = insert id (retired s) r.sessions;
        token_index = erase s.token r.token_index;
        store = st.remove r.store id;
      }
  unfolding destroy settle
  destroy_live r id s now e h = ground (arith, retire_live s now.mono h)

  destroy_dead :
      (r : SessionRegistry S) (id : SessionId) (s : Session) (now : Clock)
      → lookup id r.sessions ≡ some s
      → s.state ≡ destroyed
      → after r (destroy r id now) ≡ r
  unfolding destroy Lifecycle.transition
  destroy_dead r id s now e h = ground arith

  destroy_missing :
      (r : SessionRegistry S) (id : SessionId) (now : Clock)
      → lookup id r.sessions ≡ none
      → after r (destroy r id now) ≡ r
  unfolding destroy
  destroy_missing r id now e = ground arith

  -- `destroy` retires the session of that id and leaves every other session as it was.
  pub get-destroy :
      (r : SessionRegistry S) (id j : SessionId) (now : Clock)
      → get (after r (destroy r id now)) j ≡ retire? (id == j) (get r j)
  unfolding get
  get-destroy r id j now = elim (Option-cases (lookup id r.sessions)) [
    | inl e ↦ rw (destroy_missing r id now e) (ground arith)
    | inr (s, e) ↦ elim (destroyed? s.state) [
      | yes dead ↦ rw (destroy_dead r id s now e dead) (ground arith)
      | no live ↦
          rw (destroy_live r id s now e live)
            (ground (arith, lookup-insert j id (retired s) r.sessions))
    ]
  ]

  get-destroy_all :
      (r : SessionRegistry S) (ids : List SessionId) (j : SessionId) (now : Clock)
      → get (destroy_all r ids now) j ≡ retire? (contains j ids) (get r j)
  unfolding destroy_all contains
  get-destroy_all r [] j now = ground arith
  get-destroy_all r (id ∷ ids) j now =
      ground (arith, get-destroy_all (after r (destroy r id now)) ids j now, get-destroy r id j now)

-- The ids of the listed sessions that pass a test.
abbrev ids_where : (Session → Bool) → Dict SessionId Session → List SessionId
ids_where p d = map (λ (s : Session). s.id) (filter p (values d))

abbrev pub passes : (Session → Bool) → Option Session → Bool
passes p none = false
passes p (some s) = p s

IsFiled : Dict SessionId Session → Type 0
IsFiled d = (id : SessionId) (s : Session) → lookup id d ≡ some s → s.id ≡ id

IsFiled-tail :
    (id : SessionId) (s : Session) (d : Dict SessionId Session)
    → lookup id d ≡ none
    → IsFiled ((id, s) ∷ d)
    → IsFiled d
unfolding IsFiled lookup
IsFiled-tail id s d fresh f j t h = ground (arith, f j t)

contains-ids_where :
    (p : Session → Bool) (d : Dict SessionId Session) (j : SessionId)
    → NodupKeys d
    → IsFiled d
    → contains j (ids_where p d) ≡ passes p (lookup j d)
unfolding contains values lookup IsFiled
contains-ids_where p [] j u f = refl
contains-ids_where p ((id, s) ∷ d) j u f =
    ground (arith, contains-ids_where p d j u.1 (IsFiled-tail id s d u.0 f), f id s)

module _ {S : Type 0} ⦃st : SessionStore S⦄ where
  -- In a well-formed registry, a cleanup destroys exactly the sessions that have expired: every other
  -- one is as it was before. It returns exactly the ids of the sessions that it destroyed.
  pub get-cleanup_expired :
      (r : SessionRegistry S) (j : SessionId) (now : Clock)
      → Inv r
      → (get (cleanup_expired r now).0 j
          ≡ retire? (passes (λ s. is_suspend_expired s now.mono) (get r j)) (get r j))
        × (contains j (cleanup_expired r now).1
            ≡ passes (λ s. is_suspend_expired s now.mono) (get r j))
  unfolding cleanup_expired get IsFiled
  get-cleanup_expired r j now v =
      let listed =
        contains-ids_where (λ s. is_suspend_expired s now.mono) r.sessions j v.nodup
          (λ id s h. (v.filed id s h).0) in
      (ground (arith, get-destroy_all r (expired_ids r now) j now, listed), listed)

abbrev pub drop_destroyed : Option Session → Option Session
drop_destroyed none = none
drop_destroyed (some s) = if is_destroyed s.state then none else some s

module _ {S : Type 0} ⦃st : SessionStore S⦄ where
  -- In a well-formed registry, purging removes exactly the destroyed sessions.
  pub get-purge_destroyed :
      (r : SessionRegistry S) (j : SessionId)
      → Inv r
      → get (purge_destroyed r) j ≡ drop_destroyed (get r j)
  unfolding purge_destroyed get
  get-purge_destroyed r j v = ground (arith, lookup-retain live j r.sessions v.nodup)
    where
      live : SessionId → Session → Bool
      live = λ _ s. if is_destroyed s.state then false else true
