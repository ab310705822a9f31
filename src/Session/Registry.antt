-- ===== src/Session/Registry.antt =====
-- crates/wrsrvd/src/session/registry.rs: the registry of sessions. A method takes the registry and
-- one reading of the clocks, and returns the new registry; logging is left out. `HashMap`s are
-- association lists (Base/Dict), so `values()` has the list's order.
pub mod Invariant
pub mod History
pub mod Destroy
pub mod Moves
pub mod Counts
pub mod Durability
pub mod Restore
pub mod Restart
pub mod Indexed
pub mod Started
pub mod Cleaning
pub mod Startup
pub mod Tokens
pub mod Resumable
use wayray.Base.{
  ℕ, ◌+◌, ◌-◌, ◌%◌, ◌^◌, ◌/◌, ◌*◌, min, max, String, Bool, true, false, Option, none, some, List,
  [], ◌∷◌, map, filter, length, ◌==◌, nat_eq, string_eq, ltb, leb, if◌then◌else◌,
}
use wayray.Base.Dict.{Dict, lookup, insert, erase, retain, values}
use wayray.Base.Int.{ℤ, pos, pos_part, ◌-ℤ◌}
use wayray.Session.Lifecycle
use wayray.Session.Lifecycle.{
  SessionId, SessionToken, SessionState, creating, active, suspended, destroyed, Session, Result,
  ok, err, new_session, is_suspend_expired, elapsed, nanos_per_sec,
}
use wayray.Session.Store.{Clock, PersistedSession, SessionStore}

-- `REMOTE_SESSION_TTL`
abbrev pub remote_session_ttl : ℕ
remote_session_ttl = 30 * nanos_per_sec

-- `DEFAULT_CAPACITY` of crates/wayray-protocol/src/cluster.rs
abbrev pub default_capacity : ℕ
default_capacity = 50

pub record RemoteEntry : Type 0 where
  pub server_id : String
  pub noted_at : ℕ

pub data SessionLocation : Type 0 where
  local : SessionId → SessionLocation
  remote : String → SessionLocation
  unknown : SessionLocation

pub record SessionRegistry (S : Type 0) : Type 0 where
  pub sessions : Dict SessionId Session
  pub token_index : Dict SessionToken SessionId
  pub next_id : ℕ
  pub local_server_id : String
  pub remote_sessions : Dict SessionToken RemoteEntry
  pub capacity : ℕ
  pub store : S

-- `u64` addition, which wraps in a release build.
abbrev pub wrap_u64 : ℕ → ℕ
wrap_u64 n = n % 2 ^ 64

abbrev pub is_destroyed : SessionState → Bool
is_destroyed destroyed = true
is_destroyed _ = false

-- `SessionState::Active | SessionState::Suspended`
abbrev pub is_resumable_state : SessionState → Bool
is_resumable_state active = true
is_resumable_state suspended = true
is_resumable_state _ = false

abbrev pub same_state : SessionState → SessionState → Bool
same_state creating creating = true
same_state active active = true
same_state suspended suspended = true
same_state destroyed destroyed = true
same_state _ _ = false

-- `SessionRegistry::new` with the store that `with_store` attaches
unfoldable pub new : {S : Type 0} → S → SessionRegistry S
new store = record {
  sessions = [];
  token_index = [];
  next_id = 1;
  local_server_id = "";
  remote_sessions = [];
  capacity = default_capacity;
  store = store;
}

-- `SessionRegistry::with_cluster`
unfoldable pub with_cluster : {S : Type 0} → String → ℕ → S → SessionRegistry S
unfolding new
with_cluster local_server_id capacity store = record (new store) {
  local_server_id = local_server_id;
  capacity = max capacity 1;
}

abbrev pub is_trusted : RemoteEntry → Clock → Bool
is_trusted e now = ltb (elapsed e.noted_at now.mono) remote_session_ttl

abbrev remote_location : Option RemoteEntry → Clock → SessionLocation
remote_location none now = unknown
remote_location (some e) now = if is_trusted e now then remote e.server_id else unknown

module _ {S : Type 0} where
  -- `note_remote_session`
  unfoldable pub note_remote_session :
      SessionRegistry S → SessionToken → String → Clock → SessionRegistry S
  note_remote_session r token server_id now = record r {
    remote_sessions =
        insert token (record { server_id = server_id; noted_at = now.mono }) r.remote_sessions;
  }

  -- `locate`
  unfoldable pub locate : SessionRegistry S → SessionToken → Clock → SessionLocation
  locate r token now = elim (lookup token r.token_index) [
    | some id ↦ local id
    | none ↦ remote_location (lookup token r.remote_sessions) now
  ]

  -- `prune_remote_sessions`
  unfoldable pub prune_remote_sessions : SessionRegistry S → Clock → SessionRegistry S
  prune_remote_sessions r now = record r {
    remote_sessions = retain (λ _ e. is_trusted e now) r.remote_sessions;
  }

  -- `get`
  unfoldable pub get : SessionRegistry S → SessionId → Option Session
  get r id = lookup id r.sessions

  -- `find_by_token`
  unfoldable pub find_by_token : SessionRegistry S → SessionToken → Option Session
  find_by_token r token = elim (lookup token r.token_index) [
    | none ↦ none
    | some id ↦ lookup id r.sessions
  ]

  -- `is_resumable`
  unfoldable pub is_resumable : SessionRegistry S → SessionToken → Option SessionId
  unfolding find_by_token
  is_resumable r token = elim (find_by_token r token) [
    | none ↦ none
    | some s ↦ if is_resumable_state s.state then some s.id else none
  ]

  -- `purge_destroyed`
  unfoldable pub purge_destroyed : SessionRegistry S → SessionRegistry S
  purge_destroyed r = record r {
    sessions = retain (λ _ s. if is_destroyed s.state then false else true) r.sessions;
  }

  -- `resumable_tokens`
  unfoldable pub resumable_tokens : SessionRegistry S → List SessionToken
  unfolding values
  resumable_tokens r =
      map (λ (s : Session). s.token) (filter (λ s. is_resumable_state s.state) (values r.sessions))

  -- `count_by_state`
  unfoldable pub count_by_state : SessionRegistry S → SessionState → ℕ
  unfolding values
  count_by_state r state = length (filter (λ s. same_state s.state state) (values r.sessions))

module _ {S : Type 0} ⦃st : SessionStore S⦄ where
  -- `create_session`
  unfoldable pub create_session :
      SessionRegistry S → SessionToken → Clock → SessionRegistry S × SessionId
  unfolding new_session
  create_session r token now =
      let id = r.next_id in
      let session = new_session id token r.local_server_id now.mono in
      (
        record r {
          next_id = wrap_u64 (r.next_id + 1);
          store = st.persist r.store session now;
          remote_sessions = erase token r.remote_sessions;
          token_index = insert token id r.token_index;
          sessions = insert id session r.sessions;
        },
        id,
      )

  -- the end of `transition`, once the session has taken its new state
  unfoldable pub settle :
      SessionRegistry S → SessionId → SessionState → Session → Clock → SessionRegistry S
  settle r id next session now =
      if is_destroyed next
      then record r {
        sessions = insert id session r.sessions;
        token_index = erase session.token r.token_index;
        store = st.remove r.store id;
      }
      else record r {
        sessions = insert id session r.sessions;
        store = st.persist r.store session now;
      }

  -- `transition`. The error leaves the registry as it was.
  unfoldable pub transition :
      SessionRegistry S → SessionId → SessionState → Clock → Result (SessionRegistry S)
  unfolding settle
  transition r id next now = elim (lookup id r.sessions) [
    | none ↦ err (record { session_id = id; from = destroyed; to = next })
    | some s ↦ elim (Lifecycle.transition s next now.mono) [
      | err e ↦ err e
      | ok s' ↦ ok (settle r id next s' now)
    ]
  ]

  unfoldable pub activate : SessionRegistry S → SessionId → Clock → Result (SessionRegistry S)
  unfolding transition
  activate r id = transition r id active

  unfoldable pub suspend : SessionRegistry S → SessionId → Clock → Result (SessionRegistry S)
  unfolding transition
  suspend r id = transition r id suspended

  unfoldable pub destroy : SessionRegistry S → SessionId → Clock → Result (SessionRegistry S)
  unfolding transition
  destroy r id = transition r id destroyed

  -- `if let Some(session) = self.sessions.get_mut(&id)`, a change to it, and the write to the store
  unfoldable pub update_session :
      SessionRegistry S → SessionId → (Session → Session) → Clock → SessionRegistry S
  update_session r id f now = elim (lookup id r.sessions) [
    | none ↦ r
    | some s ↦ record r {
      sessions = insert id (f s) r.sessions;
      store = st.persist r.store (f s) now;
    }
  ]

  -- `set_user`
  unfoldable pub set_user : SessionRegistry S → SessionId → String → Clock → SessionRegistry S
  unfolding update_session
  set_user r id user = update_session r id λ s. record s { user = some user }

  -- `set_suspend_timeout`
  unfoldable pub set_suspend_timeout : SessionRegistry S → SessionId → ℕ → Clock → SessionRegistry S
  unfolding update_session
  set_suspend_timeout r id timeout = update_session r id λ s. record s { suspend_timeout = timeout }

  -- A caller that logs an error and goes on.
  abbrev pub after : SessionRegistry S → Result (SessionRegistry S) → SessionRegistry S
  after r (ok r') = r'
  after r (err e) = r

  -- `for id in &expired { self.destroy(*id) … }`
  unfoldable pub destroy_all : SessionRegistry S → List SessionId → Clock → SessionRegistry S
  destroy_all r [] now = r
  destroy_all r (id ∷ ids) now = destroy_all (after r (destroy r id now)) ids now

  unfoldable pub expired_ids : SessionRegistry S → Clock → List SessionId
  unfolding values
  expired_ids r now =
      map (λ (s : Session). s.id) (filter (λ s. is_suspend_expired s now.mono) (values r.sessions))

  -- `cleanup_expired`
  unfoldable pub cleanup_expired : SessionRegistry S → Clock → SessionRegistry S × List SessionId
  unfolding destroy_all expired_ids
  cleanup_expired r now = let expired = expired_ids r now in (destroy_all r expired now, expired)
