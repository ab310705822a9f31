-- ===== src/Session/Store.antt =====
-- crates/wrsrvd/src/session/persistence.rs: the interface of the durable store, its rows, and the
-- conversions at its boundary. The registry takes the store as an instance.
use wayray.Base.{
  ℕ, ◌/◌, ◌≡◌, String, Option, none, some, List, [], ◌==◌, nat_eq, string_eq, if◌then◌else◌,
}
use wayray.Base.Int.{ℤ, pos, ◌-ℤ◌}
use wayray.Session.Lifecycle.{
  SessionId, SessionState, creating, active, suspended, destroyed, Session, elapsed, nanos_per_sec,
}

-- One reading of both clocks: `Instant::now()` in nanoseconds, and the seconds of
-- `SystemTime::now()` since the Unix epoch.
pub record Clock : Type 0 where
  pub mono : ℕ
  pub epoch : ℕ

pub record PersistedSession : Type 0 where
  pub id : ℕ
  pub token : String
  pub state : SessionState
  pub user : Option String
  pub home_server : String
  pub created_at_epoch : ℤ
  pub suspend_timeout : ℕ

-- `SessionStore`: the operations on the store's own state.
pub record SessionStore (S : Type 0) : Type 0 where
  pub persist : S → Session → Clock → S
  pub remove : S → SessionId → S
  pub load_all : S → S × List PersistedSession

-- What a row keeps of a session, but for the two wall-clock times.
pub record Durable : Type 0 where
  pub token : String
  pub state : SessionState
  pub user : Option String
  pub home_server : String
  pub suspend_timeout_secs : ℕ

abbrev pub durable : Session → Durable
durable s = record {
  token = s.token;
  state = s.state;
  user = s.user;
  home_server = s.home_server;
  suspend_timeout_secs = s.suspend_timeout / nanos_per_sec;
}

-- The contract in the trait's comments: `persist` inserts or updates the session's row, `remove`
-- deletes it, and the operations apply in call order.
pub record IsDurable {S : Type 0} (st : SessionStore S) : Type 0 where
  pub row : S → SessionId → Option Durable
  pub row-persist :
      (d : S) (s : Session) (now : Clock) (id : SessionId)
      → row (st.persist d s now) id ≡ (if s.id == id then some (durable s) else row d id)
  pub row-remove :
      (d : S) (gone id : SessionId)
      → row (st.remove d gone) id ≡ (if gone == id then none else row d id)

-- `NullStore`
unfoldable pub null_store : SessionStore (Unit {0})
null_store = record { persist = λ d s now. d; remove = λ d id. d; load_all = λ d. (d, []) }

-- `SessionRecord`, whose fields are those of a row of the table
pub record SessionRecord : Type 0 where
  pub id : ℕ
  pub token : String
  pub state : String
  pub user : Option String
  pub home_server : String
  pub created_at : ℤ
  pub suspended_at : Option ℤ
  pub suspend_timeout_secs : ℕ

unfoldable pub state_str : SessionState → String
state_str creating = "creating"
state_str active = "active"
state_str suspended = "suspended"
state_str destroyed = "destroyed"

-- `parse_state`
unfoldable pub parse_state : String → Option SessionState
parse_state s =
    if s == "creating"
    then some creating
    else if s == "active"
    then some active
    else if s == "suspended"
    then some suspended
    else if s == "destroyed"
    then some destroyed
    else none

abbrev epoch_of : Clock → ℕ → ℤ
epoch_of now t = pos now.epoch -ℤ pos (elapsed t now.mono / nanos_per_sec)

abbrev epoch_of? : Clock → Option ℕ → Option ℤ
epoch_of? now none = none
epoch_of? now (some t) = some (epoch_of now t)

-- `record_of`. Ids and whole seconds are below 2 ^ 63, so the casts to `i64` keep them.
unfoldable pub record_of : Session → Clock → SessionRecord
unfolding state_str
record_of s now = record {
  id = s.id;
  token = s.token;
  state = state_str s.state;
  user = s.user;
  home_server = s.home_server;
  created_at = epoch_of now s.created_at;
  suspended_at = epoch_of? now s.suspended_at;
  suspend_timeout_secs = s.suspend_timeout / nanos_per_sec;
}
