-- ===== src/Session/Lifecycle.antt =====
-- crates/wrsrvd/src/session/types.rs: a session and its lifecycle.
-- An `Instant` is a number of nanoseconds on the monotonic clock, a `Duration` a number of
-- nanoseconds. A method that reads `Instant::now()` takes the reading as its argument `now`.
pub mod Diagram
use wayray.Base.{ℕ, ◌-◌, ◌*◌, String, Bool, true, false, Option, none, some, leb, if◌then◌else◌}

-- `SessionId(u64)`
abbrev pub SessionId : Type 0
SessionId = ℕ

-- `SessionToken(String)`
abbrev pub SessionToken : Type 0
SessionToken = String

pub data SessionState : Type 0 where
  creating active suspended destroyed : SessionState

pub SessionState-discrete : Discrete SessionState
SessionState-discrete = hlevel

unfoldable pub can_transition_to : SessionState → SessionState → Bool
can_transition_to creating active = true
can_transition_to creating destroyed = true
can_transition_to active suspended = true
can_transition_to active destroyed = true
can_transition_to suspended active = true
can_transition_to suspended destroyed = true
can_transition_to _ _ = false

abbrev pub is_suspended : SessionState → Bool
is_suspended suspended = true
is_suspended _ = false

pub record Session : Type 0 where
  pub id : SessionId
  pub token : SessionToken
  pub state : SessionState
  pub created_at : ℕ
  pub suspended_at : Option ℕ
  pub suspend_timeout : ℕ
  pub user : Option String
  pub home_server : String

pub record SessionTransitionError : Type 0 where
  pub session_id : SessionId
  pub from : SessionState
  pub to : SessionState

pub data Result {ℓ} (A : Type ℓ) : Type ℓ where
  ok : A → Result A
  err : SessionTransitionError → Result A

abbrev pub nanos_per_sec : ℕ
nanos_per_sec = 1000000000

-- `Session::new`, at time `now`
unfoldable pub new_session : SessionId → SessionToken → String → ℕ → Session
new_session id token home_server now = record {
  id = id;
  token = token;
  state = creating;
  created_at = now;
  suspended_at = none;
  suspend_timeout = 24 * 60 * 60 * nanos_per_sec;
  user = none;
  home_server = home_server;
}

-- `Session::transition`. The error leaves the session as it was.
unfoldable pub transition : Session → SessionState → ℕ → Result Session
unfolding can_transition_to
transition s next now =
    if can_transition_to s.state next
    then ok (record s { state = next; suspended_at = if is_suspended next then some now else none })
    else err (record { session_id = s.id; from = s.state; to = next })

-- `Instant::elapsed`, which is 0 for an instant that has not come yet
abbrev pub elapsed : ℕ → ℕ → ℕ
elapsed t now = now - t

abbrev timed_out : Option ℕ → ℕ → ℕ → Bool
timed_out none timeout now = false
timed_out (some t) timeout now = leb timeout (elapsed t now)

-- `Session::is_suspend_expired`
unfoldable pub is_suspend_expired : Session → ℕ → Bool
is_suspend_expired s now =
    if is_suspended s.state then timed_out s.suspended_at s.suspend_timeout now else false
