-- ===== src/Session/Lifecycle/Diagram.antt =====
-- The lifecycle diagram of ADR-004 as a step relation, and histories of attempted transitions.
use wayray.Base.{ℕ, ◌≤◌, ◌≡◌, refl, ◌≢◌, ◌↔◌, ◌⊎◌, inl, inr, true, none, some, List, [], ◌∷◌, arith}
use wayray.Session.Lifecycle.{
  SessionState, creating, active, suspended, destroyed, Session, Result, ok, err,
  SessionTransitionError, transition, is_suspend_expired, elapsed,
}

infix 40 ◌⟶◌ ◌⟶*◌
pub data ◌⟶◌ : SessionState → SessionState → Type 0 where
  activate : creating ⟶ active
  suspend : active ⟶ suspended
  resume : suspended ⟶ active
  abort : creating ⟶ destroyed
  close : active ⟶ destroyed
  expire : suspended ⟶ destroyed

pub data ◌⟶*◌ : SessionState → SessionState → Type 0 where
  here : {s : SessionState} → s ⟶* s
  next : {s t u : SessionState} → s ⟶ t → t ⟶* u → s ⟶* u

ruleset edges = (activate, suspend, resume, abort, close, expire)

pub Result-cases {ℓ} :
    {A : Type ℓ} (m : Result A)
    → ((e : SessionTransitionError) × (m ≡ err e)) ⊎ ((a : A) × (m ≡ ok a))
Result-cases (ok a) = inr (a, refl)
Result-cases (err e) = inl (e, refl)

pub transition_edge :
    (s : Session) (to : SessionState) (now : ℕ) {s' : Session}
    → transition s to now ≡ ok s'
    → (s.state ⟶ to) × (s'.state ≡ to)
unfolding transition
transition_edge s to now h = grind (arith, edges)

edge_transition :
    (s : Session) {from to : SessionState} (now : ℕ)
    → from ⟶ to
    → s.state ≡ from
    → (s' : Session) × (transition s to now ≡ ok s')
unfolding transition
edge_transition s now activate h = (record s { state = active; suspended_at = none }, ground arith)
edge_transition s now suspend h =
    (record s { state = suspended; suspended_at = some now }, ground arith)
edge_transition s now resume h = (record s { state = active; suspended_at = none }, ground arith)
edge_transition s now abort h = (record s { state = destroyed; suspended_at = none }, ground arith)
edge_transition s now close h = (record s { state = destroyed; suspended_at = none }, ground arith)
edge_transition s now expire h = (record s { state = destroyed; suspended_at = none }, ground arith)

-- `Session::transition` succeeds exactly along the edges of the lifecycle diagram.
pub transition_iff_edge :
    (s : Session) (to : SessionState) (now : ℕ)
    → ((s' : Session) × (transition s to now ≡ ok s')) ↔ (s.state ⟶ to)
transition_iff_edge s to now =
    (λ h. (transition_edge s to now h.1).0, λ e. edge_transition s now e refl)

-- A caller that goes on after an error.
abbrev pub after : Session → Result Session → Session
after s (ok s') = s'
after s (err e) = s

-- The attempts of a history, each with its time.
pub attempts : Session → List (SessionState × ℕ) → Session
attempts s [] = s
attempts s ((to, now) ∷ rest) = attempts (after s (transition s to now)) rest

-- A session has a suspension time exactly while it is suspended.
pub record IsTimed (s : Session) : Type 0 where
  pub timed : s.state ≡ suspended → s.suspended_at ≢ none
  pub untimed : s.state ≢ suspended → s.suspended_at ≡ none

-- Two records of one session at different times.
pub record SameSession (s t : Session) : Type 0 where
  pub id : t.id ≡ s.id
  pub token : t.token ≡ s.token
  pub created_at : t.created_at ≡ s.created_at
  pub suspend_timeout : t.suspend_timeout ≡ s.suspend_timeout
  pub user : t.user ≡ s.user
  pub home_server : t.home_server ≡ s.home_server

pub transition-IsTimed :
    (s : Session) (to : SessionState) (now : ℕ) {s' : Session}
    → transition s to now ≡ ok s'
    → IsTimed s'
unfolding transition
transition-IsTimed s to now h = ground arith

pub transition-SameSession :
    (s : Session) (to : SessionState) (now : ℕ) {s' : Session}
    → transition s to now ≡ ok s'
    → SameSession s s'
unfolding transition
transition-SameSession s to now h = ground arith

attempt-⟶ :
    (s : Session) (to : SessionState) (now : ℕ)
    → (s ≡ after s (transition s to now)) ⊎ (s.state ⟶ (after s (transition s to now)).state)
unfolding transition
attempt-⟶ s to now = grind (arith, edges)

attempt-IsTimed :
    (s : Session) (to : SessionState) (now : ℕ)
    → IsTimed s
    → IsTimed (after s (transition s to now))
unfolding transition
attempt-IsTimed s to now h = ground arith

attempt-SameSession :
    (s : Session) (to : SessionState) (now : ℕ) → SameSession s (after s (transition s to now))
unfolding transition
attempt-SameSession s to now = ground arith

-- After any history of attempted transitions, refused ones included, a session that had a
-- suspension time exactly if it was suspended still has one exactly then, and its id, token,
-- creation time, timeout, user and home server are the original ones.
pub attempts-IsTimed :
    (s : Session) (history : List (SessionState × ℕ))
    → IsTimed s
    → IsTimed (attempts s history) × SameSession s (attempts s history)
unfolding attempts
attempts-IsTimed s [] h = (h, ground arith)
attempts-IsTimed s ((to, now) ∷ rest) h = ground (
  arith,
  attempts-IsTimed (after s (transition s to now)) rest (attempt-IsTimed s to now h),
  attempt-SameSession s to now,
)

⟶*-step :
    {s t : Session} {u : SessionState} → (s ≡ t) ⊎ (s.state ⟶ t.state) → t.state ⟶* u → s.state ⟶* u
⟶*-step (inl e) r = rw e r
⟶*-step (inr e) r = next e r

-- Every history of attempted transitions follows a path of the lifecycle diagram.
pub attempts-⟶* :
    (s : Session) (history : List (SessionState × ℕ)) → s.state ⟶* (attempts s history).state
unfolding attempts
attempts-⟶* s [] = here
attempts-⟶* s ((to, now) ∷ rest) =
    ⟶*-step {s = s} {t = after s (transition s to now)} (attempt-⟶ s to now)
      (attempts-⟶* (after s (transition s to now)) rest)

destroyed_attempt :
    (s : Session) (to : SessionState) (now : ℕ)
    → s.state ≡ destroyed
    → after s (transition s to now) ≡ s
unfolding transition
destroyed_attempt s to now h = ground arith

-- A destroyed session is final: no history of attempts changes it.
pub attempts-destroyed :
    (s : Session) (history : List (SessionState × ℕ)) → s.state ≡ destroyed → attempts s history ≡ s
unfolding attempts
attempts-destroyed s [] h = refl
attempts-destroyed s ((to, now) ∷ rest) h =
    rw (destroyed_attempt s to now h) (attempts-destroyed s rest h)

-- A session counts as expired exactly if it is suspended, was suspended at a known time, and that
-- time lies at least its timeout in the past.
pub is_suspend_expired_iff :
    (s : Session) (now : ℕ)
    → (is_suspend_expired s now ≡ true) ↔ (
        (s.state ≡ suspended)
        × ((t : ℕ) × (s.suspended_at ≡ some t) × (s.suspend_timeout ≤ elapsed t now)))
unfolding is_suspend_expired
is_suspend_expired_iff s now = (λ h. ground arith, λ h. ground arith)
