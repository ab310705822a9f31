-- ===== src/Session/Registry/Restart.antt =====
-- A restart of the server: a fresh registry that is restored from the rows of an old one.
use wayray.Base.{
  nat_eq, string_eq, ℕ, ◌/◌, ◌≡◌, refl, ◌≢◌, inl, inr, true, ◌&&◌, Option, none, some, List, [],
  ◌∷◌, arith, ◌==◌, if◌then◌else◌, Option-cases,
}
use wayray.Base.Dict.{lookup, lookup-insert}
use wayray.Session.Lifecycle.{SessionId, SessionToken, suspended, destroyed, Session, nanos_per_sec}
use wayray.Session.Store.{Clock, PersistedSession, SessionStore, IsDurable, Durable}
use wayray.Session.Registry.{SessionRegistry, is_resumable_state, get, with_cluster, is_resumable}
use wayray.Session.Registry.Durability.{Agrees}
use wayray.Session.Registry.Restore.{
  restore_persisted, restore_rows, restore_row, restored_session, find_row, DistinctIds,
  get-restore_rows,
}

abbrev pub durable_of_row : PersistedSession → Durable
durable_of_row p = record {
  token = p.token;
  state = p.state;
  user = p.user;
  home_server = p.home_server;
  suspend_timeout_secs = p.suspend_timeout / nanos_per_sec;
}

abbrev pub durable_of? : Option PersistedSession → Option Durable
durable_of? none = none
durable_of? (some p) = some (durable_of_row p)

-- `load_all` returns one row for each id that the store has a row of.
pub record IsLoadable {S : Type 0} {st : SessionStore S} (law : IsDurable st) : Type 0 where
  pub distinct : (d : S) → DistinctIds (st.load_all d).1
  pub rows : (d : S) (id : SessionId) → durable_of? (find_row id (st.load_all d).1) ≡ law.row d id

-- The id of the last resumable row with a token.
last_token : SessionToken → List PersistedSession → Option SessionId
last_token t [] = none
last_token t (row ∷ rows) = elim (last_token t rows) [
  | some id ↦ some id
  | none ↦ if is_resumable_state row.state && row.token == t then some row.id else none
]

abbrev or_else : Option SessionId → Option SessionId → Option SessionId
or_else none o = o
or_else (some id) o = some id

abbrev IsRowOf : SessionToken → Option PersistedSession → Type 0
IsRowOf t none = ⊥
IsRowOf t (some row) = (row.token ≡ t) × (is_resumable_state row.state ≡ true)

abbrev HasId : SessionId → Option PersistedSession → Type 0
HasId id none = Unit
HasId id (some row) = row.id ≡ id

find_row-id : (id : SessionId) (rows : List PersistedSession) → HasId id (find_row id rows)
find_row-id id [] = tt
find_row-id id (row ∷ rows) = ground (arith, find_row-id id rows)

last_token-row :
    (t : SessionToken) (rows : List PersistedSession) (id : SessionId)
    → DistinctIds rows
    → last_token t rows ≡ some id
    → IsRowOf t (find_row id rows)
unfolding last_token
last_token-row t [] id u h = cc
last_token-row t (row ∷ rows) id u h = elim (Option-cases (last_token t rows)) [
  | inl e ↦ ground arith
  | inr (j, e) ↦ ground (arith, last_token-row t rows j u.1 e)
]

row-last_token :
    (t : SessionToken) (rows : List PersistedSession) (id : SessionId)
    → IsRowOf t (find_row id rows)
    → last_token t rows ≢ none
unfolding last_token
row-last_token t [] id h e = h
row-last_token t (row ∷ rows) id h e = ground (arith, row-last_token t rows id)

abbrev pub Resumes : SessionId → Session → Option Session → Clock → Type 0
Resumes id s none now = ⊥
Resumes id s (some s') now =
    (s'.id ≡ id)
    × (s'.token ≡ s.token)
    × (s'.user ≡ s.user)
    × (s'.home_server ≡ s.home_server)
    × (s'.suspend_timeout / nanos_per_sec ≡ s.suspend_timeout / nanos_per_sec)
    × (s'.state ≡ suspended)
    × (s'.suspended_at ≡ some now.mono)

-- What a session is after the restart.
abbrev pub AfterRestart : SessionId → Option Session → Option Session → Clock → Type 0
AfterRestart id none s? now = s? ≡ none
AfterRestart id (some s) s? now =
    if is_resumable_state s.state then Resumes id s s? now else s? ≡ none

module _ {S : Type 0} where
  -- No two live sessions have one token.
  abbrev pub TokensDiffer : SessionRegistry S → Type 0
  TokensDiffer r =
      (i j : SessionId) (s t : Session)
      → get r i ≡ some s
      → get r j ≡ some t
      → s.state ≢ destroyed
      → t.state ≢ destroyed
      → s.token ≡ t.token
      → i ≡ j

module _ {S : Type 0} ⦃st : SessionStore S⦄ where
  -- the registry of the restarted server
  abbrev pub restarted : SessionRegistry S → Clock → SessionRegistry S
  restarted r now = (restore_persisted (with_cluster r.local_server_id r.capacity r.store) now).0

  index-restore_rows :
      (r : SessionRegistry S) (n : ℕ) (rows : List PersistedSession) (now : Clock)
      (t : SessionToken)
      → lookup t (restore_rows (r, n) rows now).0.token_index
        ≡ or_else (last_token t rows) (lookup t r.token_index)
  unfolding restore_rows restore_row last_token
  index-restore_rows r n [] now t = refl
  index-restore_rows r n (row ∷ rows) now t = ground (
    arith,
    index-restore_rows (restore_row (r, n) row now).0 (restore_row (r, n) row now).1 rows now t,
    lookup-insert t row.token row.id r.token_index,
  )

module _ {S : Type 0} ⦃st : SessionStore S⦄ (law : IsDurable st) (load : IsLoadable law) where
  booted : SessionRegistry S → SessionRegistry S
  booted r = record (with_cluster r.local_server_id r.capacity r.store) {
    store = (st.load_all r.store).0;
  }

  -- With a store that keeps its contract and has the rows of the sessions, a session that was
  -- active or suspended is there again after a restart, suspended since the restart, under its id
  -- and with its token, user, home server and timeout in whole seconds; and no other session is
  -- there.
  pub get-restarted :
      (r : SessionRegistry S) (now : Clock) (id : SessionId)
      → Agrees law r
      → AfterRestart id (get r id) (get (restarted r now) id) now
  unfolding restore_persisted get with_cluster restored_session lookup booted
  get-restarted r now id h = ground (
    arith,
    h id,
    load.rows r.store id,
    find_row-id id (st.load_all r.store).1,
    get-restore_rows (booted r) 0 (st.load_all r.store).1 now id (load.distinct r.store),
  )

  row-session :
      (r : SessionRegistry S) (t : SessionToken) (id : SessionId)
      → Agrees law r
      → IsRowOf t (find_row id (st.load_all r.store).1)
      → (s : Session) × (get r id ≡ some s) × (s.token ≡ t) × (is_resumable_state s.state ≡ true)
  unfolding get
  row-session r t id h w = elim (Option-cases (lookup id r.sessions)) [
    | inl e ↦ absurd (ground (arith, h id, load.rows r.store id))
    | inr (s, e) ↦ (
      s,
      e,
      ground (arith, h id, load.rows r.store id),
      ground (arith, h id, load.rows r.store id),
    )
  ]

  session-row :
      (r : SessionRegistry S) (id : SessionId) (s : Session)
      → Agrees law r
      → get r id ≡ some s
      → is_resumable_state s.state ≡ true
      → IsRowOf s.token (find_row id (st.load_all r.store).1)
  unfolding get
  session-row r id s h e alive = ground (arith, h id, load.rows r.store id)

  restarted-index :
      (r : SessionRegistry S) (now : Clock) (t : SessionToken)
      → lookup t (restarted r now).token_index ≡ or_else (last_token t (st.load_all r.store).1) none
  unfolding restore_persisted with_cluster booted lookup
  restarted-index r now t = index-restore_rows (booted r) 0 (st.load_all r.store).1 now t

  restarted_token :
      (r : SessionRegistry S) (now : Clock) (id : SessionId) (s : Session)
      → Agrees law r
      → TokensDiffer r
      → get r id ≡ some s
      → is_resumable_state s.state ≡ true
      → lookup s.token (restarted r now).token_index ≡ some id
  restarted_token r now id s h differ e alive =
      elim (Option-cases (last_token s.token (st.load_all r.store).1)) [
        | inl f ↦
            absurd
              (row-last_token s.token (st.load_all r.store).1 id (session-row r id s h e alive) f)
        | inr (j, f) ↦
            let rows = (st.load_all r.store).1 in
            let (t, et, same, up) =
              row-session r s.token j h (last_token-row s.token rows j (load.distinct r.store) f) in
            let one : j ≡ id = differ j id t s et e (λ d. ground arith) (λ d. ground arith) same in
            ground (arith, restarted-index r now s.token)
      ]

  -- With a store that keeps its contract and has the rows of the sessions, after a restart, the
  -- token of every session that was active or suspended resumes the session of the same id, if the
  -- tokens of the sessions that were not destroyed differ.
  pub is_resumable-restarted :
      (r : SessionRegistry S) (now : Clock) (id : SessionId) (s : Session)
      → Agrees law r
      → TokensDiffer r
      → get r id ≡ some s
      → is_resumable_state s.state ≡ true
      → is_resumable (restarted r now) s.token ≡ some id
  unfolding is_resumable get
  is_resumable-restarted r now id s h differ e alive =
      ground (arith, restarted_token r now id s h differ e alive, get-restarted r now id h)
