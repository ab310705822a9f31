-- ===== src/Session/Registry/Restore.antt =====
-- `restore_persisted` and `enable_persistence`: loading the registry from its store at startup.
use wayray.Base.{
  nat_eq, string_eq, ℕ, ◌+◌, ◌-◌, ◌*◌, ◌^◌, ◌≡◌, refl, min, max, Option, none, some, List, [], ◌∷◌,
  arith, leb, ◌==◌, if◌then◌else◌,
}
use wayray.Base.Dict.{insert, lookup-insert}
use wayray.Base.Int.{ℤ, pos, pos_part, ◌-ℤ◌}
use wayray.Session.Lifecycle.{SessionId, suspended, Session, nanos_per_sec}
use wayray.Session.Store.{Clock, PersistedSession, SessionStore}
use wayray.Session.Registry.{SessionRegistry, is_resumable_state, wrap_u64, get}

abbrev i64_max : ℕ
i64_max = 2 ^ 63 - 1

-- `now_epoch.saturating_sub(row.created_at_epoch).max(0) as u64`
unfoldable pub age_secs : Clock → ℤ → ℕ
age_secs now created = min i64_max (pos_part (pos now.epoch -ℤ created))

-- `Instant::now().checked_sub(age).unwrap_or_else(Instant::now)`
unfoldable pub created_instant : Clock → ℤ → ℕ
unfolding age_secs
created_instant now created =
    let age = age_secs now created * nanos_per_sec in
    if leb age now.mono then now.mono - age else now.mono

unfoldable pub restored_session : PersistedSession → Clock → Session
unfolding created_instant
restored_session row now = record {
  id = row.id;
  token = row.token;
  state = suspended;
  created_at = created_instant now row.created_at_epoch;
  suspended_at = some now.mono;
  suspend_timeout = row.suspend_timeout;
  user = row.user;
  home_server = row.home_server;
}

abbrev pub find_row : SessionId → List PersistedSession → Option PersistedSession
find_row id [] = none
find_row id (row ∷ rows) = if row.id == id then some row else find_row id rows

abbrev pub restored? : Option PersistedSession → Clock → Option Session → Option Session
restored? none now old = old
restored? (some row) now old =
    if is_resumable_state row.state then some (restored_session row now) else old

-- The id is the table's primary key.
abbrev pub DistinctIds : List PersistedSession → Type 0
DistinctIds [] = Unit
DistinctIds (row ∷ rows) = (find_row row.id rows ≡ none) × DistinctIds rows

module _ {S : Type 0} ⦃st : SessionStore S⦄ where
  -- one round of the loop: the registry, and the number of sessions restored
  unfoldable pub restore_row :
      SessionRegistry S × ℕ → PersistedSession → Clock → SessionRegistry S × ℕ
  unfolding restored_session
  restore_row (r, restored) row now =
      let session = restored_session row now in
      let next_id = max r.next_id (wrap_u64 (row.id + 1)) in
      if is_resumable_state row.state
      then (
        record r {
          next_id = next_id;
          store = st.persist r.store session now;
          token_index = insert row.token row.id r.token_index;
          sessions = insert row.id session r.sessions;
        },
        restored + 1,
      )
      else (record r { next_id = next_id; store = st.remove r.store row.id }, restored)

  unfoldable pub restore_rows :
      SessionRegistry S × ℕ → List PersistedSession → Clock → SessionRegistry S × ℕ
  restore_rows acc [] now = acc
  restore_rows acc (row ∷ rows) now = restore_rows (restore_row acc row now) rows now

  -- `restore_persisted`
  unfoldable pub restore_persisted : SessionRegistry S → Clock → SessionRegistry S × ℕ
  unfolding restore_rows
  restore_persisted r now =
      let (d, rows) = st.load_all r.store in restore_rows (record r { store = d }, 0) rows now

  -- `enable_persistence`, with what `open_store` returned
  unfoldable pub enable_persistence : SessionRegistry S → Option S → Clock → SessionRegistry S
  unfolding restore_persisted
  enable_persistence r none now = r
  enable_persistence r (some store) now = (restore_persisted (record r { store = store }) now).0

  get-restore_row :
      (r : SessionRegistry S) (n : ℕ) (row : PersistedSession) (now : Clock) (id : SessionId)
      → get (restore_row (r, n) row now).0 id
        ≡ (if row.id == id then restored? (some row) now (get r id) else get r id)
  unfolding restore_row get
  get-restore_row r n row now id =
      ground (arith, lookup-insert id row.id (restored_session row now) r.sessions)

  -- After the rows, whose ids differ, the registry has a session for each resumable row, and what it
  -- had before elsewhere.
  pub get-restore_rows :
      (r : SessionRegistry S) (n : ℕ) (rows : List PersistedSession) (now : Clock) (id : SessionId)
      → DistinctIds rows
      → get (restore_rows (r, n) rows now).0 id ≡ restored? (find_row id rows) now (get r id)
  unfolding restore_rows
  get-restore_rows r n [] now id u = refl
  get-restore_rows r n (row ∷ rows) now id u = ground (
    arith,
    get-restore_rows (restore_row (r, n) row now).0 (restore_row (r, n) row now).1 rows now id u.1,
    get-restore_row r n row now id,
  )
