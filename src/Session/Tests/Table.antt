-- ===== src/Session/Tests/Table.antt =====
-- A concrete store for the tests: the rows of the table, the newest first.
use wayray.Base.{
  nat_eq, string_eq, ◌/◌, ◌*◌, ◌≡◌, refl, none, List, [], ◌∷◌, ◌==◌, if◌then◌else◌, arith,
}
use wayray.Base.Int.{pos}
use wayray.Session.Lifecycle.{SessionId, Session, nanos_per_sec}
use wayray.Session.Store.{Clock, PersistedSession, SessionStore, IsDurable}
use wayray.Session.Registry.Restore.{find_row, DistinctIds}
use wayray.Session.Registry.Restart.{IsLoadable, durable_of?}

abbrev pub Rows : Type 0
Rows = List PersistedSession

unfoldable pub remove_row : Rows → SessionId → Rows
remove_row [] id = []
remove_row (row ∷ rows) id = if row.id == id then remove_row rows id else row ∷ remove_row rows id

abbrev pub row_of_session : Session → Clock → PersistedSession
row_of_session s now = record {
  id = s.id;
  token = s.token;
  state = s.state;
  user = s.user;
  home_server = s.home_server;
  created_at_epoch = pos now.epoch;
  suspend_timeout = s.suspend_timeout / nanos_per_sec * nanos_per_sec;
}

unfoldable pub newest : Rows → Rows
newest [] = []
newest (row ∷ rows) = row ∷ remove_row (newest rows) row.id

instance unfoldable pub table : SessionStore Rows
table = record {
  persist = λ d s now. row_of_session s now ∷ d;
  remove = λ d id. remove_row d id;
  load_all = λ d. (d, newest d);
}

pub find_row-remove_row :
    (rows : Rows) (gone id : SessionId)
    → find_row id (remove_row rows gone) ≡ (if gone == id then none else find_row id rows)
unfolding remove_row
find_row-remove_row [] gone id = ground arith
find_row-remove_row (row ∷ rows) gone id = ground (arith, find_row-remove_row rows gone id)

unfoldable pub table_law : IsDurable table
unfolding table
table_law = record {
  row = λ d id. durable_of? (find_row id d);
  row-persist = λ d s now id. ground arith;
  row-remove = λ d gone id. ground (arith, find_row-remove_row d gone id);
}

remove_row-DistinctIds :
    (rows : Rows) (gone : SessionId) → DistinctIds rows → DistinctIds (remove_row rows gone)
unfolding remove_row
remove_row-DistinctIds [] gone u = tt
remove_row-DistinctIds (row ∷ rows) gone u =
    ground (arith, remove_row-DistinctIds rows gone u.1, find_row-remove_row rows gone row.id)

newest-DistinctIds : (rows : Rows) → DistinctIds (newest rows)
unfolding newest
newest-DistinctIds [] = tt
newest-DistinctIds (row ∷ rows) = (
  ground (arith, find_row-remove_row (newest rows) row.id row.id),
  remove_row-DistinctIds (newest rows) row.id (newest-DistinctIds rows),
)

find_row-newest : (rows : Rows) (id : SessionId) → find_row id (newest rows) ≡ find_row id rows
unfolding newest
find_row-newest [] id = refl
find_row-newest (row ∷ rows) id =
    ground (arith, find_row-newest rows id, find_row-remove_row (newest rows) row.id id)

pub table_load : IsLoadable table_law
unfolding table table_law
table_load = record {
  distinct = λ d. newest-DistinctIds d;
  rows = λ d id. ground (arith, find_row-newest d id);
}
