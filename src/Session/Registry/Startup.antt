-- ===== src/Session/Registry/Startup.antt =====
-- The registry of crates/wrsrvd/src/session/registry.rs from the start of the server on: it is made,
-- restored from the rows of its store if one is opened, and then called.
use wayray.Base.{
  nat_eq, string_eq, ℕ, ◌+◌, ◌<◌, ◌≤◌, ◌^◌, ◌≡◌, refl, inl, inr, Option, none, some, String, List,
  [], ◌∷◌, arith, length, Bool-cases,
}
use wayray.Base.Dict.{lookup, lookup-insert, insert-NodupKeys}
use wayray.Session.Lifecycle.{SessionId}
use wayray.Session.Store.{Clock, PersistedSession, SessionStore}
use wayray.Session.Registry.{SessionRegistry, is_resumable_state, with_cluster}
use wayray.Session.Registry.Restore.{
  restore_row, restore_rows, restore_persisted, enable_persistence, restored_session, find_row,
  DistinctIds,
}
use wayray.Session.Registry.Invariant.{Inv}
use wayray.Session.Registry.History.{Command, run, run-Inv, with_cluster-Inv}

abbrev pub Below : ℕ → List PersistedSession → Type 0
Below n [] = Unit
Below n (row ∷ rows) = (row.id < n) × Below n rows

module _ {S : Type 0} ⦃st : SessionStore S⦄ where
  -- no row is of a session that is there already
  Fresh : SessionRegistry S → List PersistedSession → Type 0
  Fresh r rows =
      (id : SessionId) (row : PersistedSession)
      → find_row id rows ≡ some row
      → lookup id r.sessions ≡ none

  restore_row-Inv :
      (r : SessionRegistry S) (k : ℕ) (row : PersistedSession) (now : Clock)
      → lookup row.id r.sessions ≡ none
      → row.id + 1 < 2 ^ 64
      → Inv r
      → Inv (restore_row (r, k) row now).0
  unfolding restore_row restored_session
  restore_row-Inv r k row now fresh room v = elim (Bool-cases (is_resumable_state row.state)) [
    | inl e ↦ rw e (record {
      nodup = insert-NodupKeys row.id _ r.sessions v.nodup;
      nodup_remote = v.nodup_remote;
      filed = λ id s h.
          ground
            (arith, lookup-insert id row.id (restored_session row now) r.sessions, v.filed id s);
      bound = λ t id h. ground (
        arith,
        lookup-insert t row.token row.id r.token_index,
        lookup-insert id row.id (restored_session row now) r.sessions,
        v.bound t id,
      );
    })
    | inr e ↦ rw e (record {
      nodup = v.nodup;
      nodup_remote = v.nodup_remote;
      filed = λ id s h. ground (arith, v.filed id s);
      bound = λ t id h. v.bound t id h;
    })
  ]

  restore_row-next_id :
      (r : SessionRegistry S) (k n : ℕ) (row : PersistedSession) (now : Clock)
      → r.next_id ≤ n
      → row.id < n
      → n < 2 ^ 64
      → (restore_row (r, k) row now).0.next_id ≤ n
  unfolding restore_row
  restore_row-next_id r k n row now few less room = ground arith

  restore_row-Fresh :
      (r : SessionRegistry S) (k : ℕ) (row : PersistedSession) (rows : List PersistedSession)
      (now : Clock)
      → DistinctIds (row ∷ rows)
      → Fresh r (row ∷ rows)
      → Fresh (restore_row (r, k) row now).0 rows
  unfolding restore_row Fresh
  restore_row-Fresh r k row rows now (once, distinct) fresh id p e =
      ground
        (arith, once, fresh id p, lookup-insert id row.id (restored_session row now) r.sessions)

  restore_rows-Inv :
      (r : SessionRegistry S) (k n : ℕ) (rows : List PersistedSession) (now : Clock)
      → DistinctIds rows
      → Below n rows
      → Fresh r rows
      → r.next_id ≤ n
      → n < 2 ^ 64
      → Inv r
      → Inv (restore_rows (r, k) rows now).0 × ((restore_rows (r, k) rows now).0.next_id ≤ n)
  unfolding restore_rows Fresh
  restore_rows-Inv r k n [] now distinct below fresh few room v = (v, few)
  restore_rows-Inv r k n (row ∷ rows) now distinct below fresh few room v =
      let (r', k') = restore_row (r, k) row now in
      restore_rows-Inv r' k' n rows now distinct.1 below.1
        (restore_row-Fresh r k row rows now distinct fresh)
        (restore_row-next_id r k n row now few below.0 room) room
        (restore_row-Inv r k row now (fresh row.id row (ground arith)) (omega (arith, below)) v)

  -- the rows of the store that is opened, if one is
  abbrev pub rows_of : Option S → List PersistedSession
  rows_of none = []
  rows_of (some store) = (st.load_all store).1

  enable_persistence-Inv :
      (server : String) (capacity n : ℕ) (d : S) (opened : Option S) (now : Clock)
      → DistinctIds (rows_of opened)
      → Below n (rows_of opened)
      → 1 ≤ n
      → n < 2 ^ 64
      → let r = enable_persistence (with_cluster server capacity d) opened now in
        Inv r × (r.next_id ≤ n)
  unfolding enable_persistence restore_persisted with_cluster Fresh lookup
  enable_persistence-Inv server capacity n d none now distinct below some_id room =
      (with_cluster-Inv server capacity d, some_id)
  enable_persistence-Inv server capacity n d (some store) now distinct below some_id room =
      restore_rows-Inv _ 0 n (st.load_all store).1 now distinct below (λ id p e. refl) some_id room
        (with_cluster-Inv server capacity _)

  -- From the start of the server on, with a store or without one, the registry is well formed after
  -- every history of calls: the sessions are filed once each under their own issued ids, with a
  -- suspension time exactly while suspended, and every token of the index leads to a session with
  -- that token that is not destroyed. The rows of the store have different ids below `n`, and at
  -- least as many ids are left from `n` on as there are calls.
  pub run-enable_persistence-Inv :
      (server : String) (capacity n : ℕ) (d : S) (opened : Option S) (now : Clock)
      (cs : List (Command × Clock))
      → DistinctIds (rows_of opened)
      → Below n (rows_of opened)
      → 1 ≤ n
      → n + length cs < 2 ^ 64
      → Inv (run (enable_persistence (with_cluster server capacity d) opened now) cs)
  run-enable_persistence-Inv server capacity n d opened now cs distinct below some_id room =
      let (v, few) =
        enable_persistence-Inv server capacity n d opened now distinct below some_id
          (omega arith) in
      run-Inv (enable_persistence (with_cluster server capacity d) opened now) cs (omega arith) v
