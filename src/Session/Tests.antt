-- ===== src/Session/Tests.antt =====
-- Tests of the sessions at concrete registries.
mod Table
use wayray.Base.{
  nat_eq, string_eq, ℕ, ◌+◌, ◌*◌, ◌/◌, ◌≡◌, ◌≢◌, ◌↔◌, ◌⊎◌, ◌<◌, ◌≤◌, ◌^◌, refl, inl, inr, String,
  Bool, true, false, Option, none, some, List, [], ◌∷◌, ◌==◌, if◌then◌else◌, arith, length,
}
use wayray.Base.Dict.{lookup, insert, erase}
use wayray.Base.Member.{contains}
use wayray.Base.Int.{pos}
use wayray.Session.Lifecycle
use wayray.Session.Lifecycle.{
  SessionId, SessionState, creating, active, suspended, destroyed, Session, Result, ok, err,
  elapsed, new_session, nanos_per_sec, is_suspend_expired, can_transition_to,
}
use wayray.Session.Lifecycle.Diagram
use wayray.Session.Lifecycle.Diagram.{
  ◌⟶◌, ◌⟶*◌, IsTimed, SameSession, attempts, transition_iff_edge, attempts-IsTimed, attempts-⟶*,
  is_suspend_expired_iff,
}
use wayray.Session.Store.{Clock, PersistedSession}
use wayray.Session.Registry.{
  SessionRegistry, with_cluster, new, create_session, destroy, after, get, find_by_token,
  is_resumable, is_resumable_state, cleanup_expired, purge_destroyed, locate, local, remote,
  prune_remote_sessions, transition, settle, count_by_state, resumable_tokens, note_remote_session,
  RemoteEntry, remote_session_ttl,
}
use wayray.Session.Registry.Invariant.{Inv}
use wayray.Session.Registry.History.{
  Command, creates, moves, sets_timeout, cleans, notes_remote, run, step, run-with_cluster-Inv,
}
use wayray.Session.Registry.Destroy.{
  retire?, passes, drop_destroyed, get-destroy, get-cleanup_expired, get-purge_destroyed,
}
use wayray.Session.Registry.Counts.{state_counts, state_counts_lem}
use wayray.Session.Registry.Durability.{Agrees, run-Agrees}
use wayray.Session.Registry.Restore.{restore_rows, restored?, find_row, get-restore_rows}
use wayray.Session.Registry.Restart.{
  restarted, AfterRestart, TokensDiffer, get-restarted, is_resumable-restarted,
}
use wayray.Session.Registry.Indexed.{find_by_token-run, IsIndexed, AllFit}
use wayray.Session.Registry.Tokens.{
  is_resumable_iff, locate_lem, locate-prune_remote_sessions, find_by_token-create_session,
  destroy_unbinds_successor,
}
use wayray.Session.Registry.Restore.{DistinctIds, enable_persistence}
use wayray.Session.Registry.Startup.{Below, rows_of, run-enable_persistence-Inv}
use wayray.Session.Tests.Table.{
  Rows, table, table_law, table_load, row_of_session, newest, remove_row,
}

abbrev at : ℕ → Clock
at n = record { mono = n * nanos_per_sec; epoch = 1700000000 + n }

abbrev history : List (Command × Clock)
history =
    (creates "ann", at 1)
    ∷ (moves 1 active, at 2)
    ∷ (creates "bob", at 3)
    ∷ (moves 2 active, at 4)
    ∷ (moves 2 suspended, at 5)
    ∷ (moves 7 active, at 6)
    ∷ (notes_remote "cat" "west", at 7)
    ∷ []

abbrev fresh : SessionRegistry Rows
fresh = with_cluster "east" 4 []

abbrev demo : SessionRegistry Rows
demo = run fresh history

abbrev bob : Session
bob = record {
  id = 2;
  token = "bob";
  state = suspended;
  created_at = 3 * nanos_per_sec;
  suspended_at = some (5 * nanos_per_sec);
  suspend_timeout = 24 * 60 * 60 * nanos_per_sec;
  user = none;
  home_server = "east";
}

bob-IsTimed : IsTimed bob
bob-IsTimed = ground arith

attempts-IsTimed_example :
    IsTimed (attempts bob ((active, 6) ∷ (creating, 7) ∷ []))
    × SameSession bob (attempts bob ((active, 6) ∷ (creating, 7) ∷ []))
attempts-IsTimed_example = attempts-IsTimed bob ((active, 6) ∷ (creating, 7) ∷ []) bob-IsTimed

-- A store with the row of one session.
abbrev one_row : Rows
one_row = row_of_session bob (at 5) ∷ []

one_row-DistinctIds : DistinctIds (rows_of (some one_row))
unfolding newest remove_row table
one_row-DistinctIds = (refl, tt)

one_row-Below : Below 3 (rows_of (some one_row))
unfolding newest remove_row table
one_row-Below = (omega arith, tt)

run-enable_persistence-Inv_example :
    Inv (run (enable_persistence (with_cluster "east" 4 []) (some one_row) (at 100)) history)
run-enable_persistence-Inv_example =
    run-enable_persistence-Inv "east" 4 3 [] (some one_row) (at 100) history one_row-DistinctIds
      one_row-Below (omega arith) (omega arith)

fresh-Inv : Inv fresh
unfolding run
fresh-Inv = run-with_cluster-Inv "east" 4 [] [] (omega arith)

demo-Inv : Inv demo
demo-Inv = run-with_cluster-Inv "east" 4 [] history (omega arith)

fresh-Agrees : Agrees table_law fresh
unfolding with_cluster table_law lookup
fresh-Agrees id = refl

demo-Agrees : Agrees table_law demo
unfolding with_cluster
demo-Agrees = run-Agrees table_law fresh history (omega arith) fresh-Inv fresh-Agrees

get-demo : get demo 2 ≡ some bob
unfolding get run step with_cluster create_session transition settle note_remote_session
    Lifecycle.transition table lookup insert nat_eq
get-demo = refl

demo_room : demo.next_id + 2 < 2 ^ 64
unfolding get run step with_cluster create_session transition settle note_remote_session
    Lifecycle.transition table lookup insert nat_eq
demo_room = omega arith

run-Agrees_example :
    Agrees table_law (run demo ((moves 1 destroyed, at 8) ∷ (moves 2 active, at 9) ∷ []))
run-Agrees_example =
    run-Agrees table_law demo ((moves 1 destroyed, at 8) ∷ (moves 2 active, at 9) ∷ []) demo_room
      demo-Inv demo-Agrees

get-restarted_example : AfterRestart 2 (get demo 2) (get (restarted demo (at 100)) 2) (at 100)
get-restarted_example = get-restarted table_law table_load demo (at 100) 2 demo-Agrees

demo_sessions :
    (id : SessionId) (s : Session)
    → get demo id ≡ some s
    → ((id ≡ 1) × (s.token ≡ "ann")) ⊎ ((id ≡ 2) × (s.token ≡ "bob"))
unfolding get run step with_cluster create_session transition settle note_remote_session
    Lifecycle.transition table lookup insert nat_eq
demo_sessions id s e = ground arith

names_differ : ◌==◌ {A = String} "ann" "bob" ≡ false
unfolding string_eq
names_differ = refl

demo-TokensDiffer : TokensDiffer demo
demo-TokensDiffer i j s t e f alive living same =
    ground (arith, demo_sessions i s e, demo_sessions j t f, names_differ)

is_resumable-restarted_example : is_resumable (restarted demo (at 100)) "bob" ≡ some 2
is_resumable-restarted_example =
    is_resumable-restarted table_law table_load demo (at 100) 2 bob demo-Agrees demo-TokensDiffer
      get-demo refl

fresh-IsIndexed : IsIndexed fresh
unfolding with_cluster lookup
fresh-IsIndexed id s e = cc

history-AllFit : AllFit fresh history
unfolding get run step with_cluster create_session transition settle note_remote_session
    Lifecycle.transition table lookup insert nat_eq string_eq
history-AllFit = (refl, (tt, (refl, (tt, (tt, (tt, (tt, tt)))))))

fresh_room : fresh.next_id + length history < 2 ^ 64
unfolding with_cluster
fresh_room = omega arith

find_by_token-run_example : find_by_token demo "bob" ≡ some bob
find_by_token-run_example =
    find_by_token-run fresh history 2 bob fresh_room history-AllFit fresh-Inv fresh-IsIndexed
      get-demo (λ e. cc)

get-cleanup_expired_example :
    (get (cleanup_expired demo (at 99999)).0 2
      ≡ retire?
          (passes (λ s. is_suspend_expired s (99999 * nanos_per_sec)) (get demo 2))
          (get demo 2))
    × (contains 2 (cleanup_expired demo (at 99999)).1
        ≡ passes (λ s. is_suspend_expired s (99999 * nanos_per_sec)) (get demo 2))
get-cleanup_expired_example = get-cleanup_expired demo 2 (at 99999) demo-Inv

abbrev bob_row : PersistedSession
bob_row = record {
  id = 2;
  token = "bob";
  state = suspended;
  user = some "bob";
  home_server = "east";
  created_at_epoch = pos 1700000003;
  suspend_timeout = 3600 * nanos_per_sec;
}

is_resumable_iff_example : (is_resumable demo "bob" ≡ some 2) ↔ (
    (lookup "bob" demo.token_index ≡ some 2)
    × ((s : Session) × (get demo 2 ≡ some s)
        × (s.token ≡ "bob")
        × ((s.state ≡ active) ⊎ (s.state ≡ suspended))))
is_resumable_iff_example = is_resumable_iff demo "bob" 2 demo-Inv

locate-prune_remote_sessions_example :
    locate (prune_remote_sessions demo (at 40)) "cat" (at 41) ≡ locate demo "cat" (at 41)
locate-prune_remote_sessions_example =
    locate-prune_remote_sessions demo "cat" (at 40) (at 41) demo-Inv (omega arith)

destroy_unbinds_successor_example :
    let (r', id) = create_session demo "bob" (at 9) in
    let r'' = after r' (destroy r' 2 (at 10)) in
    (get r'' id ≡ some (new_session id "bob" demo.local_server_id (at 9).mono))
    × (find_by_token r'' "bob" ≡ none)
    × (id ≢ 2)
destroy_unbinds_successor_example =
    destroy_unbinds_successor demo "bob" bob (at 9) (at 10) demo-Inv get-demo refl (λ e. cc)
