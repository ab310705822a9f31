-- ===== src/Session/Registry/Counts.antt =====
-- `state_counts`, and `SessionCounts` of crates/wayray-protocol/src/admin.rs. The counts are of the
-- sessions in memory, so `usize` does not overflow.
use wayray.Base.{ℕ, suc, ◌+◌, ◌≡◌, refl, ap, List, [], ◌∷◌, arith, length, filter}
use wayray.Base.Dict.{Dict, values}
use wayray.Session.Lifecycle.{SessionState, creating, active, suspended, destroyed, Session}
use wayray.Session.Registry.{
  SessionRegistry, count_by_state, same_state, resumable_tokens, is_resumable_state,
}
use mathlib.Core.List.{map}

pub record SessionCounts : Type 0 where
  pub creating_count : ℕ
  pub active_count : ℕ
  pub suspended_count : ℕ
  pub destroyed_count : ℕ

abbrev count_one : SessionState → SessionCounts → SessionCounts
count_one creating c = record c { creating_count = c.creating_count + 1 }
count_one active c = record c { active_count = c.active_count + 1 }
count_one suspended c = record c { suspended_count = c.suspended_count + 1 }
count_one destroyed c = record c { destroyed_count = c.destroyed_count + 1 }

-- the loop of `state_counts`
unfoldable pub count_states : SessionCounts → List Session → SessionCounts
count_states c [] = c
count_states c (s ∷ ss) = count_states (count_one s.state c) ss

unfoldable pub state_counts : {S : Type 0} → SessionRegistry S → SessionCounts
unfolding count_states values
state_counts r =
    count_states
      (record { creating_count = 0; active_count = 0; suspended_count = 0; destroyed_count = 0 })
      (values r.sessions)

abbrev of_state : SessionState → List Session → ℕ
of_state state ss = length (filter (λ s. same_state s.state state) ss)

count_states_lem :
    (c : SessionCounts) (ss : List Session)
    → (count_states c ss).creating_count ≡ c.creating_count + of_state creating ss
      × ((count_states c ss).active_count ≡ c.active_count + of_state active ss)
      × ((count_states c ss).suspended_count ≡ c.suspended_count + of_state suspended ss)
      × ((count_states c ss).destroyed_count ≡ c.destroyed_count + of_state destroyed ss)
unfolding count_states
count_states_lem c [] = omega arith
count_states_lem c (s ∷ ss) = ground (arith, count_states_lem (count_one s.state c) ss)

of_state-sum :
    (ss : List Session)
    → of_state creating ss + of_state active ss + of_state suspended ss + of_state destroyed ss
      ≡ length ss
of_state-sum [] = refl
of_state-sum (s ∷ ss) = ground (arith, of_state-sum ss)

resumable_count :
    (ss : List Session)
    → length (map (λ (s : Session). s.token) (filter (λ s. is_resumable_state s.state) ss))
      ≡ of_state active ss + of_state suspended ss
resumable_count [] = refl
resumable_count (s ∷ ss) = ground (arith, resumable_count ss)

length-values : {V : Type 0} (d : Dict ℕ V) → length (values d) ≡ length d
unfolding values
length-values [] = refl
length-values (_ ∷ d) = ap suc (length-values d)

-- Each field of the report is the count of its state, the four add up to the number of sessions, and
-- as many tokens are published as resumable as there are active and suspended sessions.
pub state_counts_lem :
    {S : Type 0} (r : SessionRegistry S)
    → let c = state_counts r in
      (c.creating_count ≡ count_by_state r creating)
      × (c.active_count ≡ count_by_state r active)
      × (c.suspended_count ≡ count_by_state r suspended)
      × (c.destroyed_count ≡ count_by_state r destroyed)
      × (c.creating_count + c.active_count + c.suspended_count + c.destroyed_count
          ≡ length r.sessions)
      × (length (resumable_tokens r) ≡ c.active_count + c.suspended_count)
unfolding state_counts count_by_state resumable_tokens
state_counts_lem r =
    let ss = values r.sessions in
    let c : SessionCounts = record {
      creating_count = 0;
      active_count = 0;
      suspended_count = 0;
      destroyed_count = 0;
    } in
    omega
      (arith, count_states_lem c ss, of_state-sum ss, length-values r.sessions, resumable_count ss)
