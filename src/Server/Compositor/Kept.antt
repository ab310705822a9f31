-- ===== src/Server/Compositor/Kept.antt =====
-- What the turns of the compositor and its clean-ups keep of the registry, while ids are left.
use wayray.Base.{
  nat_eq, string_eq, ℕ, ◌+◌, ◌<◌, ◌≤◌, ◌^◌, refl, Bool, true, false, arith, if◌then◌else◌,
}
use wayray.Session.Lifecycle.{SessionId, SessionToken, active, suspended}
use wayray.Session.Store.{Clock, SessionStore}
use wayray.Session.Registry.{
  SessionRegistry, note_remote_session, get, cleanup_expired, purge_destroyed, expired_ids,
  prune_remote_sessions, activate, suspend,
}
use wayray.Session.Registry.History.{transition-next_id, destroy_all-next_id}
use wayray.Session.Registry.Started.{
  Sound, Lives, note_remote_session-Sound, transition-Sound, started_with-Sound,
  started_with-next_id, transition-Lives, started_with-Lives,
}
use wayray.Session.Registry.Cleaning.{
  HasTime, cleanup_expired-Sound, purge_destroyed-Sound, prune_remote_sessions-Sound,
  cleanup_expired-Lives, purge_destroyed-Lives, prune_remote_sessions-Lives,
}
use wayray.Server.Compositor.{CalloopData, clean_up, is_empty}
use wayray.Server.Compositor.Bound.{note_remote_session-Inv}
use wayray.Server.Compositor.Moved.{Carries}

module _ {S : Type 0} where
  -- The registry is sound, and the next id is at most `n`.
  pub record Kept (n : ℕ) (r : SessionRegistry S) : Type 0 where
    pub sound : Sound r
    pub few : r.next_id ≤ n

  -- Besides, this session is there with this token, active or suspended.
  pub record Holds (id : SessionId) (token : SessionToken) (n : ℕ) (r : SessionRegistry S)
      : Type 0 where
    pub kept : Kept n r
    pub lives : Lives id token r

module _ {S : Type 0} ⦃st : SessionStore S⦄ where
  pub Carries-Kept : (n : ℕ) → n + 1 < 2 ^ 64 → Carries (Kept {S = S} n) (Kept (n + 1))
  unfolding note_remote_session activate suspend
  Carries-Kept n room = record {
    stays = λ r k. record { sound = k.sound; few = omega (arith, k.few) };
    notes = λ r token server_id now k. record {
      sound =
          note_remote_session-Sound r token server_id now
            (note_remote_session-Inv r token server_id now k.sound.inv) k.sound;
      few = k.few;
    };
    activates = λ r id now k. record {
      sound = transition-Sound r id active now (λ e. cc) k.sound;
      few = omega (arith, k.few, transition-next_id r id active now);
    };
    suspends = λ r id now k. record {
      sound = transition-Sound r id suspended now (λ e. cc) k.sound;
      few = omega (arith, k.few, transition-next_id r id suspended now);
    };
    starts = λ r token now e k. record {
      sound = started_with-Sound r token now (omega (arith, k.few, room)) e k.sound;
      few = omega (arith, k.few, started_with-next_id r token now (omega (arith, k.few, room)));
    };
  }

  pub Carries-Holds :
      (id : SessionId) (token : SessionToken) (n : ℕ)
      → n + 1 < 2 ^ 64
      → Carries (Holds {S = S} id token n) (Holds id token (n + 1))
  unfolding note_remote_session activate suspend
  Carries-Holds id token n room =
      let c = Carries-Kept n room in
      record {
        stays = λ r h. record { kept = c.stays r h.kept; lives = h.lives };
        notes = λ r t server_id now h. record {
          kept = c.notes r t server_id now h.kept;
          lives = record {
            session = h.lives.session;
            found = h.lives.found;
            named = h.lives.named;
            alive = h.lives.alive;
          };
        };
        activates = λ r j now h. record {
          kept = c.activates r j now h.kept;
          lives = transition-Lives r id j token active now refl h.lives;
        };
        suspends = λ r j now h. record {
          kept = c.suspends r j now h.kept;
          lives = transition-Lives r id j token suspended now refl h.lives;
        };
        starts = λ r t now e h. record {
          kept = c.starts r t now e h.kept;
          lives = started_with-Lives r id token t now h.kept.sound.inv h.lives;
        };
      }

  purged-Holds :
      (r : SessionRegistry S) (id : SessionId) (token : SessionToken) (n : ℕ) (nothing : Bool)
      → Holds id token n r
      → Holds id token n (if nothing then r else purge_destroyed r)
  unfolding purge_destroyed
  purged-Holds r id token n true h = h
  purged-Holds r id token n false h = record {
    kept = record { sound = purge_destroyed-Sound r h.kept.sound; few = h.kept.few };
    lives = purge_destroyed-Lives r id token h.kept.sound.inv h.lives;
  }

  cleanup_expired-Holds :
      (r : SessionRegistry S) (id : SessionId) (token : SessionToken) (n : ℕ) (now : Clock)
      → HasTime (get r id) now
      → Holds id token n r
      → Holds id token n (cleanup_expired r now).0
  unfolding cleanup_expired
  cleanup_expired-Holds r id token n now time h = record {
    kept = record {
      sound = cleanup_expired-Sound r now h.kept.sound;
      few = omega (arith, h.kept.few, destroy_all-next_id r (expired_ids r now) now);
    };
    lives = cleanup_expired-Lives r id token now h.kept.sound.inv time h.lives;
  }

  -- The periodic clean-up keeps a session whose time is not over.
  pub clean_up-Holds :
      (d : CalloopData S) (id : SessionId) (token : SessionToken) (n : ℕ) (now : Clock)
      → HasTime (get d.session_registry id) now
      → Holds id token n d.session_registry
      → Holds id token n (clean_up d now).0.session_registry
  unfolding clean_up prune_remote_sessions
  clean_up-Holds d id token n now time h =
      let (r, expired) = cleanup_expired d.session_registry now in
      let r' = (if is_empty expired then r else purge_destroyed r) in
      let g =
        purged-Holds r id token n (is_empty expired)
          (cleanup_expired-Holds d.session_registry id token n now time h) in
      record {
        kept = record { sound = prune_remote_sessions-Sound r' now g.kept.sound; few = g.kept.few };
        lives = prune_remote_sessions-Lives r' id token now g.lives;
      }
