-- ===== src/Session/Registry/Resumable.antt =====
-- `resumable_tokens` against `is_resumable`, in a registry in which every session has been started.
use wayray.Base.{
  nat_eq, string_eq, ◌≡◌, inl, inr, true, ◌&&◌, some, List, [], ◌∷◌, map, filter, arith, ◌==◌,
  Bool-cases, Option-cases,
}
use wayray.Base.Dict.{Dict, lookup, values, NodupKeys, is_some}
use wayray.Base.Member.{contains}
use wayray.Session.Lifecycle.{SessionId, SessionToken, Session}
use wayray.Session.Registry.{
  SessionRegistry, is_resumable_state, is_resumable, resumable_tokens, get,
}
use wayray.Session.Registry.Tokens.{is_resumable_iff}
use wayray.Session.Registry.Started.{Sound, Lives-is_resumable}

abbrev tokens_of : Dict SessionId Session → List SessionToken
tokens_of d = map (λ (s : Session). s.token) (filter (λ s. is_resumable_state s.state) (values d))

listed_session :
    (token : SessionToken) (d : Dict SessionId Session)
    → NodupKeys d
    → contains token (tokens_of d) ≡ true
    → (id : SessionId) × (s : Session) × (lookup id d ≡ some s)
      × (s.token ≡ token)
      × (is_resumable_state s.state ≡ true)
unfolding contains values lookup
listed_session token [] u h = absurd (ground (arith, h))
listed_session token ((k, v) ∷ d) u h =
    elim (Bool-cases (is_resumable_state v.state && v.token == token)) [
      | inl e ↦ (k, v, ground arith, ground arith, ground arith)
      | inr e ↦
          let (id, s, found, named, alive) = listed_session token d u.1 (ground arith) in
          (id, s, ground (arith, u.0, found), named, alive)
    ]

session_listed :
    (id : SessionId) (s : Session) (d : Dict SessionId Session)
    → lookup id d ≡ some s
    → is_resumable_state s.state ≡ true
    → contains s.token (tokens_of d) ≡ true
unfolding contains values lookup
session_listed id s [] e h = absurd (ground (arith, e))
session_listed id s ((k, v) ∷ d) e h = ground (arith, session_listed id s d)

module _ {S : Type 0} where
  -- A token is published exactly if it can be resumed.
  pub contains-resumable_tokens :
      (r : SessionRegistry S) (token : SessionToken)
      → Sound r
      → contains token (resumable_tokens r) ≡ is_some (is_resumable r token)
  unfolding resumable_tokens get
  contains-resumable_tokens r token v = elim (Option-cases (is_resumable r token)) [
    | inr (id, e) ↦
        let (indexed, (s, found, named, state)) = (is_resumable_iff r token id v.inv).0 e in
        ground (arith, session_listed id s r.sessions found (ground (arith, state)), named)
    | inl e ↦ elim (Bool-cases (contains token (tokens_of r.sessions))) [
      | inr f ↦ ground arith
      | inl f ↦
          let (id, s, found, named, alive) = listed_session token r.sessions v.inv.nodup f in
          let resumed =
            Lives-is_resumable r token id v
              (record { session = s; found = found; named = named; alive = alive }) in
          absurd (ground (arith, resumed))
    ]
  ]
