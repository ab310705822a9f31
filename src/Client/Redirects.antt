-- ===== src/Client/Redirects.antt =====
-- crates/wrclient/src/main.rs: `connect_following_redirects`. The connection itself
-- (crates/wrclient/src/network.rs) is a parameter: what comes of the n-th attempt, for its target.
pub mod Trusted
use wayray.Base.{
  ℕ, zero, suc, ◌+◌, String, Bool, true, false, Option, none, some, List, [], ◌∷◌, ◌++◌, length,
  string_eq, ◌>>=◌, if◌then◌else◌,
}
use wayray.Base.Dict.{Dict, lookup}

pub record Candidate : Type 0 where
  pub addr : String
  pub name : String
  pub fingerprint : Option String

-- what `network::connect` returns: a connection, a redirect, or an error that is fatal or not
pub data ConnectOutcome : Type 0 where
  connected : ConnectOutcome
  redirect : String → String → ConnectOutcome
  failed : Bool → ConnectOutcome

-- how the attempts for one candidate end
pub data Chain : Type 0 where
  reached gave_up try_next : Chain

-- `ConnectResult`
pub data ConnectResult : Type 0 where
  connected fatal retry : ConnectResult

-- `MAX_REDIRECTS`
abbrev pub max_redirects : ℕ
max_redirects = 3

-- the end of the chain, where it is not continued
abbrev pub verdict : ConnectOutcome → Chain
verdict connected = reached
verdict (redirect server_id addr) = try_next
verdict (failed true) = gave_up
verdict (failed false) = try_next

-- What the client has to go by: the attempts, the resolution of addresses and the trusted servers.
pub record Network : Type 0 where
  pub connect : ℕ → Candidate → ConnectOutcome
  pub resolve_server_addr : String → Option String
  pub allowed : Dict String Candidate

abbrev pub trusted_target : Network → String → Option Candidate
trusted_target net resolved = elim (lookup resolved net.allowed) [
  | none ↦ none
  | some known ↦
      some (record { addr = resolved; name = known.name; fingerprint = known.fingerprint })
]

-- the target of a redirect, if it is followed
unfoldable pub redirect_target : Network → ConnectOutcome → Option Candidate
redirect_target net (redirect server_id addr) =
    net.resolve_server_addr addr >>= λ resolved. trusted_target net resolved
redirect_target net connected = none
redirect_target net (failed is_final) = none

abbrev pub after_hop : Candidate → Chain → Option (Chain × List Candidate) → Chain × List Candidate
after_hop target end none = (end, target ∷ [])
after_hop target end (some (chain, contacted)) = (chain, target ∷ contacted)

abbrev pub map_option {ℓ κ} : {A : Type ℓ} {B : Type κ} → (A → B) → Option A → Option B
map_option f none = none
map_option f (some a) = some (f a)

-- The attempts for one candidate, with `left` redirects left and `n` attempts made before: how they
-- end, and the targets that were sent the token.
unfoldable pub follow : Network → ℕ → Candidate → ℕ → Chain × List Candidate
unfolding redirect_target
follow net zero target n = (verdict (net.connect n target), target ∷ [])
follow net (suc left) target n =
    after_hop target (verdict (net.connect n target))
      (map_option (λ t. follow net left t (suc n)) (redirect_target net (net.connect n target)))

abbrev pub after_chain :
    Chain → List Candidate → ConnectResult × List Candidate → ConnectResult × List Candidate
after_chain reached contacted later = (connected, contacted)
after_chain gave_up contacted later = (fatal, contacted)
after_chain try_next contacted (result, others) = (result, contacted ++ others)

-- `connect_following_redirects`, with the targets that were sent the token
unfoldable pub connect_following_redirects :
    Network → Bool → List Candidate → ℕ → ConnectResult × List Candidate
unfolding follow
connect_following_redirects net first_attempt [] n = (if first_attempt then fatal else retry, [])
connect_following_redirects net first_attempt (candidate ∷ candidates) n =
    let (chain, contacted) = follow net max_redirects candidate n in
    after_chain chain contacted
      (connect_following_redirects net first_attempt candidates (n + length contacted))
