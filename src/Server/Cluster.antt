-- ===== src/Server/Cluster.antt =====
-- The cluster's configuration (crates/wayray-protocol/src/cluster.rs), and the choice of a server
-- for a client (crates/wrsrvd/src/backend/headless.rs). The numbers of type `f32` are a parameter.

use wayray.Base.{
  ℕ, suc, String, max, Bool, false, not, ◌||◌, Option, none, some, List, [], ◌∷◌, filter, get_elem?,
  ◌==◌, ◌!=◌, string_eq, if◌then◌else◌, ◌>>=◌, nat_eq,
}
use wayray.Wire.Messages.{ServerInfoMsg}

pub record ServerEntry : Type 0 where
  pub id : String
  pub addr : String
  pub weight : ℕ
  pub fingerprint : String

pub record ClusterConfig : Type 0 where
  pub local_id : String
  pub cluster_secret : String
  pub servers : List ServerEntry

abbrev find_server : String → List ServerEntry → Option ServerEntry
find_server id [] = none
find_server id (s ∷ servers) = if s.id == id then some s else find_server id servers

-- `server`
unfoldable pub server : ClusterConfig → String → Option ServerEntry
server config id = find_server id config.servers

-- `addr_of`
unfoldable pub addr_of : ClusterConfig → String → Option String
unfolding server
addr_of config id = server config id >>= λ s. some s.addr

-- `fingerprint_of`
unfoldable pub fingerprint_of : ClusterConfig → String → Option String
unfolding server
fingerprint_of config id =
    server config id >>= λ s. if s.fingerprint == "" then none else some s.fingerprint

-- `peers`
unfoldable pub peers : ClusterConfig → List ServerEntry
peers config = filter (λ s. s.id != config.local_id) config.servers

abbrev any_peer : String → List ServerEntry → Bool
any_peer local_id [] = false
any_peer local_id (s ∷ servers) = s.id != local_id || any_peer local_id servers

-- `is_clustered`
unfoldable pub is_clustered : ClusterConfig → Bool
is_clustered config = any_peer config.local_id config.servers

-- `f32`: the operations that the placement uses
pub record Float : Type 1 where
  pub F : Type 0
  pub of_u32 : ℕ → F
  pub div : F → F → F
  pub lt : F → F → Bool
  pub redirect_threshold : F

-- What the probes of the peers do, as the code sees it: whether the budget is spent before the
-- probe of the n-th candidate, whether an address parses, and what a peer answers to a request
-- that carries the secret.
pub record Probes : Type 0 where
  pub is_late : ℕ → Bool
  pub parses : String → Bool
  pub query_peer_for_token : ServerEntry → String → String → Option String
  pub query_peer_info : ServerEntry → String → Option ServerInfoMsg

-- the loop of `discover_remote_home` from the n-th candidate on
unfoldable pub find_home : Probes → String → String → ℕ → List ServerEntry → Option String
find_home probes token secret n [] = none
find_home probes token secret n (s ∷ candidates) =
    let rest = find_home probes token secret (suc n) candidates in
    if probes.is_late n
    then none
    else if not (probes.parses s.addr)
    then rest
    else elim (probes.query_peer_for_token s token secret) [
      | none ↦ rest
      | some server_id ↦ some server_id
    ]

-- `discover_remote_home`; `has_runtime` is whether there is a runtime for the probes
unfoldable pub discover_remote_home : Probes → ClusterConfig → Bool → String → Option String
unfolding find_home peers is_clustered
discover_remote_home probes config has_runtime token =
    if (not (is_clustered config) || config.cluster_secret == "") || not has_runtime
    then none
    else find_home probes token config.cluster_secret 0 (peers config)

module _ (f : Float) where
  pub record PeerLoad : Type 0 where
    pub index : ℕ
    pub load_factor : f.F
    pub weight : ℕ

  abbrev pub score : PeerLoad → f.F
  score p = f.div p.load_factor (f.of_u32 (max p.weight 1))

  -- `min_by` keeps the first of several least elements. A comparison that is undefined counts as
  -- equal.
  abbrev min_score : PeerLoad → List PeerLoad → PeerLoad
  min_score best [] = best
  min_score best (p ∷ ps) = min_score (if f.lt (score p) (score best) then p else best) ps

  abbrev pub is_eligible : PeerLoad → Bool
  is_eligible p = f.lt p.load_factor (f.of_u32 1)

  -- `select_least_loaded_peer`, the peer itself
  unfoldable pub least_loaded : List PeerLoad → Option PeerLoad
  least_loaded [] = none
  least_loaded (p ∷ ps) =
      if is_eligible p then some (min_score p (filter is_eligible ps)) else least_loaded ps

  -- the loop of `pick_peer_for_new_session` from the n-th candidate on
  unfoldable pub probe_loads : Probes → ClusterConfig → ℕ → List ServerEntry → List PeerLoad
  unfolding server
  probe_loads probes config n [] = []
  probe_loads probes config n (s ∷ candidates) =
      let rest = probe_loads probes config (suc n) candidates in
      if probes.is_late n
      then []
      else if not (probes.parses s.addr)
      then rest
      else elim (probes.query_peer_info s config.cluster_secret) [
        | none ↦ rest
        | some info ↦
            record {
              index = n;
              load_factor = f.div (f.of_u32 info.active_sessions) (f.of_u32 (max info.capacity 1));
              weight = elim (server config s.id) [ none ↦ 1 | some entry ↦ entry.weight ];
            }
            ∷ rest
      ]

  -- the end of `pick_peer_for_new_session`
  abbrev if_less_loaded : f.F → List ServerEntry → Option PeerLoad → Option (String × String)
  if_less_loaded local_load candidates none = none
  if_less_loaded local_load candidates (some best) =
      if f.lt best.load_factor local_load
      then get_elem? candidates best.index >>= (λ s. some (s.id, s.addr))
      else none

  -- `pick_peer_for_new_session`, for a local load factor
  unfoldable pub pick_peer_for_new_session :
      Probes → ClusterConfig → Bool → f.F → Option (String × String)
  unfolding least_loaded probe_loads peers is_clustered
  pick_peer_for_new_session probes config has_runtime local_load =
      if not (is_clustered config) || not (f.lt f.redirect_threshold local_load)
      then none
      else if config.cluster_secret == "" || not has_runtime
      then none
      else if_less_loaded local_load (peers config)
          (least_loaded (probe_loads probes config 0 (peers config)))
