-- ===== src/Server/Network/Probes.antt =====
-- Probes between the servers of a cluster: both ends, and what an outsider learns.
use wayray.Base.{
  ℕ, String, ◌≡◌, refl, false, ◌&&◌, Option, none, some, ◌==◌, ◌!=◌, string_eq, if◌then◌else◌,
  arith, ap,
}
use wayray.Base.Member.{contains}
use wayray.Wire.Messages.{ControlMessage, server_info_request, session_lookup_request}
use wayray.Server.Network.{
  ServerConfig, Published, Classified, serve, answered, refused, unexpected, peer_authenticated,
  classify_connection, query_peer_for_token, query_peer_info,
}

-- what is written back on a connection
unfoldable pub written_back : Classified → Option ControlMessage
written_back (answered msg) = some msg
written_back (serve hello) = none
written_back refused = none
written_back (unexpected msg) = none

-- the secret that a probe presents
unfoldable pub presented : ControlMessage → Option String
presented (server_info_request auth) = some auth
presented (session_lookup_request token auth) = some auth
presented _ = none

outsider_fails :
    (secret auth : String) → (auth ≡ secret → secret ≡ "") → peer_authenticated secret auth ≡ false
unfolding peer_authenticated
outsider_fails secret auth h = ground (arith, h)

module _ (mismatch_reason : ℕ → String) where
  -- The connection of a peer to a server with this configuration and published state.
  abbrev pub peer : ServerConfig → Published → ControlMessage → Option ControlMessage
  peer config p request = written_back (classify_connection mismatch_reason config p request)

  -- A server that asks a peer for a token learns the peer's id exactly if the peer publishes the
  -- token and the two share a secret that is not empty.
  pub query_peer_for_token-peer :
      (config : ServerConfig) (p : Published) (token auth : String)
      → query_peer_for_token (peer config p) token auth ≡ (
          if (config.cluster_secret != "" && auth == config.cluster_secret)
            && contains token p.local_tokens
          then some config.server_id
          else none)
  unfolding classify_connection peer_authenticated written_back query_peer_for_token
  query_peer_for_token-peer config p token auth = ground arith

  pub query_peer_info-peer :
      (config : ServerConfig) (p : Published) (auth : String)
      → query_peer_info (peer config p) auth ≡ (
          if config.cluster_secret != "" && auth == config.cluster_secret
          then some (record {
            server_id = config.server_id;
            active_sessions = p.active_sessions;
            capacity = config.capacity;
          })
          else none)
  unfolding classify_connection peer_authenticated written_back query_peer_info
  query_peer_info-peer config p auth = ground arith

  -- Without the cluster's secret a connection learns nothing of the sessions: whatever its first
  -- message is, unless it presents exactly the configured secret and that is not empty, what becomes
  -- of the connection is the same for all published loads and tokens.
  pub classify_connection-outsider :
      (config : ServerConfig) (p q : Published) (msg : ControlMessage)
      → (presented msg ≡ some config.cluster_secret → config.cluster_secret ≡ "")
      → classify_connection mismatch_reason config p msg
        ≡ classify_connection mismatch_reason config q msg
  unfolding classify_connection presented
  classify_connection-outsider config p q (server_info_request auth) h =
      rw (outsider_fails config.cluster_secret auth (λ e. h (ap some e))) refl
  classify_connection-outsider config p q (session_lookup_request token auth) h =
      rw (outsider_fails config.cluster_secret auth (λ e. h (ap some e))) refl
  classify_connection-outsider config p q _ h = refl
