-- ===== src/Server/Network.antt =====
-- crates/wrsrvd/src/network.rs: the classification of a new connection, the handshake with a client
-- that is served, the loop that serves one client after the other, and the probes of peers.
-- QUIC is taken for what it delivers: a message that is written is read by the other side.
pub mod Probes
pub mod Serving
use wayray.Base.{
  ℕ, String, Bool, true, false, not, ◌&&◌, Option, none, some, List, [], ◌∷◌, ◌++◌, ◌==◌, ◌!=◌,
  string_eq, if◌then◌else◌,
}
use wayray.Base.Member.{contains}
use wayray.Wire.Messages.{
  ClientHello, ServerHello, ServerInfoMsg, SessionLookupResponse, ProtocolErrorCode, ControlMessage,
  client_hello, server_hello, server_info_request, server_info, session_lookup_request,
  session_lookup_response, session_redirect, session_event, resumed, protocol_error,
  version_mismatch, version_compatible, protocol_version,
}
use wayray.Server.Relay.{ClientCapabilities, from_advertised}

-- the fields of `ServerConfig` but the address that is bound
pub record ServerConfig : Type 0 where
  pub output_width : ℕ
  pub output_height : ℕ
  pub server_id : String
  pub capacity : ℕ
  pub cluster_secret : String

pub record SessionBinding : Type 0 where
  pub session_id : ℕ
  pub resumed : Bool
  pub token : String

pub data ConnectDecision : Type 0 where
  bind : SessionBinding → ConnectDecision
  redirect : String → String → ConnectDecision

-- `peer_authenticated`
unfoldable pub peer_authenticated : String → String → Bool
peer_authenticated configured_secret auth = configured_secret != "" && auth == configured_secret

-- what the compositor publishes for the probes, as `NetworkHandle` holds it
pub record Published : Type 0 where
  pub active_sessions : ℕ
  pub local_tokens : List String

-- `NetworkHandle::set_active_sessions`
unfoldable pub set_active_sessions : Published → ℕ → Published
set_active_sessions p count = record p { active_sessions = count }

-- `NetworkHandle::set_local_tokens`
unfoldable pub set_local_tokens : Published → List String → Published
set_local_tokens p tokens = record p { local_tokens = tokens }

-- What becomes of a connection: the message that is written back, if any, and the hello of a
-- client that is passed on to be served. `unexpected` is the error for another first message.
pub data Classified : Type 0 where
  serve : ClientHello → Classified
  answered : ControlMessage → Classified
  refused : Classified
  unexpected : ControlMessage → Classified

module _ (mismatch_reason : ℕ → String) where
  -- `reject_incompatible_client`: the message; `mismatch_reason` formats its text
  abbrev pub rejection : ℕ → ControlMessage
  rejection client_version =
      protocol_error (record { code = version_mismatch; reason = mismatch_reason client_version })

  -- `classify_connection`, for the first message of the connection
  unfoldable pub classify_connection : ServerConfig → Published → ControlMessage → Classified
  unfolding peer_authenticated version_compatible
  classify_connection config p (client_hello hello) =
      if version_compatible hello.version then serve hello else answered (rejection hello.version)
  classify_connection config p (server_info_request auth) =
      if peer_authenticated config.cluster_secret auth
      then answered (
          server_info (record {
            server_id = config.server_id;
            active_sessions = p.active_sessions;
            capacity = config.capacity;
          }))
      else refused
  classify_connection config p (session_lookup_request token auth) =
      if peer_authenticated config.cluster_secret auth
      then answered (
          session_lookup_response
            (record { server_id = config.server_id; hosts = contains token p.local_tokens }))
      else refused
  classify_connection config p other = unexpected other

-- one look at the reply channel: a decision, a dropped sender, or nothing yet, before the deadline
-- or at it
pub data Polled : Type 0 where
  reply : ConnectDecision → Polled
  dropped : Polled
  empty : Bool → Polled

-- `recv_binding_with_timeout`, over what the looks at the channel find
unfoldable pub recv_binding_with_timeout : List Polled → Option ConnectDecision
recv_binding_with_timeout [] = none
recv_binding_with_timeout (reply d ∷ polls) = some d
recv_binding_with_timeout (dropped ∷ polls) = none
recv_binding_with_timeout (empty true ∷ polls) = none
recv_binding_with_timeout (empty false ∷ polls) = recv_binding_with_timeout polls

-- `serve_client` up to its relay loop: what it writes on the control stream, and how it goes on.
-- `relaying` has the capabilities, for which the display and the audio stream are open.
pub data Handshake : Type 0 where
  timed_out : Handshake
  redirected : Handshake
  relaying : ClientCapabilities → Handshake

abbrev resumed_event : SessionBinding → List ControlMessage
resumed_event b = if b.resumed then session_event (resumed b.session_id) ∷ [] else []

unfoldable pub handshake :
    ServerConfig → ClientHello → Option ConnectDecision → List ControlMessage × Handshake
handshake config hello none = ([], timed_out)
handshake config hello (some (redirect server_id addr)) =
    (session_redirect server_id addr ∷ [], redirected)
handshake config hello (some (bind b)) = (
  server_hello (record {
    version = protocol_version;
    session_id = b.session_id;
    output_width = config.output_width;
    output_height = config.output_height;
    resumed = b.resumed;
    token = b.token;
  })
      ∷ resumed_event b,
  relaying (from_advertised hello.capabilities),
)

-- what happens to `server_loop`: a routed client with its remote address, the first poll of
-- `serve_client`, its end, the end of the acceptor, the request to shut down
pub data LoopEvent : Type 0 where
  routed : ClientHello → String → LoopEvent
  polled : LoopEvent
  served : LoopEvent
  acceptor_stopped : LoopEvent
  shutdown_requested : LoopEvent

-- whether a client is being served. The future `serve_client` does nothing before it is polled, and
-- the `select!` may look for the next client first.
pub data LoopState : Type 0 where
  idle serving stopped : LoopState
  unpolled : ClientHello → String → LoopState

-- what `server_loop` and `serve_client` tell the compositor of the connections
pub data Lifeline : Type 0 where
  client_connected : ClientHello → String → Lifeline
  client_disconnected : Lifeline

-- One turn of `server_loop`. An idle loop waits for a client or the shutdown, a serving one for the
-- end of `serve_client` or another client, which preempts the one that is served. The first thing
-- that `serve_client` does is to tell the compositor of its client; one that is preempted before it is
-- polled has told nothing, and its end is reported all the same.
unfoldable pub loop_step : LoopState → LoopEvent → LoopState × List Lifeline
loop_step idle (routed hello addr) = (unpolled hello addr, [])
loop_step idle polled = (idle, [])
loop_step idle acceptor_stopped = (stopped, [])
loop_step idle shutdown_requested = (stopped, [])
loop_step idle served = (idle, [])
loop_step serving served = (idle, client_disconnected ∷ [])
loop_step serving polled = (serving, [])
loop_step serving (routed hello addr) = (unpolled hello addr, client_disconnected ∷ [])
loop_step serving acceptor_stopped = (stopped, client_disconnected ∷ [])
loop_step serving shutdown_requested = (serving, [])
loop_step (unpolled hello addr) polled = (serving, client_connected hello addr ∷ [])
loop_step (unpolled hello addr) served =
    (idle, client_connected hello addr ∷ client_disconnected ∷ [])
loop_step (unpolled hello addr) (routed hello' addr') =
    (unpolled hello' addr', client_disconnected ∷ [])
loop_step (unpolled hello addr) acceptor_stopped = (stopped, client_disconnected ∷ [])
loop_step (unpolled hello addr) shutdown_requested = (unpolled hello addr, [])
loop_step stopped event = (stopped, [])

unfoldable pub server_loop : LoopState → List LoopEvent → LoopState × List Lifeline
unfolding loop_step
server_loop s [] = (s, [])
server_loop s (event ∷ events) =
    let (s', now) = loop_step s event in
    let (s'', later) = server_loop s' events in (s'', now ++ later)

-- the answer in a probe's result
abbrev lookup_answer : Option ControlMessage → Option String
lookup_answer (some (session_lookup_response r)) = if r.hosts then some r.server_id else none
lookup_answer _ = none

abbrev info_answer : Option ControlMessage → Option ServerInfoMsg
info_answer (some (server_info info)) = some info
info_answer _ = none

-- `query_peer_for_token` and `query_peer_info`. `ask` connects to the peer, writes the request and
-- reads the answer, if there is one in time.
unfoldable pub query_peer_for_token :
    (ControlMessage → Option ControlMessage) → String → String → Option String
query_peer_for_token ask token auth = lookup_answer (ask (session_lookup_request token auth))

unfoldable pub query_peer_info :
    (ControlMessage → Option ControlMessage) → String → Option ServerInfoMsg
query_peer_info ask auth = info_answer (ask (server_info_request auth))
