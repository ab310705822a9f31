-- ===== src/Server/Compositor/Turns.antt =====
-- Runs of the compositor over the events of its clients: one turn for each event.
use wayray.Base.{String, ◌≡◌, List, [], ◌∷◌, arith, nat_eq, string_eq}
use wayray.Wire.Messages.{ClientHello, ControlMessage}
use wayray.Wire.Messages.Clipboard.{Mime}
use wayray.Session.Store.{Clock, SessionStore}
use wayray.Server.Network.{Lifeline, client_connected, client_disconnected}
use wayray.Server.Cluster.{Float}
use wayray.Server.Compositor.{CalloopData, Moment, connect_client, disconnect_client, control}

-- an event of the network thread, with the compositor's circumstances when it takes it
pub data Turn : Type 0 where
  connects : Moment → ClientHello → String → Turn
  disconnects : Clock → Turn
  controls : ControlMessage → Turn

-- what the events say of the connections
unfoldable pub lifelines : List Turn → List Lifeline
lifelines [] = []
lifelines (connects m hello addr ∷ turns) = client_connected hello addr ∷ lifelines turns
lifelines (disconnects now ∷ turns) = client_disconnected ∷ lifelines turns
lifelines (controls msg ∷ turns) = lifelines turns

module _ {S : Type 0} ⦃st : SessionStore S⦄ (f : Float) (chars : String → Mime) where
  -- one turn of the loop of `drain_network_events`
  unfoldable pub take_turn : CalloopData S → Turn → CalloopData S
  unfolding connect_client disconnect_client control
  take_turn d (connects m hello addr) = (connect_client f d m hello addr).0
  take_turn d (disconnects now) = (disconnect_client d now).0
  take_turn d (controls msg) = control chars d msg

  unfoldable pub drain : CalloopData S → List Turn → CalloopData S
  unfolding take_turn
  drain d [] = d
  drain d (turn ∷ turns) = drain (take_turn d turn) turns

module _ {S : Type 0} ⦃st : SessionStore S⦄ where
  -- Control messages are nothing to the sessions.
  pub control_keeps :
      (chars : String → Mime) (d : CalloopData S) (msg : ControlMessage)
      → ((control chars d msg).session_registry ≡ d.session_registry)
        × ((control chars d msg).active_session ≡ d.active_session)
        × ((control chars d msg).published ≡ d.published)
  unfolding control
  control_keeps chars d msg = ground arith
