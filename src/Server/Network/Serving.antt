-- ===== src/Server/Network/Serving.antt =====
-- What the compositor is told of the connections, whatever happens to them.
use wayray.Base.{Bool, true, false, List, [], ◌∷◌}
use wayray.Server.Network.{
  LoopEvent, routed, polled, served, acceptor_stopped, shutdown_requested, LoopState, idle, serving,
  unpolled, stopped, Lifeline, client_connected, client_disconnected, loop_step, server_loop,
}

-- Between two connections there is a disconnection; the flag says whether a client is connected. There
-- may be disconnections of clients that the compositor never heard of.
unfoldable pub OneServed : Bool → List Lifeline → Type 0
OneServed connected [] = Unit
OneServed false (client_connected hello addr ∷ trace) = OneServed true trace
OneServed true (client_disconnected ∷ trace) = OneServed false trace
OneServed true (client_connected hello addr ∷ trace) = ⊥
OneServed false (client_disconnected ∷ trace) = OneServed false trace

abbrev pub is_serving : LoopState → Bool
is_serving serving = true
is_serving _ = false

-- Whatever connections arrive, end and preempt one another, before they are polled or after, the
-- compositor hears of a client only after it has heard of the end of the one before.
pub server_loop-OneServed :
    (s : LoopState) (events : List LoopEvent) → OneServed (is_serving s) (server_loop s events).1
unfolding OneServed server_loop loop_step
server_loop-OneServed s [] = tt
server_loop-OneServed idle (routed hello addr ∷ events) =
    server_loop-OneServed (unpolled hello addr) events
server_loop-OneServed idle (polled ∷ events) = server_loop-OneServed idle events
server_loop-OneServed idle (acceptor_stopped ∷ events) = server_loop-OneServed stopped events
server_loop-OneServed idle (shutdown_requested ∷ events) = server_loop-OneServed stopped events
server_loop-OneServed idle (served ∷ events) = server_loop-OneServed idle events
server_loop-OneServed serving (served ∷ events) = server_loop-OneServed idle events
server_loop-OneServed serving (routed hello addr ∷ events) =
    server_loop-OneServed (unpolled hello addr) events
server_loop-OneServed serving (polled ∷ events) = server_loop-OneServed serving events
server_loop-OneServed serving (acceptor_stopped ∷ events) = server_loop-OneServed stopped events
server_loop-OneServed serving (shutdown_requested ∷ events) = server_loop-OneServed serving events
server_loop-OneServed (unpolled hello addr) (polled ∷ events) = server_loop-OneServed serving events
server_loop-OneServed (unpolled hello addr) (served ∷ events) = server_loop-OneServed idle events
server_loop-OneServed (unpolled hello addr) (routed hello' addr' ∷ events) =
    server_loop-OneServed (unpolled hello' addr') events
server_loop-OneServed (unpolled hello addr) (acceptor_stopped ∷ events) =
    server_loop-OneServed stopped events
server_loop-OneServed (unpolled hello addr) (shutdown_requested ∷ events) =
    server_loop-OneServed (unpolled hello addr) events
server_loop-OneServed stopped (event ∷ events) = server_loop-OneServed stopped events
