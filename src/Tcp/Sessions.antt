-- ===== src/Tcp/Sessions.antt =====
-- `server_t` and `client_t` of lib/net/tcp.cc: the sockets that they hold and the handlers that they
-- call. Sockets are numbers; a join handler runs for as long as the connection does, and is a
-- parameter that says how it ends.
use p2p_live.Prelude.{ℕ, Bool, Option, none, some, List, [], ◌∷◌, ◌++◌, if◌then◌else◌}
use p2p_live.SocketAddr.{SocketAddr}
use p2p_live.Proto.{ConnectionState}
use p2p_live.Proto
use p2p_live.Socket.{IoResult, ok, timeout, failed}

-- Which handlers the application set.
pub record SessionHandlers : Type 0 where
  pub join_handler : Bool
  pub exit_handler : Bool
  pub error_handler : Bool

-- Calls of the handlers, and of the socket's functions.
pub data SessionEffect : Type 0 where
  joined exited : (socket : ℕ) → SessionEffect
  errored : (socket : ℕ) → SocketAddr → ConnectionState → SessionEffect
  bound runs_main unbound socket_closed : (socket : ℕ) → SessionEffect
  connecting : (socket : ℕ) → SocketAddr → SessionEffect
  listening : (socket : ℕ) → SocketAddr → (max_client : ℕ) → SessionEffect

-- How a join handler ends: it returns, or throws a `net_connect_exception`.
pub data JoinEnd : Type 0 where
  finished : JoinEnd
  broke : ConnectionState → JoinEnd

abbrev pub calls : Bool → SessionEffect → List SessionEffect
calls is_set e = if is_set then e ∷ [] else []

abbrev pub join_effects : SessionHandlers → ℕ → SocketAddr → JoinEnd → List SessionEffect
join_effects h so addr finished = calls h.join_handler (joined so)
join_effects h so addr (broke why) =
    if h.join_handler then joined so ∷ calls h.error_handler (errored so addr why) else []

-- `server_t::exit_client`
unfoldable pub exit_client : SessionHandlers → ℕ → List SessionEffect
exit_client h so = calls h.exit_handler (exited so) ++ unbound so ∷ socket_closed so ∷ []

-- `server_t::client_main`
unfoldable pub client_main : SessionHandlers → ℕ → SocketAddr → JoinEnd → List SessionEffect
unfolding exit_client
client_main h so remote end = join_effects h so remote end ++ exit_client h so

-- A turn of `server_t::wait_client`, for the socket that was accepted.
unfoldable pub wait_client : ℕ → List SessionEffect
wait_client so = bound so ∷ runs_main so ∷ []

-- `server_t::listen`, with the socket that `new_tcp_socket` gives.
unfoldable pub listen :
    (fresh : ℕ) → SocketAddr → (max_client : ℕ) → Option ℕ → Option ℕ × List SessionEffect
listen fresh addr max_client none =
    (some fresh, listening fresh addr max_client ∷ bound fresh ∷ runs_main fresh ∷ [])
listen fresh addr max_client (some so) = (some so, [])

-- `server_t::close_server`
unfoldable pub close_server : Option ℕ → Option ℕ × List SessionEffect
close_server none = (none, [])
close_server (some so) = (none, unbound so ∷ socket_closed so ∷ [])

-- `client_t::close`
unfoldable pub close : SessionHandlers → Option ℕ → Option ℕ × List SessionEffect
close h none = (none, [])
close h (some so) = (none, calls h.exit_handler (exited so) ++ unbound so ∷ socket_closed so ∷ [])

-- `client_t::connect`
unfoldable pub connect : (fresh : ℕ) → Option ℕ → Option ℕ × List SessionEffect
connect fresh none = (some fresh, bound fresh ∷ runs_main fresh ∷ [])
connect fresh (some so) = (some so, [])

-- The state that the error handler is told of.
abbrev pub state_of : IoResult → ConnectionState
state_of timeout = Proto.timeout
state_of failed = Proto.connection_refuse
state_of _ = Proto.closed

abbrev pub connected_effects :
    SessionHandlers → ℕ → SocketAddr → JoinEnd → IoResult → List SessionEffect
connected_effects h so addr end ok = join_effects h so addr end
connected_effects h so addr end r = calls h.error_handler (errored so addr (state_of r))

-- `client_t::wait_server`, for what `await_timeout(timeout, connect_to, ...)` gave. `left` is what the
-- handlers leave of the client's socket, which is null where one of them has called `close`.
unfoldable pub wait_server :
    SessionHandlers
    → ℕ
    → SocketAddr
    → IoResult
    → JoinEnd
    → (left : Option ℕ) → Option ℕ × List SessionEffect
unfolding close
wait_server h so addr r end left =
    let (socket, closing) = close h left in
    (socket, connecting so addr ∷ connected_effects h so addr end r ++ closing)
