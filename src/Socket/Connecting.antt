-- ===== src/Socket/Connecting.antt =====
-- `connect_to`, `connect_udp` and `accept_from` on the BSD side. `registered` says whether the events of
-- the call are asked for, which are two for a connection.
use p2p_live.Prelude.{◌≡◌, refl, ℕ, Bool, true, false, if◌then◌else◌}
use p2p_live.Socket.{IoResult, ok, timeout, failed, Outcome, returned, suspended, SocketState}

-- What `connect` gives; where it fails, whether `getpeername` knows the peer.
pub data ConnectAnswer : Type 0 where
  connected in_progress would_block already : ConnectAnswer
  connect_fails : (has_peer : Bool) → ConnectAnswer

abbrev connect_done : IoResult → SocketState → Outcome × SocketState
connect_done r s = (returned r, record s { registered = false })

abbrev connect_waits : SocketState → Outcome × SocketState
connect_waits s = (suspended, record s { registered = true })

abbrev opened : SocketState → SocketState
opened s = record s { is_connection_closed = false }

-- `connect_to`
unfoldable pub connect_to : (is_stop : Bool) → ConnectAnswer → SocketState → Outcome × SocketState
connect_to true answer s = connect_done timeout s
connect_to false connected s = connect_done ok (opened s)
connect_to false in_progress s = connect_waits s
connect_to false would_block s = connect_waits s
connect_to false already s = connect_done ok s
connect_to false (connect_fails true) s = connect_done ok (opened s)
connect_to false (connect_fails false) s = connect_done failed s

-- `connect_udp`: a call that would block is taken for a failure, and the closed flag is left alone.
unfoldable pub connect_udp :
    (is_stop : Bool) → ConnectAnswer → (has_peer : Bool) → SocketState → Outcome × SocketState
connect_udp true answer has_peer s = connect_done timeout s
connect_udp false connected has_peer s = connect_done ok s
connect_udp false in_progress has_peer s = connect_waits s
connect_udp false would_block has_peer s = connect_done (if has_peer then ok else failed) s
connect_udp false already has_peer s = connect_done ok s
connect_udp false (connect_fails p) has_peer s = connect_done (if p then ok else failed) s

-- What `accept` gives: a file descriptor, or an error.
pub data AcceptAnswer : Type 0 where
  accepted : (fd : ℕ) → AcceptAnswer
  accept_blocks accept_fails : AcceptAnswer

-- How `accept_from` ends: a new socket, the null pointer after a stop, nothing yet, or an exception.
pub data Accepted : Type 0 where
  new_socket : (fd : ℕ) → SocketState → Accepted
  null_socket waits no_resource_thrown : Accepted

-- `accept_from`
unfoldable pub accept_from : (is_stop : Bool) → AcceptAnswer → SocketState → Accepted × SocketState
accept_from true answer s = (null_socket, record s { registered = false })
accept_from false (accepted fd) s = (
  new_socket fd (record { is_connection_closed = false; registered = false }),
  record s { registered = false },
)
accept_from false accept_blocks s = (waits, record s { registered = true })
accept_from false accept_fails s = (no_resource_thrown, record s { registered = false })

abbrev pub is_suspended : Outcome → Bool
is_suspended suspended = true
is_suspended _ = false

-- A call of `connect_to` leaves its events asked for exactly where it suspends the coroutine.
pub registered-connect_to :
    (is_stop : Bool) (answer : ConnectAnswer) (s : SocketState)
    → let (o, t) = connect_to is_stop answer s in t.registered ≡ is_suspended o
unfolding connect_to
registered-connect_to true answer s = refl
registered-connect_to false connected s = refl
registered-connect_to false in_progress s = refl
registered-connect_to false would_block s = refl
registered-connect_to false already s = refl
registered-connect_to false (connect_fails true) s = refl
registered-connect_to false (connect_fails false) s = refl
