-- ===== src/Socket.antt =====
-- lib/net/socket.cc: `bsd_socket_t::awrite` and `aread`. The kernel's answers to `send` and `recv` are
-- inputs; a call that would block suspends the coroutine, and `co::await` calls it again.
pub mod Transfer
pub mod Tests
pub mod Events
pub mod Filling
pub mod Datagrams
pub mod Connecting
use p2p_live.Prelude.{
  ℕ, zero, suc, ◌-◌, Bool, true, false, Option, none, some, List, [], ◌∷◌, ◌++◌, if◌then◌else◌, ltb,
  ◌==◌, length, take, drop,
}

-- `io_result`
pub data IoResult : Type 0 where
  ok cont closed timeout failed : IoResult

-- The errors that the code tells apart.
pub data Errno : Type 0 where
  eintr epipe would_block conn_refused conn_reset other_error : Errno

-- What the functions throw: `net_connect_exception` and `net_io_exception`.
pub data Thrown : Type 0 where
  connection_refuse close_by_peer connection_closed io_error : Thrown

-- What `send` gives: a number of bytes that it took, or an error.
pub data SendAnswer : Type 0 where
  sent : ℕ → SendAnswer
  send_error : Errno → SendAnswer

-- What `recv` gives: bytes, none at the end of the stream, or an error.
pub data RecvAnswer : Type 0 where
  received : List ℕ → RecvAnswer
  recv_error : Errno → RecvAnswer

-- How a call ends; `suspended` is the empty `async_result_t`.
pub data Outcome : Type 0 where
  returned : IoResult → Outcome
  suspended : Outcome
  threw : Thrown → Outcome

-- How the loop inside a call ends: `early` is the `return io_result::cont` inside it.
pub data Loop : Type 0 where
  through : IoResult → Loop
  early : Loop
  broken : Thrown → Loop

-- The bytes that went through, those that are left, and how the loop ended.
pub record Moved : Type 0 where
  pub bytes : List ℕ
  pub left : List ℕ
  pub loop : Loop

abbrev pub more_bytes : List ℕ → Moved → Moved
more_bytes xs m = record m { bytes = xs ++ m.bytes }

abbrev pub stop_at : List ℕ → Loop → Moved
stop_at content l = record { bytes = []; left = content; loop = l }

abbrev pub on_send_error : List ℕ → Errno → Moved → Moved
on_send_error content eintr again = again
on_send_error content epipe again = stop_at content (through closed)
on_send_error content would_block again = stop_at content (through cont)
on_send_error content conn_refused again = stop_at content (broken connection_refuse)
on_send_error content conn_reset again = stop_at content (broken close_by_peer)
on_send_error content other_error again = stop_at content (broken io_error)

-- The loop of `awrite`. Where the list of answers ends the kernel is taken to block.
unfoldable pub awrite_loop : List SendAnswer → List ℕ → Moved
awrite_loop answers [] = stop_at [] (through ok)
awrite_loop [] (x ∷ xs) = stop_at (x ∷ xs) (through cont)
awrite_loop (sent zero ∷ answers) (x ∷ xs) = stop_at (x ∷ xs) early
awrite_loop (sent (suc n) ∷ answers) (x ∷ xs) =
    more_bytes (x ∷ take n xs) (awrite_loop answers (drop n xs))
awrite_loop (send_error e ∷ answers) (x ∷ xs) =
    on_send_error (x ∷ xs) e (awrite_loop answers (x ∷ xs))

-- A socket and whether its event (writable for `awrite`, readable for `aread`) is asked for.
pub record SocketState : Type 0 where
  pub is_connection_closed : Bool
  pub registered : Bool

pub record Call : Type 0 where
  pub outcome : Outcome
  pub bytes : List ℕ
  pub left : List ℕ
  pub state : SocketState

abbrev pub unlink_after : ℕ → SocketState → SocketState
unlink_after times s = if ltb 0 times then record s { registered = false } else s

-- What follows the loop, in both functions.
abbrev pub after_loop : ℕ → SocketState → Loop → Outcome × SocketState
after_loop times s (through cont) =
    (suspended, if times == 0 then record s { registered = true } else s)
after_loop times s (through closed) =
    (returned closed, unlink_after times (record s { is_connection_closed = true }))
after_loop times s (through r) = (returned r, unlink_after times s)
after_loop times s early = (returned cont, s)
after_loop times s (broken t) = (threw t, s)

abbrev pub finish_call : ℕ → SocketState → Moved → Call
finish_call times s m = record {
  outcome = (after_loop times s m.loop).0;
  bytes = m.bytes;
  left = m.left;
  state = (after_loop times s m.loop).1;
}

-- `awrite`: `is_stop` is `param.is_stop()`, `times` is `param.get_times()`, and `content` is what the
-- buffer shows.
unfoldable pub awrite : Bool → ℕ → List SendAnswer → List ℕ → SocketState → Call
unfolding awrite_loop
awrite is_stop times answers content s =
    if is_stop
    then record {
      outcome = returned timeout;
      bytes = [];
      left = content;
      state = unlink_after times s;
    }
    else if s.is_connection_closed
    then record { outcome = threw connection_closed; bytes = []; left = content; state = s }
    else finish_call times s (awrite_loop answers content)

-- `recv` of at most `room` bytes.
abbrev pub on_recv_error : Errno → Moved → Moved
on_recv_error eintr again = again
on_recv_error would_block again = stop_at [] (through cont)
on_recv_error conn_refused again = stop_at [] (broken connection_refuse)
on_recv_error conn_reset again = stop_at [] (broken close_by_peer)
on_recv_error _ again = stop_at [] (broken io_error)

-- The loop of `aread` for `room` bytes.
unfoldable pub aread_loop : List RecvAnswer → ℕ → Moved
aread_loop answers zero = stop_at [] (through ok)
aread_loop [] (suc room) = stop_at [] (through cont)
aread_loop (received [] ∷ answers) (suc room) = stop_at [] (through closed)
aread_loop (received (x ∷ xs) ∷ answers) (suc room) =
    more_bytes (x ∷ take room xs) (aread_loop answers (room - length xs))
aread_loop (recv_error e ∷ answers) (suc room) = on_recv_error e (aread_loop answers (suc room))

-- `aread`
unfoldable pub aread : Bool → ℕ → List RecvAnswer → ℕ → SocketState → Call
unfolding aread_loop
aread is_stop times answers room s =
    if is_stop
    then record { outcome = returned timeout; bytes = []; left = []; state = unlink_after times s }
    else if s.is_connection_closed
    then record { outcome = threw connection_closed; bytes = []; left = []; state = s }
    else finish_call times s (aread_loop answers room)

-- `co::await`: the call is made again, with the same buffer, each time the socket is ready; one list
-- of answers for each call, and a suspended coroutine where there is no further one.
abbrev pub await_next : Call → Call → Call
await_next c next = elim c.outcome [
  | suspended ↦ record next { bytes = c.bytes ++ next.bytes }
  | returned r ↦ c
  | threw t ↦ c
]

unfoldable pub await_awrite : ℕ → List (List SendAnswer) → List ℕ → SocketState → Call
unfolding awrite
await_awrite times [] content s = record {
  outcome = suspended;
  bytes = [];
  left = content;
  state = s;
}
await_awrite times (a ∷ more) content s =
    let c = awrite false times a content s in
    await_next c (await_awrite (suc times) more c.left c.state)

unfoldable pub await_aread : ℕ → List (List RecvAnswer) → ℕ → SocketState → Call
unfolding aread
await_aread times [] room s = record { outcome = suspended; bytes = []; left = []; state = s }
await_aread times (a ∷ more) room s =
    let c = aread false times a room s in
    await_next c (await_aread (suc times) more (room - length c.bytes) c.state)
