-- ===== src/Socket/Datagrams.antt =====
-- `bsd_socket_t::awrite_to` and `aread_from`: one datagram each.
use p2p_live.Prelude.{
  ℕ, zero, suc, ◌≡◌, ◌≤◌, ◌<◌, refl, arith, Bool, true, false, List, [], ◌∷◌, if◌then◌else◌, ◌==◌,
  length, u64_max, Option, none, some,
}
use p2p_live.SocketAddr.{SocketAddr}
use p2p_live.Buffer.{SocketBuffer, walk_step, finish_walk}
use p2p_live.Socket.{
  IoResult, ok, closed, timeout, failed, Outcome, returned, suspended, threw, io_error, SocketState,
  unlink_after,
}

-- What `sendto` gives: a length, or an error that the code tells apart.
pub data SendtoAnswer : Type 0 where
  sent : ℕ → SendtoAnswer
  would_block denied broken_pipe other_error : SendtoAnswer

-- What `recvfrom` gives.
pub data RecvfromAnswer : Type 0 where
  received : List ℕ → SocketAddr → RecvfromAnswer
  blocks pipe_broken interrupted recv_fails : RecvfromAnswer

-- A call: how it ends, the buffer, the socket.
pub record DatagramCall : Type 0 where
  pub outcome : Outcome
  pub buffer : SocketBuffer
  pub socket : SocketState

abbrev call_stopped : ℕ → SocketBuffer → SocketState → DatagramCall
call_stopped times b s = record {
  outcome = returned timeout;
  buffer = b;
  socket = unlink_after times s;
}

-- What follows the call of the kernel; `len` is what it returned, as a `u64`.
abbrev datagram_done : IoResult → (len : ℕ) → ℕ → SocketBuffer → SocketState → DatagramCall
datagram_done r len times b s = record {
  outcome = returned r;
  buffer = finish_walk (walk_step len b);
  socket = unlink_after times s;
}

abbrev datagram_blocks : ℕ → SocketBuffer → SocketState → DatagramCall
datagram_blocks times b s = record {
  outcome = suspended;
  buffer = b;
  socket = if times == 0 then record s { registered = true } else s;
}

abbrev after_sendto : SendtoAnswer → ℕ → SocketBuffer → SocketState → DatagramCall
after_sendto (sent zero) times b s = record { outcome = returned closed; buffer = b; socket = s }
after_sendto (sent (suc n)) times b s = datagram_done ok (suc n) times b s
after_sendto would_block times b s = datagram_blocks times b s
after_sendto denied times b s = record { outcome = threw io_error; buffer = b; socket = s }
after_sendto broken_pipe times b s = datagram_done closed u64_max times b s
after_sendto other_error times b s = datagram_done failed u64_max times b s

-- `awrite_to`
unfoldable pub awrite_to :
    (is_stop : Bool) → (times : ℕ) → SendtoAnswer → SocketBuffer → SocketState → DatagramCall
unfolding walk_step finish_walk
awrite_to is_stop times answer b s =
    if is_stop then call_stopped times b s else after_sendto answer times b s

abbrev after_recvfrom :
    RecvfromAnswer → ℕ → SocketBuffer → SocketState → DatagramCall × Option SocketAddr
after_recvfrom (received [] from) times b s =
    (record { outcome = returned closed; buffer = b; socket = s }, none)
after_recvfrom (received (x ∷ xs) from) times b s =
    (datagram_done ok (length (x ∷ xs)) times b s, some from)
after_recvfrom blocks times b s = (datagram_blocks times b s, none)
after_recvfrom pipe_broken times b s = (datagram_done closed u64_max times b s, none)
after_recvfrom interrupted times b s = (datagram_done failed 0 times b s, none)
after_recvfrom recv_fails times b s = (datagram_done failed u64_max times b s, none)

-- `aread_from`, with the address that `target` is set to. (After an error it is set to what was there.)
unfoldable pub aread_from :
    (is_stop : Bool)
    → (times : ℕ) → RecvfromAnswer
    → SocketBuffer
    → SocketState
    → DatagramCall × Option SocketAddr
unfolding walk_step finish_walk
aread_from is_stop times answer b s =
    if is_stop then (call_stopped times b s, none) else after_recvfrom answer times b s

-- What a finished call says of the buffer: its length is that of what went through.
pub awrite_to-ok :
    (times n : ℕ) (b : SocketBuffer) (s : SocketState)
    → n < u64_max
    → suc n ≤ b.valid_data_length
    → b.valid_data_length ≤ u64_max
    → b.walk_offset ≡ 0
    → let c = awrite_to false times (sent (suc n)) b s in
      (c.outcome ≡ returned ok) × (c.buffer.valid_data_length ≡ suc n) × (c.buffer.walk_offset ≡ 0)
unfolding awrite_to walk_step finish_walk
awrite_to-ok times n b s h k l m = (refl, ground (arith, m), refl)

-- A send that fails walks over the whole buffer, as one that sends all of it does.
pub awrite_to-failed :
    (times : ℕ) (b : SocketBuffer) (s : SocketState)
    → b.valid_data_length < u64_max
    → b.walk_offset ≡ 0
    → let c = awrite_to false times other_error b s in
      (c.outcome ≡ returned failed) × (c.buffer.valid_data_length ≡ b.valid_data_length)
unfolding awrite_to walk_step finish_walk
awrite_to-failed times b s h m = (refl, ground (arith, m))
