-- ===== src/Rudp/Traffic.antt =====
-- Datagrams and messages: `rudp_server_main` with `check_unknown`, `update_endpoint`, `aread`,
-- `awrite`, and the callback of an endpoint's timer.
use p2p_live.Prelude.{
  ℕ, ◌%◌, Bool, true, false, Option, none, some, List, [], ◌∷◌, ◌++◌, if◌then◌else◌, lookup, nat_eq,
  u32_mod,
}
use p2p_live.SocketAddr.{SocketAddr, addr_eq_inst}
use p2p_live.Timer.{TimeManager}
use p2p_live.Socket.{IoResult, ok, timeout, failed}
use p2p_live.Rudp.{Ikcp, Endpoint, UserMap}
use p2p_live.Rudp.Endpoints.{entry, find, write_endpoint, add_connection}
use p2p_live.Rudp.Timing.{kcp_time, set_timer}

-- `on_unknown_packet`'s handler, which may add connections, and says whether to accept the address.
abbrev pub UnknownHandler : Type 0 → Type 0
UnknownHandler K = SocketAddr → UserMap K → UserMap K × Bool

-- What `check_unknown` finds. Without a handler it goes on with the iterator of an address that is
-- not there, which is undefined.
pub data Target (K : Type 0) : Type 0 where
  discarded undefined_iterator : Target K
  endpoint_at : Endpoint K → Target K

module _ {K : Type 0} where
  abbrev pub target_of : Option (Endpoint K) → Target K
  target_of none = discarded
  target_of (some e) = endpoint_at e

  abbrev pub accepted : SocketAddr → ℕ → UserMap K × Bool → UserMap K × Target K
  accepted addr conv (m, take) = (m, if take then target_of (entry addr conv m) else discarded)

  -- `check_unknown`: a known address is not asked for again, whatever the channel.
  unfoldable pub check_unknown :
      Option (UnknownHandler K) → SocketAddr → ℕ → UserMap K → UserMap K × Target K
  unfolding entry
  check_unknown handler addr conv m = elim (lookup addr m) [
    | some inner ↦ (m, target_of (entry addr conv m))
    | none ↦ elim handler [
      | none ↦ (m, undefined_iterator)
      | some h ↦ accepted addr conv (h addr m)
    ]
  ]

  -- `last_alive` and `recv_queue.push`.
  unfoldable pub queue_datagram : (now : ℕ) → List ℕ → Endpoint K → Endpoint K
  queue_datagram now bytes e = record e {
    last_alive = now;
    recv_queue = e.recv_queue ++ bytes ∷ [];
  }

  abbrev pub queue_at :
      (now : ℕ) → SocketAddr → ℕ → List ℕ → UserMap K × Target K → Option (UserMap K)
  queue_at now addr conv bytes (m, discarded) = some m
  queue_at now addr conv bytes (m, undefined_iterator) = none
  queue_at now addr conv bytes (m, endpoint_at e) =
      some (write_endpoint addr conv (queue_datagram now bytes e) m)

module _ {K : Type 0} (kcp : Ikcp K) where
  -- One datagram in `rudp_server_main`; `none` where the code is undefined.
  unfoldable pub server_turn :
      Option (UnknownHandler K) → (now : ℕ) → SocketAddr → List ℕ → UserMap K → Option (UserMap K)
  unfolding check_unknown
  server_turn handler now addr bytes m =
      let conv = kcp.getconv bytes in
      queue_at now addr conv bytes (check_unknown handler addr conv m)

  -- The loop of `update_endpoint`: what ikcp takes leaves the queue, and a refusal ends the loop.
  unfoldable pub input_all : List (List ℕ) → K → List (List ℕ) × K
  input_all [] k = ([], k)
  input_all (d ∷ q) k =
      let (k', took) = kcp.input d k in
      let rest = input_all q k' in if took then rest else (d ∷ q, k')

  -- `update_endpoint`. (A null `ikcp` is not looked into: nothing happens, here and below.)
  unfoldable pub update_endpoint : Endpoint K → Endpoint K
  unfolding input_all
  update_endpoint e = elim e.ikcp [
    | none ↦ e
    | some k ↦ let (q, k') = input_all e.recv_queue k in record e { ikcp = some k'; recv_queue = q }
  ]

  unfoldable pub update_ikcp : (base cur : ℕ) → Endpoint K → Endpoint K
  unfolding kcp_time
  update_ikcp base cur e = elim e.ikcp [
    | none ↦ e
    | some k ↦ record e { ikcp = some (kcp.update (kcp_time base cur % u32_mod) k) }
  ]

  -- The function that the timer starts the endpoint's context with; `upd` is the time for ikcp.
  unfoldable pub on_tick :
      (base upd cur now callback : ℕ) → Endpoint K → TimeManager → Endpoint K × TimeManager
  unfolding update_endpoint update_ikcp set_timer
  on_tick base upd cur now callback e tm =
      set_timer kcp base cur now callback (update_ikcp base upd (update_endpoint e)) tm

  -- What a call of `aread` or `awrite` gives: `none` suspends the coroutine.
  pub record Called : Type 0 where
    pub result : Option IoResult
    pub message : List ℕ
    pub endpoint : Endpoint K
    pub timers : TimeManager

  abbrev pub waiting : Bool → Endpoint K → Endpoint K
  waiting w e = record e { wait_for_io = w }

  abbrev pub received : Option (List ℕ) → Endpoint K × TimeManager → Called
  received none (e, tm) = record { result = none; message = []; endpoint = e; timers = tm }
  received (some bytes) (e, tm) = record {
    result = some ok;
    message = bytes;
    endpoint = waiting false e;
    timers = tm;
  }

  -- `aread` after `find`, into a buffer of `room` bytes.
  unfoldable pub read_endpoint :
      (base cur now callback : ℕ) → (stop : Bool) → (room : ℕ) → Endpoint K → TimeManager → Called
  unfolding update_endpoint set_timer
  read_endpoint base cur now callback stop room e tm =
      let e' = update_endpoint (waiting true e) in
      if stop
      then record { result = some timeout; message = []; endpoint = waiting false e'; timers = tm }
      else elim e'.ikcp [
        | none ↦ record { result = none; message = []; endpoint = e'; timers = tm }
        | some k ↦
            let (k', got) = kcp.recv room k in
            received got (set_timer kcp base cur now callback (record e' { ikcp = some k' }) tm)
      ]

  abbrev pub sent : (base cur now callback : ℕ) → K × Bool → Endpoint K → TimeManager → Called
  sent base cur now callback (k, false) e tm = record {
    result = none;
    message = [];
    endpoint = waiting true (record e { ikcp = some k });
    timers = tm;
  }
  sent base cur now callback (k, true) e tm =
      let (e', tm') = set_timer kcp base cur now callback (record e { ikcp = some k }) tm in
      record { result = some ok; message = []; endpoint = waiting false e'; timers = tm' }

  -- `awrite` after `find`
  unfoldable pub write_message :
      (base cur now callback : ℕ) → (stop : Bool) → List ℕ → Endpoint K → TimeManager → Called
  unfolding set_timer
  write_message base cur now callback stop bytes e tm =
      if stop
      then record { result = some timeout; message = []; endpoint = waiting false e; timers = tm }
      else elim e.ikcp [
        | none ↦ record { result = none; message = []; endpoint = e; timers = tm }
        | some k ↦ sent base cur now callback (kcp.send bytes k) e tm
      ]

  -- What a call gives on the table.
  pub record CalledAt : Type 0 where
    pub outcome : Option IoResult
    pub bytes : List ℕ
    pub user_map : UserMap K
    pub timers_left : TimeManager

  abbrev pub called_at : SocketAddr → ℕ → UserMap K → Called → CalledAt
  called_at addr channel m c = record {
    outcome = c.result;
    bytes = c.message;
    user_map = write_endpoint addr channel c.endpoint m;
    timers_left = c.timers;
  }

  abbrev pub not_connected : UserMap K → TimeManager → CalledAt
  not_connected m tm = record { outcome = some failed; bytes = []; user_map = m; timers_left = tm }

  -- `aread`
  unfoldable pub aread :
      (base cur now callback : ℕ)
      → (stop : Bool) → (room : ℕ) → SocketAddr
      → (channel : ℕ) → UserMap K
      → TimeManager
      → CalledAt
  unfolding find read_endpoint
  aread base cur now callback stop room addr channel m tm = elim (find addr channel m) [
    | none ↦ not_connected m tm
    | some e ↦ called_at addr channel m (read_endpoint base cur now callback stop room e tm)
  ]

  -- `awrite`
  unfoldable pub awrite :
      (base cur now callback : ℕ)
      → (stop : Bool) → List ℕ
      → SocketAddr
      → (channel : ℕ) → UserMap K
      → TimeManager
      → CalledAt
  unfolding find write_message
  awrite base cur now callback stop bytes addr channel m tm = elim (find addr channel m) [
    | none ↦ not_connected m tm
    | some e ↦ called_at addr channel m (write_message base cur now callback stop bytes e tm)
  ]

  -- The handler that `peer_t::bind_udp` gives to `on_unknown_packet`, as far as it changes the table.
  abbrev pub add_channels : (inactive_timeout : ℕ) → SocketAddr → List ℕ → UserMap K → UserMap K
  add_channels inactive_timeout addr [] m = m
  add_channels inactive_timeout addr (c ∷ cs) m =
      add_channels inactive_timeout addr cs (add_connection kcp addr c inactive_timeout m)

  unfoldable pub accept_unknown : (inactive_timeout : ℕ) → (channels : List ℕ) → UnknownHandler K
  accept_unknown inactive_timeout channels addr m =
      (add_channels inactive_timeout addr (0 ∷ channels) m, true)
