-- ===== src/Rudp/Endpoints.antt =====
-- The table of endpoints: `find`, `add_connection`, `remove_connection` after the wait,
-- `close_all_peer`, `config`, `set_wndsize`, `removeable`.
use p2p_live.Prelude.{
  ℕ, Bool, true, false, Option, none, some, List, [], ◌∷◌, ◌++◌, if◌then◌else◌, ◌==◌, lookup,
  insert, emplace, nat_eq, filter_map, and_then,
}
use p2p_live.SocketAddr.{SocketAddr, addr_eq_inst}
use p2p_live.Timer.{TimerRegistered}
use p2p_live.Rudp.{Ikcp, Endpoint, UserMap}

-- A wait of `aclose_connection`: ikcp's states at the resumptions, and the timer that the last
-- `set_timer` of the wait has left.
pub record Wait (K : Type 0) : Type 0 where
  pub resumes : List K
  pub timer : Option TimerRegistered

module _ {K : Type 0} where
  abbrev pub inner_of : Option (List (ℕ × Endpoint K)) → List (ℕ × Endpoint K)
  inner_of none = []
  inner_of (some m) = m

  -- The endpoint in the map, closed or not.
  unfoldable pub entry : SocketAddr → ℕ → UserMap K → Option (Endpoint K)
  entry addr channel m = and_then (lookup addr m) (lookup channel)

  abbrev pub if_open : Endpoint K → Option (Endpoint K)
  if_open e = elim e.ikcp [ none ↦ none | some k ↦ some e ]

  -- `find`
  unfoldable pub find : SocketAddr → ℕ → UserMap K → Option (Endpoint K)
  unfolding entry
  find addr channel m = and_then (entry addr channel m) if_open

  abbrev pub if_filled : List (ℕ × Endpoint K) → Option (List (ℕ × Endpoint K))
  if_filled [] = none
  if_filled (x ∷ xs) = some (x ∷ xs)

  -- The two loops of `add_connection`, which erase the closed endpoints and the addresses that have
  -- none left.
  unfoldable pub purge : UserMap K → UserMap K
  purge m = filter_map (λ inner. if_filled (filter_map if_open inner)) m

  -- A write to an endpoint that is there.
  unfoldable pub write_endpoint : SocketAddr → ℕ → Endpoint K → UserMap K → UserMap K
  write_endpoint addr channel e m = insert addr (insert channel e (inner_of (lookup addr m))) m

  -- A change of what `find` gives, where it gives something.
  abbrev pub write_found :
      (Endpoint K → Endpoint K) → SocketAddr → ℕ → Option (Endpoint K) → UserMap K → UserMap K
  write_found f addr channel none m = m
  write_found f addr channel (some e) m = write_endpoint addr channel (f e) m

module _ {K : Type 0} (kcp : Ikcp K) where
  -- `ikcp_create`, the assignments and `ikcp_wndsize(pcb, 128, 128)`; `last_alive` is left unset.
  unfoldable pub fresh_endpoint : SocketAddr → ℕ → ℕ → Endpoint K
  fresh_endpoint addr channel inactive_timeout = record {
    remote_address = addr;
    channel = channel;
    ikcp = some (kcp.wndsize 128 128 (kcp.create channel));
    last_alive = 0;
    inactive_timeout = inactive_timeout;
    timer_reg = none;
    wait_for_io = false;
    is_closing = false;
    recv_queue = [];
  }

  abbrev pub on_ikcp : (K → K) → Endpoint K → Endpoint K
  on_ikcp f e = elim e.ikcp [ none ↦ e | some k ↦ record e { ikcp = some (f k) } ]

  abbrev pub speed : ℕ → K → K
  speed level k =
      if level == 0
      then kcp.nodelay 1 10 2 1 k
      else if level == 1
      then kcp.nodelay 1 20 3 1 k
      else kcp.nodelay 0 50 0 0 k

  -- `config`
  unfoldable pub config : SocketAddr → ℕ → ℕ → UserMap K → UserMap K
  unfolding find write_endpoint
  config addr channel level m =
      write_found (on_ikcp (speed level)) addr channel (find addr channel m) m

  -- `set_wndsize`
  unfoldable pub set_wndsize : SocketAddr → ℕ → ℕ → ℕ → UserMap K → UserMap K
  unfolding find write_endpoint
  set_wndsize addr channel send recv m =
      write_found (on_ikcp (kcp.wndsize send recv)) addr channel (find addr channel m) m

  -- What `add_connection` does to the map before `config`: `emplace` leaves a closed endpoint alone,
  -- and then destroys the new one.
  unfoldable pub store_endpoint : SocketAddr → ℕ → ℕ → UserMap K → UserMap K
  unfolding fresh_endpoint purge
  store_endpoint addr channel inactive_timeout m =
      let inner = inner_of (lookup addr m) in
      let e = fresh_endpoint addr channel inactive_timeout in
      purge (insert addr (emplace channel e inner) m)

  -- `add_connection` goes on with the endpoint that it has made; this says where `emplace` has
  -- destroyed that one, so that what follows is undefined.
  unfoldable pub uses_destroyed : SocketAddr → ℕ → UserMap K → Bool
  unfolding find entry
  uses_destroyed addr channel m = elim (find addr channel m) [
    | some _ ↦ false
    | none ↦ elim (entry addr channel m) [ none ↦ false | some e ↦ true ]
  ]

  -- `add_connection`: what it makes of the table, and, where `uses_destroyed` holds, what it has made
  -- of it when it touches the endpoint that is gone.
  unfoldable pub add_connection : SocketAddr → ℕ → ℕ → UserMap K → UserMap K
  unfolding find store_endpoint config
  add_connection addr channel inactive_timeout m = elim (find addr channel m) [
    | some _ ↦ m
    | none ↦ config addr channel 1 (store_endpoint addr channel inactive_timeout m)
  ]

  abbrev pub is_drained : Option K → Bool
  is_drained none = false
  is_drained (some k) = kcp.waitsnd k == 0

  abbrev pub drained_at : Option (Endpoint K) → Bool
  drained_at none = false
  drained_at (some e) = is_drained e.ikcp

  -- `removeable`
  unfoldable pub removeable : SocketAddr → ℕ → UserMap K → Bool
  unfolding find
  removeable addr channel m = drained_at (find addr channel m)

  -- `aclose_connection` up to its wait: the first call marks the endpoint, a further one returns.
  unfoldable pub begin_close : Endpoint K → Endpoint K
  begin_close e = record e { is_closing = true }

  -- The wait: after each resumption the coroutine looks whether everything is sent.
  unfoldable pub wait_sent : List K → K → Option K
  wait_sent [] k = if kcp.waitsnd k == 0 then some k else none
  wait_sent (next ∷ later) k =
      let rest = wait_sent later next in if kcp.waitsnd k == 0 then some k else rest

  abbrev pub last_state : List K → K → K
  last_state [] k = k
  last_state (next ∷ later) k = last_state later next

  -- The endpoint as the wait leaves it: untouched where nothing is to be sent, and else waiting.
  abbrev pub waited : K → Endpoint K → Endpoint K
  waited k e = if kcp.waitsnd k == 0 then e else record e { wait_for_io = true }

  -- What follows the wait, and what `close_all_peer` does without one.
  unfoldable pub end_close : Endpoint K → Endpoint K
  end_close e = record e { ikcp = none; timer_reg = none }

  abbrev pub closed_after : Wait K → K → Option K → Endpoint K → Endpoint K
  closed_after w k none e = record (waited k e) {
    ikcp = some (last_state w.resumes k);
    timer_reg = w.timer;
  }
  closed_after w k (some sent) e = end_close (waited k e)

  -- `aclose_connection(endpoint, false)`
  unfoldable pub aclose_connection : Wait K → Endpoint K → Endpoint K
  unfolding begin_close wait_sent end_close
  aclose_connection w e = elim e.ikcp [
    | none ↦ e
    | some k ↦ if e.is_closing then e else closed_after w k (wait_sent w.resumes k) (begin_close e)
  ]

  -- `remove_connection`
  unfoldable pub remove_connection : SocketAddr → ℕ → Wait K → UserMap K → UserMap K
  unfolding find write_endpoint aclose_connection
  remove_connection addr channel w m =
      write_found (aclose_connection w) addr channel (find addr channel m) m

  -- The timers that `close_all_peer` removes.
  abbrev pub timers_of : List (ℕ × Endpoint K) → List TimerRegistered
  timers_of [] = []
  timers_of ((c, e) ∷ es) = elim e.ikcp [
    | none ↦ timers_of es
    | some k ↦ elim e.timer_reg [ none ↦ timers_of es | some t ↦ t ∷ timers_of es ]
  ]

  abbrev pub all_timers : UserMap K → List TimerRegistered
  all_timers [] = []
  all_timers ((a, inner) ∷ m) = timers_of inner ++ all_timers m

  -- `close_all_peer`: every endpoint is released and the map cleared.
  unfoldable pub close_all_peer : UserMap K → UserMap K × List TimerRegistered
  close_all_peer m = ([], all_timers m)
