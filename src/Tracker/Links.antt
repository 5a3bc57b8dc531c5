-- ===== src/Tracker/Links.antt =====
-- The rest of `tracker_server_t`: `client_main` on the links that it opens, `udp_main`, the error and
-- exit handlers of `bind`, `link_other_tracker_server` and `get_trackers`.
use p2p_live.Prelude.{
  ℕ, ◌*◌, Bool, true, false, Option, none, some, List, [], ◌∷◌, ◌++◌, if◌then◌else◌, ltb, ◌==◌,
  get_elem?, lookup, insert, sub_u64,
}
use p2p_live.SocketAddr.{SocketAddr, addr_of, addr_eq_inst}
use p2p_live.Proto.{
  Package, Node, UdpConnectionReq, ConnectionState, pong, udp_connection_req, timeout,
  connection_refuse, invalid_request,
}
use p2p_live.Tracker.{
  TrackerServer, TrackerInfo, NodeInfo, Effect, sends, peer_removed, peer_failed, link_failed,
  unlinked, peer_connects, dials, tick_timespan, tick_times,
}
use p2p_live.Tracker.Listing.{Links}
use p2p_live.Tracker.Server.{Turn, ping_of, update_tracker}

-- What `await_timeout(tick_timespan, conn_aread_packet_head, ...)` gives.
pub data HeadRead : Type 0 where
  head : (size : ℕ) → HeadRead
  timed_out broken : HeadRead

-- The second half of a turn: a payload of `len` bytes is awaited, and must be a pong. `content` is
-- what arrives for a read of that length, `none` where the read fails.
unfoldable pub read_pong :
    ℕ → SocketAddr → ℕ → (ℕ → Option Package) → ℕ → List Effect → TrackerServer → Turn
unfolding update_tracker
read_pong now addr conn content len before s = elim (content len) [
  | none ↦ record { server = s; effects = before; goes_on = false }
  | some p ↦ pong_or_error p
]
  where
    pong_or_error : Package → Turn
    pong_or_error (pong p) = record {
      server = update_tracker now addr conn p s;
      effects = before;
      goes_on = true;
    }
    pong_or_error _ = record {
      server = s;
      effects = before ++ link_failed addr invalid_request ∷ [];
      goes_on = true;
    }

-- Has the link been silent for `tick_times` ticks?
abbrev pub is_silent : ℕ → Option TrackerInfo → Bool
is_silent now none = false
is_silent now (some info) = ltb (tick_timespan * tick_times) (sub_u64 now info.last_ping)

-- A turn of the loop in `client_main`. After a timeout that is not the last one the source goes on to
-- the payload with `head.size` unset: `junk`.
unfoldable pub client_turn :
    ℕ → SocketAddr → ℕ → HeadRead → ℕ → (ℕ → Option Package) → TrackerServer → Turn
unfolding read_pong ping_of
client_turn now addr conn (head size) junk content s = read_pong now addr conn content size [] s
client_turn now addr conn timed_out junk content s =
    if is_silent now (lookup addr s.trackers)
    then record { server = s; effects = link_failed addr timeout ∷ []; goes_on = false }
    else read_pong now addr conn content junk (sends conn (ping_of s) ∷ []) s
client_turn now addr conn broken junk content s = record {
  server = s;
  effects = link_failed addr connection_refuse ∷ [];
  goes_on = false;
}

-- `magic`
abbrev pub magic : ℕ
magic = 0x5faf2412

-- The message to the target, and the handler's call before it, if its connection is alive.
abbrev pub punch : (ℕ → Bool) → UdpConnectionReq → Option NodeInfo → List Effect
punch alive req none = []
punch alive req (some info) =
    if alive info.conn
    then peer_connects (record { port = req.target_port; udp_port = 0; ip = req.target_ip })
      ∷ (sends info.conn (udp_connection_req req) ∷ [])
    else []

abbrev pub node_at : TrackerServer → Option ℕ → Option NodeInfo
node_at s none = none
node_at s (some index) = get_elem? s.node_infos index

-- `udp_main`, on the request that it parsed; `from_port` is the port that the datagram came from.
unfoldable pub udp_main : (ℕ → Bool) → ℕ → UdpConnectionReq → TrackerServer → List Effect
udp_main alive port req s =
    if req.magic == magic
    then if req.from_port == 0
      then []
      else punch alive (record req { from_udp_port = port })
          (node_at s (lookup (addr_of req.target_ip req.target_port) s.nodes))
    else []

abbrev pub close_link : Option TrackerInfo → SocketAddr → Links → Links
close_link none addr links = links
close_link (some info) addr links = insert addr (record info { is_closed = true }) links

abbrev pub failed_peer : SocketAddr → ConnectionState → Option NodeInfo → List Effect
failed_peer addr why none = []
failed_peer addr why (some info) = peer_failed addr info.sid why ∷ []

abbrev pub removed_peer : Option NodeInfo → List Effect
removed_peer none = []
removed_peer (some info) = peer_removed info.node info.sid ∷ []

-- The handler that `bind` gives to `on_client_error`.
unfoldable pub client_error :
    SocketAddr → ConnectionState → TrackerServer → TrackerServer × List Effect
client_error addr why s = elim (lookup addr s.trackers) [
  | some info ↦
      (record s { trackers = close_link (some info) addr s.trackers }, link_failed addr why ∷ [])
  | none ↦ (s, failed_peer addr why (node_at s (lookup addr s.nodes)))
]

-- The handler that `bind` gives to `on_client_exit`.
unfoldable pub client_exit : SocketAddr → TrackerServer → TrackerServer × List Effect
client_exit addr s = elim (lookup addr s.trackers) [
  | some info ↦ (record s { trackers = close_link (some info) addr s.trackers }, unlinked addr ∷ [])
  | none ↦ (s, removed_peer (node_at s (lookup addr s.nodes)))
]

-- `link_other_tracker_server`; `junk` is the `udp_port` that the source leaves unset.
unfoldable pub link_other_tracker_server :
    ℕ → SocketAddr → TrackerServer → TrackerServer × List Effect
link_other_tracker_server junk addr s = elim (lookup addr s.trackers) [
  | some _ ↦ (s, [])
  | none ↦ (record s { trackers = insert addr dialled s.trackers }, dials addr ∷ [])
]
  where
    dialled : TrackerInfo
    dialled = record {
      last_ping = 0;
      workload = 0;
      neighbors = 0;
      node = record { port = addr.port; udp_port = junk; ip = addr.ip };
      conn_server = 0;
      is_client = true;
      is_closed = false;
    }

-- The `on_server_error` handler of a link that this server opened.
unfoldable pub link_error :
    SocketAddr → ConnectionState → TrackerServer → TrackerServer × List Effect
link_error addr why s = (
  record s { trackers = close_link (lookup addr s.trackers) addr s.trackers },
  link_failed addr why ∷ [],
)

-- Its `on_server_disconnect` handler.
unfoldable pub link_disconnect : SocketAddr → TrackerServer → TrackerServer × List Effect
link_disconnect addr s = (s, unlinked addr ∷ [])

-- `get_trackers`
unfoldable pub get_trackers : ℕ → Links → List Node
get_trackers now [] = []
get_trackers now ((addr, info) ∷ rest) =
    if ltb (sub_u64 now info.last_ping) (tick_timespan * tick_times)
    then info.node ∷ get_trackers now rest
    else get_trackers now rest
