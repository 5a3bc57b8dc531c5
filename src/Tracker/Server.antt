-- ===== src/Tracker/Server.antt =====
-- `tracker_server_t::server_main`: one function for each kind of package, and the dispatch.
use p2p_live.Prelude.{
  ℕ, ◌+◌, ◌%◌, Bool, true, false, ◌&&◌, Option, none, some, List, [], ◌∷◌, ◌++◌, if◌then◌else◌, ltb,
  ◌==◌, length, get_elem?, set, lookup, insert, min, not,
}
use p2p_live.SocketAddr.{SocketAddr, addr_eq_inst}
use p2p_live.Proto.{
  Package, PingPong, Node, NodeReq, ping, pong, tracker_info_req, tracker_info_rsp,
  init_connection_req, trackers_req, trackers_rsp, node_req, node_rsp, heart, random, min_workload,
  edge_nodes, other, secure_check_failed,
}
use p2p_live.Tracker.{
  TrackerServer, TrackerInfo, NodeInfo, Effect, sends, peer_added, peer_failed, is_fresh,
}
use p2p_live.Tracker.Search.{node_loop}
use p2p_live.Tracker.Listing.{list_trackers}

-- What one turn of the loop in `server_main` leaves: `goes_on` is false where it returns.
pub record Turn : Type 0 where
  pub server : TrackerServer
  pub effects : List Effect
  pub goes_on : Bool

-- `do_ping_pong` with code 1, the answer, and with code 0.
unfoldable pub pong_of : TrackerServer → Package
pong_of s = pong (record {
  peer_workload = length s.nodes;
  tracker_neighbor_count = length s.trackers;
  port = s.tcp_port;
  udp_port = s.udp_port;
})

unfoldable pub ping_of : TrackerServer → Package
ping_of s = ping (record {
  peer_workload = length s.nodes;
  tracker_neighbor_count = length s.trackers;
  port = s.tcp_port;
  udp_port = s.udp_port;
})

-- A new `tracker_info_t` for a link that this server did not open.
abbrev pub fresh_tracker : SocketAddr → PingPong → TrackerInfo
fresh_tracker addr p = record {
  last_ping = 0;
  workload = 0;
  neighbors = 0;
  node = record { port = p.port; udp_port = p.udp_port; ip = addr.ip };
  conn_server = 0;
  is_client = false;
  is_closed = false;
}

abbrev pub info_or : Option TrackerInfo → TrackerInfo → TrackerInfo
info_or none d = d
info_or (some i) d = i

-- `update_tracker`
unfoldable pub update_tracker : ℕ → SocketAddr → ℕ → PingPong → TrackerServer → TrackerServer
update_tracker now addr conn p s =
    let info = info_or (lookup addr s.trackers) (fresh_tracker addr p) in
    record s {
      trackers =
          insert addr
            (record info {
              workload = p.peer_workload;
              neighbors = p.tracker_neighbor_count;
              conn_server = conn;
              last_ping = now;
            })
            s.trackers;
    }

-- `has_ping`
unfoldable pub handle_ping : ℕ → SocketAddr → ℕ → PingPong → TrackerServer → Turn
unfolding update_tracker
handle_ping now addr conn p s =
    let s' = update_tracker now addr conn p s in
    record { server = s'; effects = sends conn (pong_of s') ∷ []; goes_on = true }

-- `has_tracker_info_req`: the address as this server sees it, which is the outer one behind a NAT.
unfoldable pub handle_tracker_info : SocketAddr → ℕ → TrackerServer → Turn
handle_tracker_info addr conn s = record {
  server = s;
  effects = sends conn (tracker_info_rsp addr.port s.udp_port addr.ip) ∷ [];
  goes_on = true;
}

-- `std::min((int)req.max_count(), 500)`. A count from 2 ^ 31 on is negative as an `int`, and the loop
-- then stops at once, as it does for 0.
unfoldable pub node_limit : ℕ → ℕ
node_limit max_count = if ltb max_count 2147483648 then min max_count 500 else 0

abbrev pub count_sid : ℕ → List NodeInfo → ℕ
count_sid sid [] = 0
count_sid sid (x ∷ xs) = (if x.sid == sid then 1 else 0) + count_sid sid xs

abbrev pub picks : ℕ → ℕ → NodeInfo → Bool
picks now sid x = sid == x.sid && is_fresh now x

abbrev pub found_nodes : Option (List Node) → List Node
found_nodes none = []
found_nodes (some ns) = ns

-- `int start = rand() % node_infos.size();` and the loop, with fuel for one round of the table.
unfoldable pub search_nodes : ℕ → ℕ → (NodeInfo → Bool) → List NodeInfo → List Node
unfolding node_loop
search_nodes rnd cnt pick infos =
    if length infos == 0
    then []
    else let start = rnd % length infos in
      found_nodes (node_loop (length infos + 1) infos cnt pick start start false [])

abbrev pub reply : ℕ → Package → TrackerServer → Turn
reply conn p s = record { server = s; effects = sends conn p ∷ []; goes_on = true }

-- `has_node_req`; `rnd` is what `rand()` gives.
unfoldable pub handle_node_req : ℕ → ℕ → ℕ → NodeReq → TrackerServer → Turn
unfolding node_limit search_nodes
handle_node_req now rnd conn req s = elim req.strategy [
  | random ↦
      reply conn
        (node_rsp (length s.node_infos) req.sid
          (search_nodes rnd (node_limit req.max_count) (picks now req.sid) s.node_infos))
        s
  | min_workload ↦ reply conn (node_rsp 0 req.sid []) s
  | edge_nodes ↦
      reply conn
        (node_rsp (count_sid 0 s.node_infos) req.sid
          (search_nodes rnd (node_limit req.max_count) (picks now 0) s.node_infos))
        s
  | other _ ↦ record { server = s; effects = []; goes_on = false }
]

-- `has_trackers_req`
unfoldable pub handle_trackers_req : ℕ → ℕ → TrackerServer → Turn
unfolding list_trackers
handle_trackers_req conn max_count s =
    let (kept, sent, avl) = list_trackers (min 500 max_count) 0 s.trackers in
    reply conn (trackers_rsp avl sent) (record s { trackers = kept })

-- `node_info_t()` and the four assignments for a node that joins.
abbrev pub fresh_node : SocketAddr → ℕ → NodeInfo
fresh_node addr conn = record {
  last_ping = 0;
  workload = 0;
  node = record { port = addr.port; udp_port = 0; ip = addr.ip };
  sid = 0;
  conn = conn;
}

-- `nodes.find(remote_addr)` and the insertion where it is not there: the server and the index.
unfoldable pub join_node : SocketAddr → ℕ → TrackerServer → TrackerServer × ℕ
join_node addr conn s = elim (lookup addr s.nodes) [
  | some index ↦ (s, index)
  | none ↦ (
    record s {
      nodes = insert addr (length s.node_infos) s.nodes;
      node_infos = s.node_infos ++ fresh_node addr conn ∷ [];
    },
    length s.node_infos,
  )
]

-- A write through `node_infos[index]`; `none` is an index out of range.
abbrev pub update_node : Option NodeInfo → ℕ → (NodeInfo → NodeInfo) → List NodeInfo → List NodeInfo
update_node none i f infos = infos
update_node (some x) i f infos = set infos i (f x)

abbrev pub added_effect : Option NodeInfo → ℕ → List Effect
added_effect none sid = []
added_effect (some x) sid = peer_added x.node sid ∷ []

abbrev pub touch : ℕ → ℕ → NodeInfo → NodeInfo
touch now sid x = record x { last_ping = now; sid = sid }

abbrev pub beat : ℕ → NodeInfo → NodeInfo
beat now x = record x { last_ping = now }

abbrev pub same_bytes : List ℕ → List ℕ → Bool
same_bytes [] [] = true
same_bytes [] (y ∷ ys) = false
same_bytes (x ∷ xs) [] = false
same_bytes (x ∷ xs) (y ∷ ys) = x == y && same_bytes xs ys

unfoldable pub accept_node : ℕ → SocketAddr → ℕ → ℕ → TrackerServer → Turn
unfolding join_node
accept_node now addr conn sid s =
    let (s', index) = join_node addr conn s in
    let hit = get_elem? s'.node_infos index in
    record {
      server = record s' { node_infos = update_node hit index (touch now sid) s'.node_infos };
      effects = added_effect hit sid;
      goes_on = true;
    }

-- `has_init_connection_req`: an edge server, which has session 0, must know the key.
unfoldable pub handle_init : ℕ → SocketAddr → ℕ → ℕ → List ℕ → TrackerServer → Turn
unfolding accept_node
handle_init now addr conn sid key s =
    if sid == 0 && not (same_bytes key s.edge_key)
    then record {
      server = s;
      effects = peer_failed addr sid secure_check_failed ∷ [];
      goes_on = false;
    }
    else accept_node now addr conn sid s

-- `has_heart`
unfoldable pub handle_heart : ℕ → SocketAddr → TrackerServer → Turn
handle_heart now addr s = elim (lookup addr s.nodes) [
  | none ↦ record { server = s; effects = []; goes_on = true }
  | some index ↦ record {
    server = record s {
      node_infos = update_node (get_elem? s.node_infos index) index (beat now) s.node_infos;
    };
    effects = [];
    goes_on = true;
  }
]

-- The dispatch, in the order of the source's tests; a package has one kind at most.
unfoldable pub server_turn : ℕ → ℕ → SocketAddr → ℕ → Package → TrackerServer → Turn
unfolding handle_ping handle_tracker_info handle_node_req handle_trackers_req handle_init
    handle_heart
server_turn now rnd addr conn (ping p) s = handle_ping now addr conn p s
server_turn now rnd addr conn tracker_info_req s = handle_tracker_info addr conn s
server_turn now rnd addr conn (node_req req) s = handle_node_req now rnd conn req s
server_turn now rnd addr conn (trackers_req n) s = handle_trackers_req conn n s
server_turn now rnd addr conn (init_connection_req sid key) s = handle_init now addr conn sid key s
server_turn now rnd addr conn heart s = handle_heart now addr s
server_turn now rnd addr conn _ s = record { server = s; effects = []; goes_on = false }
