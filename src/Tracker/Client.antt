-- ===== src/Tracker/Client.antt =====
-- lib/net/p2p/tracker.cc: `tracker_node_client_t`, the connection of a node to its tracker. A packet
-- among the effects is handed to `conn_awrite_packet`; how the writes end is an input. `is_connect` is
-- what `client_t` says, and the functions that `start_with` is given wait in `scheduled` until the
-- dispatcher runs them. What else happens to the client while a write waits comes after the function
-- that writes.
use p2p_live.Prelude.{
  ℕ, ◌%◌, Bool, true, false, ◌&&◌, ◌||◌, not, List, [], ◌∷◌, ◌++◌, map, if◌then◌else◌, ◌==◌,
  u16_mod, u32_mod,
}
use p2p_live.SocketAddr.{SocketAddr, addr_of, invalid_addr}
use p2p_live.Proto.{
  Package, Node, UdpConnectionReq, Strategy, ConnectionState, heart, tracker_info_req,
  tracker_info_rsp, init_connection_req, trackers_req, trackers_rsp, node_req, node_rsp,
  udp_connection_req,
}
use p2p_live.Tracker.Links.{magic}

-- The functions that `request_update_nodes` and `request_update_trackers` schedule.
pub data Task : Type 0 where
  asks_nodes asks_trackers : Task

-- `tracker_node_client_t`
pub record NodeClient : Type 0 where
  pub is_connect : Bool
  pub server_udp_address : SocketAddr
  pub client_rudp_port : ℕ
  pub client_outer_port : ℕ
  pub client_outer_ip : ℕ
  pub sid : ℕ
  pub key : List ℕ
  pub request_trackers : Bool
  pub is_peer_client : Bool
  pub wait_next_package : Bool
  pub node_queue : List (ℕ × Strategy)
  pub remote_server_address : SocketAddr
  pub scheduled : List Task

-- How `co::await` of a `conn_awrite_packet` ends: with a result, which the code ignores, or with an
-- exception. A list of them is for the writes to come, in order; where it is at its end, the write has
-- not come back.
pub data WriteEnd : Type 0 where
  came_back threw : WriteEnd

abbrev pub goes : List WriteEnd → Bool
goes (came_back ∷ ends) = true
goes _ = false

abbrev pub later_ends : List WriteEnd → List WriteEnd
later_ends [] = []
later_ends (e ∷ ends) = ends

-- Packets, calls of the application's handlers, and `client.connect`.
pub data ClientEffect : Type 0 where
  sends_package : Package → ClientEffect
  tracker_connected : ClientEffect
  nodes_updated trackers_updated : List Node → ClientEffect
  asked_to_connect : Node → ClientEffect
  dials_tracker : SocketAddr → ClientEffect

-- A turn of the loop goes on, or the function returns.
pub record ClientTurn : Type 0 where
  pub client : NodeClient
  pub effects : List ClientEffect
  pub goes_on : Bool

-- `config`
unfoldable pub config : (as_peer_server : Bool) → ℕ → List ℕ → NodeClient → NodeClient
config as_peer_server sid key s = record s {
  sid = sid;
  key = key;
  is_peer_client = not as_peer_server;
}

-- `connect_server`
unfoldable pub connect_server : SocketAddr → NodeClient → NodeClient × List ClientEffect
connect_server addr s = (
  record s {
    remote_server_address = addr;
    client_rudp_port = 0;
    wait_next_package = false;
    server_udp_address = invalid_addr;
  },
  dials_tracker addr ∷ [],
)

abbrev pub request_of : ℕ → ℕ × Strategy → ClientEffect
request_of sid (count, strategy) =
    sends_package
      (node_req (record { max_count = count % u32_mod; sid = sid; strategy = strategy }))

-- What the loop of `update_nodes` hands over and what it leaves in the queue; `over` is false where
-- it stands still in a write or an exception has left it.
pub record Flush : Type 0 where
  pub handed : List ClientEffect
  pub left : List (ℕ × Strategy)
  pub over : Bool

-- The loop of `update_nodes`: a request leaves the queue before it is written.
unfoldable pub flush : (sid : ℕ) → List (ℕ × Strategy) → List WriteEnd → Flush
flush sid [] ends = record { handed = []; left = []; over = true }
flush sid (r ∷ q) (came_back ∷ ends) =
    let rest = flush sid q ends in record rest { handed = request_of sid r ∷ rest.handed }
flush sid (r ∷ q) _ = record { handed = request_of sid r ∷ []; left = q; over = false }

-- A client after some writes, which have come back or not.
pub record Wrote : Type 0 where
  pub writer : NodeClient
  pub written : List ClientEffect
  pub all_back : Bool

-- `update_nodes`
unfoldable pub update_nodes : List WriteEnd → NodeClient → Wrote
unfolding flush
update_nodes ends s =
    let f = flush s.sid s.node_queue ends in
    record { writer = record s { node_queue = f.left }; written = f.handed; all_back = f.over }

-- `update_trackers`
unfoldable pub update_trackers : ℕ → List ClientEffect
update_trackers count = sends_package (trackers_req count) ∷ []

abbrev pub ask_info : List WriteEnd → List ClientEffect
ask_info ends = sends_package tracker_info_req ∷ (if goes ends then tracker_connected ∷ [] else [])

-- What `tmain` does before its loop.
unfoldable pub start_main : List WriteEnd → NodeClient → List ClientEffect
start_main ends s =
    if s.is_peer_client
    then ask_info ends
    else sends_package (init_connection_req s.sid s.key)
      ∷ (if goes ends then ask_info (later_ends ends) else [])

-- After `update_nodes` in a turn.
abbrev pub to_read : List ClientEffect → Wrote → NodeClient × List ClientEffect
to_read asked w = (
  if w.all_back then record w.writer { wait_next_package = true } else w.writer,
  asked ++ w.written,
)

-- A turn of its loop up to the read.
unfoldable pub begin_turn : List WriteEnd → NodeClient → NodeClient × List ClientEffect
unfolding update_nodes update_trackers
begin_turn ends s =
    if s.request_trackers
    then (if goes ends
        then to_read (update_trackers 50)
            (update_nodes (later_ends ends) (record s { request_trackers = false }))
        else (s, update_trackers 50))
    else to_read [] (update_nodes ends s)

-- What the read of a packet gives; a connection that is closed throws at the payload at the latest.
-- After a timeout `heart` is written.
pub data PackageRead : Type 0 where
  arrived : Package → PackageRead
  timed_out : (heart_write : List WriteEnd) → PackageRead
  thrown : ConnectionState → PackageRead

-- The fields of `peer_node_t` and `tracker_node_t` are `u16` and `u32`.
abbrev pub cut_node : Node → Node
cut_node n = record {
  port = n.port % u16_mod;
  udp_port = n.udp_port % u16_mod;
  ip = n.ip % u32_mod;
}

abbrev pub is_foreign : NodeClient → UdpConnectionReq → Bool
is_foreign s req = not (req.magic == magic) || (not (req.sid == s.sid) && not (s.sid == 0))

-- The packet of a turn; `remote_ip` is the tracker's.
unfoldable pub on_package : (remote_ip : ℕ) → Package → NodeClient → ClientTurn
on_package remote_ip (tracker_info_rsp port udp_port ip) s = record {
  client = record s {
    server_udp_address = addr_of remote_ip udp_port;
    client_outer_port = port % u16_mod;
    client_outer_ip = ip;
    client_rudp_port = udp_port % u16_mod;
  };
  effects = [];
  goes_on = true;
}
on_package remote_ip (node_rsp avl sid nodes) s = record {
  client = s;
  effects = nodes_updated (map cut_node nodes) ∷ [];
  goes_on = true;
}
on_package remote_ip (trackers_rsp avl trackers) s = record {
  client = s;
  effects = trackers_updated (map cut_node trackers) ∷ [];
  goes_on = true;
}
on_package remote_ip (udp_connection_req req) s =
    let node : Node = record {
      port = req.from_port;
      udp_port = req.from_udp_port;
      ip = req.from_ip;
    } in
    record {
      client = s;
      effects = if is_foreign s req then [] else asked_to_connect (cut_node node) ∷ [];
      goes_on = true;
    }
on_package remote_ip _ s = record { client = s; effects = []; goes_on = false }

-- The rest of a turn.
unfoldable pub end_turn : (remote_ip : ℕ) → PackageRead → NodeClient → ClientTurn
unfolding on_package
end_turn remote_ip (arrived p) s = on_package remote_ip p (record s { wait_next_package = false })
end_turn remote_ip (timed_out heart_write) s = record {
  client = record s { wait_next_package = false };
  effects = sends_package heart ∷ [];
  goes_on = goes heart_write;
}
end_turn remote_ip (thrown why) s = record { client = s; effects = []; goes_on = false }

-- `request_update_nodes`
unfoldable pub request_update_nodes : ℕ → Strategy → NodeClient → NodeClient × List ClientEffect
request_update_nodes count strategy s =
    let s' = record s { node_queue = s.node_queue ++ (count, strategy) ∷ [] } in
    if s.is_connect
    then (
      if s.wait_next_package then record s' { scheduled = s.scheduled ++ asks_nodes ∷ [] } else s',
      [],
    )
    else (s', dials_tracker s.remote_server_address ∷ [])

-- `request_update_trackers`: while a packet is being handled the request is dropped.
unfoldable pub request_update_trackers : NodeClient → NodeClient × List ClientEffect
request_update_trackers s =
    if s.is_connect
    then (
      if s.wait_next_package then record s { scheduled = s.scheduled ++ asks_trackers ∷ [] } else s,
      [],
    )
    else (record s { request_trackers = true }, dials_tracker s.remote_server_address ∷ [])

abbrev pub do_task : List WriteEnd → Task → NodeClient → NodeClient × List ClientEffect
do_task ends asks_nodes s = let w = update_nodes ends s in (w.writer, w.written)
do_task ends asks_trackers s = (s, update_trackers 100)

abbrev pub first_task : List WriteEnd → List Task → NodeClient → NodeClient × List ClientEffect
first_task ends [] s = (s, [])
first_task ends (t ∷ ts) s = do_task ends t (record s { scheduled = ts })

-- The dispatcher runs the first of the scheduled functions.
unfoldable pub run_task : List WriteEnd → NodeClient → NodeClient × List ClientEffect
unfolding update_nodes update_trackers
run_task ends s = first_task ends s.scheduled s

-- The message of `request_connect_node`, with the port of the socket that sends it.
unfoldable pub connect_request : (local_port : ℕ) → Node → NodeClient → Package
connect_request local_port node s = udp_connection_req (record {
  magic = magic;
  target_port = node.port;
  target_ip = node.ip;
  from_port = s.client_outer_port;
  from_ip = s.client_outer_ip;
  from_udp_port = local_port;
  sid = s.sid;
})
