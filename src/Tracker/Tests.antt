-- ===== src/Tracker/Tests.antt =====
-- The tracker's theorems on a small server: one viewer of session 7, one edge server, one open and one
-- closed link.
use p2p_live.Prelude.{
  map, ◌++◌, ℕ, ◌+◌, ◌≡◌, refl, arith, Bool, true, false, some, List, [], ◌∷◌, length, take, min,
}
use p2p_live.Tracker.Client.{came_back, threw, NodeClient, request_of}
use p2p_live.Tracker.Requests.{
  ClientStep, wants_nodes, links, begins, runs_task, run_client, node_reqs, node_reqs-run_client,
}
use p2p_live.SocketAddr.{invalid_addr, SocketAddr, IsIpv4, addr_eq_inst}
use p2p_live.Proto.{
  UdpConnectionReq, NodeReq, random, edge_nodes, node_req, node_rsp, init_connection_req, heart,
  trackers_req, trackers_rsp,
}
use p2p_live.Tracker.{TrackerServer, TrackerInfo, NodeInfo, sends}
use p2p_live.Tracker.Search.{node_loop, matching, rotate, node_loop_lem}
use p2p_live.Tracker.Listing.{open_links, link_nodes}
use p2p_live.Tracker.Server.{server_turn, node_limit, picks}
use p2p_live.Tracker.Registry.{IsRegistered, server_turn-IsRegistered}
use p2p_live.Tracker.Replies.{
  node_answer, answered, is_answered, server_turn-node_req, server_turn-trackers_req,
}
use p2p_live.Tracker.EdgeKey.{Event, run_turns, edge_nodes_need_key}

abbrev viewer_addr : SocketAddr
viewer_addr = record { family = 2; ip = 167772161; port = 5000 }

abbrev viewer : NodeInfo
viewer = record {
  last_ping = 1000;
  workload = 0;
  node = record { port = 5000; udp_port = 0; ip = 167772161 };
  sid = 7;
  conn = 1;
}

abbrev edge : NodeInfo
edge = record {
  last_ping = 1000;
  workload = 0;
  node = record { port = 6000; udp_port = 0; ip = 167772162 };
  sid = 0;
  conn = 2;
}

abbrev link_of : Bool → ℕ → TrackerInfo
link_of gone port = record {
  last_ping = 0;
  workload = 0;
  neighbors = 0;
  node = record { port = port; udp_port = port; ip = 167772163 };
  conn_server = 3;
  is_client = true;
  is_closed = gone;
}

abbrev link_addr : ℕ → SocketAddr
link_addr port = record { family = 2; ip = 167772163; port = port }

abbrev empty_server : TrackerServer
empty_server = record {
  tcp_port = 80;
  udp_port = 81;
  edge_key = 1 ∷ 2 ∷ [];
  trackers = [];
  nodes = [];
  node_infos = [];
}

abbrev busy_server : TrackerServer
busy_server = record empty_server {
  trackers = (link_addr 1, link_of true 1) ∷ (link_addr 2, link_of false 2) ∷ [];
  node_infos = viewer ∷ edge ∷ [];
}

abbrev some_req : NodeReq
some_req = record { max_count = 10; sid = 7; strategy = random }

server_turn-node_req_example :
    let answer = node_answer 2000 5 (node_limit 10) 7 (viewer ∷ edge ∷ []) random in
    server_turn 2000 5 viewer_addr 1 (node_req some_req) busy_server
    ≡ record { server = busy_server; effects = answered 1 answer; goes_on = is_answered answer }
server_turn-node_req_example = server_turn-node_req 2000 5 viewer_addr 1 some_req busy_server

server_turn-trackers_req_example :
    server_turn 2000 5 viewer_addr 1 (trackers_req 10) busy_server ≡ record {
      server = record busy_server { trackers = open_links busy_server.trackers };
      effects =
          sends 1 (
            trackers_rsp
              (length (open_links busy_server.trackers))
              (take (min 500 10) (link_nodes (open_links busy_server.trackers))))
          ∷ [];
      goes_on = true;
    }
server_turn-trackers_req_example = server_turn-trackers_req 2000 5 viewer_addr 1 10 busy_server

viewer_addr-IsIpv4 : IsIpv4 viewer_addr
viewer_addr-IsIpv4 = record { inet = refl; ip_fits = omega arith; port_fits = omega arith }

empty_server-IsRegistered : IsRegistered empty_server
empty_server-IsRegistered = record { entry = λ addr index e. absurd cc }

server_turn-IsRegistered_example :
    IsRegistered (server_turn 2000 5 viewer_addr 1 (init_connection_req 7 []) empty_server).server
server_turn-IsRegistered_example =
    server_turn-IsRegistered 2000 5 viewer_addr 1 (init_connection_req 7 []) empty_server
      viewer_addr-IsIpv4 empty_server-IsRegistered

node_loop_lem_example :
    node_loop (length (viewer ∷ edge ∷ []) + 1) (viewer ∷ edge ∷ []) 5 (picks 2000 7) 1 1 false []
    ≡ some (take 5 (matching (picks 2000 7) (rotate 1 (viewer ∷ edge ∷ []))))
node_loop_lem_example = node_loop_lem (viewer ∷ edge ∷ []) 5 (picks 2000 7) 1 (omega arith)

-- A viewer joins, and somebody tries session 0 with a wrong key.
abbrev history : List Event
history =
    record {
      now = 1000;
      rnd = 0;
      addr = viewer_addr;
      conn = 1;
      package_in = init_connection_req 7 [];
    }
    ∷ record {
      now = 1500;
      rnd = 0;
      addr = viewer_addr;
      conn = 1;
      package_in = init_connection_req 0 (9 ∷ []);
    }
    ∷ record { now = 1600; rnd = 0; addr = viewer_addr; conn = 1; package_in = heart }
    ∷ []

edge_nodes_need_key_example :
    let req : NodeReq = record { max_count = 10; sid = 0; strategy = edge_nodes } in
    (server_turn 2000 5 viewer_addr 1 (node_req req) (run_turns history empty_server)).effects
    ≡ sends 1 (node_rsp 0 0 []) ∷ []
edge_nodes_need_key_example =
    edge_nodes_need_key history empty_server 2000 5 viewer_addr 1 10 0 (refl, (refl, (refl, tt))) tt

abbrev joined_server : TrackerServer
joined_server = (server_turn 2000 5 viewer_addr 1 (init_connection_req 7 []) empty_server).server

abbrev punch_req : UdpConnectionReq
punch_req = record {
  magic = 1605313554;
  target_port = 5000;
  target_ip = 167772161;
  from_port = 7000;
  from_ip = 1;
  from_udp_port = 0;
  sid = 7;
}

abbrev new_client : NodeClient
new_client = record {
  is_connect = false;
  server_udp_address = invalid_addr;
  client_rudp_port = 0;
  client_outer_port = 0;
  client_outer_ip = 0;
  sid = 7;
  key = [];
  request_trackers = false;
  is_peer_client = false;
  wait_next_package = false;
  node_queue = [];
  remote_server_address = link_addr 80;
  scheduled = [];
}

-- The write of the second request throws, so the third waits in the queue.
abbrev client_steps : List ClientStep
client_steps =
    wants_nodes 10 random
    ∷ links true
    ∷ begins (came_back ∷ [])
    ∷ wants_nodes 5 edge_nodes
    ∷ wants_nodes 3 random
    ∷ runs_task (threw ∷ [])
    ∷ []

node_reqs-run_client_example :
    node_reqs (run_client client_steps new_client).1
      ++ map (request_of 7) (run_client client_steps new_client).0.node_queue
    ≡ request_of 7 (10, random) ∷ request_of 7 (5, edge_nodes) ∷ request_of 7 (3, random) ∷ []
node_reqs-run_client_example = node_reqs-run_client client_steps new_client
