-- ===== src/Proto.antt =====
-- include/net/proto/msg.proto: the messages, as the C++ code reads them. Bytes are lists of numbers,
-- and a message that is missing or of an unknown kind is `unset`.
use p2p_live.Prelude.{ℕ, List, Bool}

-- `RequestNodeStrategy`; an enum field of proto3 may hold any number.
pub data Strategy : Type 0 where
  random min_workload edge_nodes : Strategy
  other : ℕ → Strategy

-- `PingPong`
pub record PingPong : Type 0 where
  pub peer_workload : ℕ
  pub tracker_neighbor_count : ℕ
  pub port : ℕ
  pub udp_port : ℕ

-- `Node` and `Tracker`, and `peer_node_t` and `tracker_node_t`, which have the same fields.
pub record Node : Type 0 where
  pub port : ℕ
  pub udp_port : ℕ
  pub ip : ℕ

-- `NodeReq`
pub record NodeReq : Type 0 where
  pub max_count : ℕ
  pub sid : ℕ
  pub strategy : Strategy

-- `UDPConnectionReq`
pub record UdpConnectionReq : Type 0 where
  pub magic : ℕ
  pub target_port : ℕ
  pub target_ip : ℕ
  pub from_port : ℕ
  pub from_ip : ℕ
  pub from_udp_port : ℕ
  pub sid : ℕ

-- `Package`: the oneof.
pub data Package : Type 0 where
  unset : Package
  init_req : (sid : ℕ) → Package
  init_rsp : (fragment_id_beg fragment_id_end : ℕ) → Package
  fragment_req : (priority : ℕ) → (fragment_ids : List ℕ) → Package
  fragment_rsp : (fragment_id length : ℕ) → (bytes : List ℕ) → Package
  fragment_rsp_rest : (is_rst : Bool) → (bytes : List ℕ) → Package
  meta_req : (key : ℕ) → Package
  meta_rsp : (key : ℕ) → (value : List ℕ) → Package
  cancel : (fragment_ids : List ℕ) → Package
  heart : Package
  ping : PingPong → Package
  pong : PingPong → Package
  tracker_info_req : Package
  tracker_info_rsp : (port udp_port ip : ℕ) → Package
  init_connection_req : (sid : ℕ) → (key : List ℕ) → Package
  init_connection_rsp : Package
  trackers_req : (max_count : ℕ) → Package
  trackers_rsp : (avl_count : ℕ) → (trackers : List Node) → Package
  node_req : NodeReq → Package
  node_rsp : (avl_count sid : ℕ) → (nodes : List Node) → Package
  udp_connection_req : UdpConnectionReq → Package

-- `connection_state` of include/net/net_exception.hpp
pub data ConnectionState : Type 0 where
  closed close_by_peer connection_refuse address_in_used no_resource timeout : ConnectionState
  secure_check_failed invalid_request : ConnectionState
