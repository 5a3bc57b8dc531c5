-- ===== src/Tracker.antt =====
-- include/net/p2p/tracker.hpp and lib/net/p2p/tracker.cc: the state of `tracker_server_t` and what
-- its handlers do to the world. Connections are numbers; time and random numbers are arguments.
pub mod Search
pub mod Listing
pub mod Server
pub mod Links
pub mod Registry
pub mod EdgeKey
pub mod Replies
pub mod Punching
pub mod Client
pub mod Requests
pub mod Tests
use p2p_live.Prelude.{ℕ, ◌*◌, Bool, List, leb, sub_u64}
use p2p_live.SocketAddr.{SocketAddr}
use p2p_live.Proto.{Node, Package, ConnectionState}

-- `tracker_info_t`
pub record TrackerInfo : Type 0 where
  pub last_ping : ℕ
  pub workload : ℕ
  pub neighbors : ℕ
  pub node : Node
  pub conn_server : ℕ
  pub is_client : Bool
  pub is_closed : Bool

-- `node_info_t`
pub record NodeInfo : Type 0 where
  pub last_ping : ℕ
  pub workload : ℕ
  pub node : Node
  pub sid : ℕ
  pub conn : ℕ

-- `tracker_server_t`. `tcp_port` and `udp_port` are what `local_addr` gives for the two sockets.
-- The maps are lists in the order in which the source iterates them.
pub record TrackerServer : Type 0 where
  pub tcp_port : ℕ
  pub udp_port : ℕ
  pub edge_key : List ℕ
  pub trackers : List (SocketAddr × TrackerInfo)
  pub nodes : List (SocketAddr × ℕ)
  pub node_infos : List NodeInfo

-- What a handler does outside the server's state: packets, and calls of the handlers that the
-- application set. (A handler that is not set drops its call.)
pub data Effect : Type 0 where
  sends : (conn : ℕ) → Package → Effect
  peer_added peer_removed : Node → (sid : ℕ) → Effect
  peer_failed : SocketAddr → (sid : ℕ) → ConnectionState → Effect
  link_failed : SocketAddr → ConnectionState → Effect
  unlinked : SocketAddr → Effect
  peer_connects : Node → Effect
  dials : SocketAddr → Effect

-- `node_tick_timespan` and `node_tick_times`
abbrev pub node_tick_timespan : ℕ
node_tick_timespan = 30000000

abbrev pub node_tick_times : ℕ
node_tick_times = 2

-- `tick_timespan` and `tick_times`
abbrev pub tick_timespan : ℕ
tick_timespan = 60000000

abbrev pub tick_times : ℕ
tick_times = 2

-- `cur_time - last_ping <= node_tick_times * node_tick_timespan`, on `u64`.
abbrev pub is_fresh : ℕ → NodeInfo → Bool
is_fresh now info = leb (sub_u64 now info.last_ping) (node_tick_times * node_tick_timespan)
