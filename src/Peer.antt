-- ===== src/Peer.antt =====
-- include/net/p2p/peer.hpp and lib/net/p2p/peer.cc: `peer_t`, which keeps the table of peers and
-- exchanges media fragments and metadata with them over reliable UDP channels. This file has the data.
pub mod Sending
pub mod Tests
pub mod Receiving
pub mod Table
pub mod Connections
pub mod Queues
pub mod Draining
pub mod Delivery
pub mod Rests
pub mod Fragments
use p2p_live.Prelude.{ℕ, Bool, Option, none, List, []}
use p2p_live.SocketAddr.{SocketAddr}

-- The kinds of `Package` that peers exchange, with their fields; `unset` is any other kind.
pub data PeerPackage : Type 0 where
  init_req : (sid : ℕ) → PeerPackage
  init_rsp : PeerPackage
  heart : PeerPackage
  fragment_req : (priority : ℕ) (fragment_ids : List ℕ) → PeerPackage
  fragment_rsp : (fragment_id len : ℕ) (content : List ℕ) → PeerPackage
  fragment_rsp_rest : (is_rst : Bool) (content : List ℕ) → PeerPackage
  meta_req : (key : ℕ) → PeerPackage
  meta_rsp : (key : ℕ) (value : List ℕ) → PeerPackage
  unset : PeerPackage

-- `fragment_recv_buffer_cache` where it is not null: the array, all of it valid data, and the walk
-- offset.
pub record Cache : Type 0 where
  pub bytes : List ℕ
  pub walked : ℕ

-- `channel_info_t`; a buffer in a queue is the bytes it shows.
pub record ChannelInfo : Type 0 where
  pub frag_request_queue : List (List ℕ × ℕ)
  pub meta_request_queue : List ℕ
  pub fragment_send_queue : List (ℕ × List ℕ)
  pub meta_send_queue : List (ℕ × List ℕ)
  pub fragment_recv_id : ℕ
  pub fragment_recv_buffer_cache : Option Cache

-- `channel_info_t()`. The source leaves `fragment_recv_id` unset.
abbrev pub empty_channel : ChannelInfo
empty_channel = record {
  frag_request_queue = [];
  meta_request_queue = [];
  fragment_send_queue = [];
  meta_send_queue = [];
  fragment_recv_id = 0;
  fragment_recv_buffer_cache = none;
}

-- `peer_info_t`
pub record PeerInfo : Type 0 where
  pub channel : List (ℕ × ChannelInfo)
  pub remote_address : Option SocketAddr
  pub sid : ℕ
  pub last_ping : ℕ
  pub has_connect : Bool

-- Which of the `std::function` members are set.
pub record Handlers : Type 0 where
  pub meta_recv_handler : Bool
  pub fragment_recv_handler : Bool
  pub connect_handler : Bool
  pub fragment_handler : Bool
  pub meta_handler : Bool

-- What a step does besides changing the state: a package that `rudp_awrite` takes, or a call of a
-- handler.
pub data PeerEffect : Type 0 where
  written : PeerPackage → PeerEffect
  connected : PeerEffect
  meta_pulled : (key : ℕ) → PeerEffect
  meta_received : (key : ℕ) (value : List ℕ) → PeerEffect
  fragment_pulled : (fragment_id : ℕ) → PeerEffect
  fragment_received : (fragment_id : ℕ) (content : List ℕ) → PeerEffect
