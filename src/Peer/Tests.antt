-- ===== src/Peer/Tests.antt =====
-- The peer's theorems at small inputs: 10 bytes over an mtu of 20, and a table with one peer.
use p2p_live.Prelude.{
  ℕ, ◌+◌, ◌≡◌, refl, arith, true, none, some, List, [], ◌∷◌, length, replicate, length-replicate,
  if◌then◌else◌, ◌==◌, lookup, nat_eq,
}
use p2p_live.SocketAddr.{SocketAddr, addr_eq, invalid_addr}
use p2p_live.Peer.{
  PeerPackage, meta_req, fragment_rsp, fragment_rsp_rest, PeerInfo, Handlers, empty_channel,
}
use p2p_live.Peer.Sending.{send_fragments}
use p2p_live.Peer.Delivery.{Delivered}
use p2p_live.Peer.Fragments.{HasOverhead, receive_all-send_fragments}
use p2p_live.Peer.Queues.{pull_meta_data, async_do_write, do_write}
use p2p_live.Peer.Draining.{Reach, start, after, pulls_meta, runs_one, Reach-drained}
use p2p_live.Peer.Table.{
  PeerTable, add_peer, find_peer, has_connect_peer, connect_to_peer, disconnect, add_all,
  remove_all,
}
use p2p_live.Peer.Connections.{connect_to_peer-add_peer, disconnect-connect_to_peer}

-- Sizes that follow protobuf's rules for short fields.
abbrev sizes : PeerPackage → ℕ
sizes (fragment_rsp fid len content) = 6 + length content
sizes (fragment_rsp_rest is_rst content) = 4 + length content
sizes _ = 2

sizes-HasOverhead : HasOverhead sizes
sizes-HasOverhead fid len content small = (omega arith, omega arith)

abbrev zeros : ℕ → List ℕ
zeros n = replicate n 0

abbrev handlers : Handlers
handlers = record {
  meta_recv_handler = true;
  fragment_recv_handler = true;
  connect_handler = true;
  fragment_handler = true;
  meta_handler = true;
}

abbrev new_peer : PeerInfo
new_peer = record {
  channel = [];
  remote_address = none;
  sid = 3;
  last_ping = 0;
  has_connect = true;
}

abbrev ten_bytes : List ℕ
ten_bytes = 1 ∷ 2 ∷ 3 ∷ 4 ∷ 5 ∷ 6 ∷ 7 ∷ 8 ∷ 9 ∷ 10 ∷ []

receive_all-send_fragments_example :
    (pkgs : List PeerPackage) × (send_fragments sizes 20 77 ten_bytes
      ≡ some (record { packages = pkgs; complete = true }))
    × Delivered zeros 5 3 handlers 1 77 ten_bytes new_peer pkgs
receive_all-send_fragments_example =
    receive_all-send_fragments zeros 5 3 handlers 1 refl (λ n. length-replicate n 0) sizes
      sizes-HasOverhead 20 (omega arith) 77 ten_bytes new_peer (omega arith) refl

-- One request is put on the queue and the run that is scheduled with it takes it off.
one_request : Reach sizes 20 3 1 (record { channel = empty_channel; runs = 0; connected = true })
unfolding pull_meta_data async_do_write do_write
one_request = after (after start (pulls_meta 9)) (
    runs_one true (record { channel = empty_channel; packages = meta_req 9 ∷ []; ok = true }) refl
      refl refl)

Reach-drained_example :
    (empty_channel.frag_request_queue ≡ [])
    × (empty_channel.fragment_send_queue ≡ [])
    × (empty_channel.meta_request_queue ≡ [])
    × (empty_channel.meta_send_queue ≡ [])
Reach-drained_example = Reach-drained sizes 20 3 1 one_request

abbrev here : SocketAddr
here = record { family = 2; ip = 16909060; port = 4000 }

abbrev no_peers : PeerTable
no_peers = record {
  peers = [];
  noconnect_peers = [];
  channels = 1 ∷ 2 ∷ [];
  remote_address = [];
  fresh = 0;
}

no_peer_here : find_peer here no_peers ≡ none
unfolding find_peer
no_peer_here = refl

no_peer_there : find_peer invalid_addr no_peers ≡ none
unfolding find_peer
no_peer_there = refl

connect_to_peer-add_peer_example :
    let added = add_peer no_peers in
    let done = connect_to_peer added.1 here added.0 in
    ((a : SocketAddr)
      → find_peer a done.0 ≡ (if addr_eq here a then some added.1 else find_peer a no_peers))
    × (has_connect_peer here done.0 ≡ true)
    × (done.0.noconnect_peers ≡ [])
    × (done.0.channels ≡ 1 ∷ 2 ∷ [])
    × ((p : ℕ) → lookup p done.0.remote_address ≡ (if 0 == p then some here else none))
    × (done.1 ≡ add_all here (1 ∷ 2 ∷ []))
connect_to_peer-add_peer_example = connect_to_peer-add_peer here no_peers tt no_peer_here

disconnect-connect_to_peer_example :
    let added = add_peer no_peers in
    let done = disconnect added.1 (connect_to_peer added.1 here added.0).0 in
    ((a : SocketAddr) → find_peer a done.0 ≡ find_peer a no_peers)
    × (done.1 ≡ remove_all here (1 ∷ 2 ∷ []))
disconnect-connect_to_peer_example = disconnect-connect_to_peer here no_peers tt no_peer_here
