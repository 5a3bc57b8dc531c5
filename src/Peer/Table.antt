-- ===== src/Peer/Table.antt =====
-- The table of `peer_t`: `add_peer`, `connect_to_peer`, `disconnect`, the handler for unknown packets.
-- A pointer to a `peer_info_t` is a number; the unique owner of each is one of the two tables.
use p2p_live.Prelude.{
  ℕ, suc, Bool, true, false, Option, none, some, List, [], ◌∷◌, ◌++◌, map, if◌then◌else◌, ◌==◌,
  lookup, emplace, erase, insert, nat_eq,
}
use p2p_live.SocketAddr.{SocketAddr, addr_eq_inst, invalid_addr}

-- What the udp layer is told to do.
pub data UdpEffect : Type 0 where
  added removed : (addr : SocketAddr) (channel : ℕ) → UdpEffect

-- `peers`, `noconnect_peers` and `channels`; `remote_address` is the field of each peer that is alive,
-- and `fresh` a pointer that no peer has yet.
pub record PeerTable : Type 0 where
  pub peers : List (SocketAddr × ℕ)
  pub noconnect_peers : List ℕ
  pub channels : List ℕ
  pub remote_address : List (ℕ × SocketAddr)
  pub fresh : ℕ

-- `add_peer`
unfoldable pub add_peer : PeerTable → PeerTable × ℕ
add_peer s = (
  record s {
    noconnect_peers = s.noconnect_peers ++ s.fresh ∷ [];
    remote_address = insert s.fresh invalid_addr s.remote_address;
    fresh = suc s.fresh;
  },
  s.fresh,
)

abbrev pub is_some {ℓ} : {A : Type ℓ} → Option A → Bool
is_some none = false
is_some (some a) = true

-- `find_peer` and `has_connect_peer`
unfoldable pub find_peer : SocketAddr → PeerTable → Option ℕ
find_peer addr s = lookup addr s.peers

unfoldable pub has_connect_peer : SocketAddr → PeerTable → Bool
unfolding find_peer
has_connect_peer addr s = is_some (find_peer addr s)

-- The first entry of `noconnect_peers` that is `peer`, taken out; `none` where there is none.
unfoldable pub take_out : ℕ → List ℕ → Option (List ℕ)
take_out peer [] = none
take_out peer (x ∷ xs) =
    let rest = take_out peer xs in
    if x == peer then some xs else elim rest [ none ↦ none | some ys ↦ some (x ∷ ys) ]

-- `add_connection` for channel 0 and for each of `channels`
abbrev pub add_all : SocketAddr → List ℕ → List UdpEffect
add_all addr cs = added addr 0 ∷ map (added addr) cs

abbrev pub remove_all : SocketAddr → List ℕ → List UdpEffect
remove_all addr cs = removed addr 0 ∷ map (removed addr) cs

-- `connect_to_peer`. `emplace` on an address that is there already drops the peer.
unfoldable pub connect_to_peer : ℕ → SocketAddr → PeerTable → PeerTable × List UdpEffect
unfolding take_out
connect_to_peer peer addr s =
    let named = insert peer addr s.remote_address in
    elim (take_out peer s.noconnect_peers) [
      | none ↦ (record s { remote_address = named }, [])
      | some left ↦ (
        record s {
          peers = emplace addr peer s.peers;
          noconnect_peers = left;
          remote_address = named;
        },
        add_all addr s.channels,
      )
    ]

-- `disconnect`
unfoldable pub disconnect : ℕ → PeerTable → PeerTable × List UdpEffect
disconnect peer s = elim (lookup peer s.remote_address) [
  | none ↦ (s, [])
  | some addr ↦ elim (lookup addr s.peers) [
    | none ↦ (s, [])
    | some _ ↦ (record s { peers = erase addr s.peers }, remove_all addr s.channels)
  ]
]

-- The handler that `bind_udp` gives to `on_unknown_packet`; it accepts every address. The peer's own
-- `remote_address` stays that of `socket_addr_t()`.
unfoldable pub on_unknown_packet : SocketAddr → PeerTable → PeerTable × List UdpEffect
on_unknown_packet addr s = elim (lookup addr s.peers) [
  | none ↦ (
    record s {
      peers = emplace addr s.fresh s.peers;
      remote_address = insert s.fresh invalid_addr s.remote_address;
      fresh = suc s.fresh;
    },
    add_all addr s.channels,
  )
  | some _ ↦ (s, add_all addr s.channels)
]
