-- ===== src/Peer/Connections.antt =====
-- What the operations on the table of peers do together.
use p2p_live.Prelude.{
  ℕ, suc, ◌<◌, ◌≡◌, ◌≢◌, refl, ap, ◌∙◌, arith, true, none, some, List, [], ◌∷◌, ◌++◌, if◌then◌else◌,
  lookup, emplace, erase, insert, nat_eq, lookup-insert, lookup-erase, lookup-emplace_new, All,
  ==_iff, ◌==◌,
}
use p2p_live.SocketAddr.{SocketAddr, addr_eq_inst, addr_eq, addr_eq_iff, invalid_addr}
use p2p_live.Peer.Table.{
  PeerTable, add_peer, find_peer, has_connect_peer, take_out, connect_to_peer, disconnect,
  on_unknown_packet, add_all, remove_all,
}

-- `fresh` is a pointer that no waiting peer has.
abbrev pub IsFresh : PeerTable → Type 0
IsFresh s = All (λ x. x < s.fresh) s.noconnect_peers

take_out-append : (n : ℕ) (xs : List ℕ) → All (λ x. x < n) xs → take_out n (xs ++ n ∷ []) ≡ some xs
unfolding take_out
take_out-append n [] h = ground (arith, ==_iff n n)
take_out-append n (x ∷ xs) h = ground (arith, take_out-append n xs h.1)

-- The table after both, written out.
abbrev connected_table : SocketAddr → PeerTable → PeerTable
connected_table addr s = record {
  peers = emplace addr s.fresh s.peers;
  noconnect_peers = s.noconnect_peers;
  channels = s.channels;
  remote_address = insert s.fresh addr (insert s.fresh invalid_addr s.remote_address);
  fresh = suc s.fresh;
}

connect_added :
    (addr : SocketAddr) (s : PeerTable)
    → IsFresh s
    → connect_to_peer s.fresh addr (add_peer s).0
      ≡ (connected_table addr s, add_all addr s.channels)
unfolding add_peer connect_to_peer
connect_added addr s h = rw (connect_to_peer, take_out-append s.fresh s.noconnect_peers h) refl

disconnect_found :
    (peer : ℕ) (addr : SocketAddr) (s : PeerTable) (at : ℕ)
    → lookup peer s.remote_address ≡ some addr
    → lookup addr s.peers ≡ some at
    → disconnect peer s ≡ (record s { peers = erase addr s.peers }, remove_all addr s.channels)
unfolding disconnect
disconnect_found peer addr s at named here = ground (arith, named, here)

disconnect_missed :
    (peer : ℕ) (addr : SocketAddr) (s : PeerTable)
    → lookup peer s.remote_address ≡ some addr
    → lookup addr s.peers ≡ none
    → disconnect peer s ≡ (s, [])
unfolding disconnect
disconnect_missed peer addr s named away = ground (arith, named, away)

-- Where the new pointer is not in use, and for an address that has no peer: `add_peer` and
-- `connect_to_peer` put a peer there, which `find_peer` then finds and whose remote address is that
-- one, and open each channel there; the other addresses, the waiting peers, the accepted channels
-- and the remote addresses of the other peers are as before.
pub connect_to_peer-add_peer :
    (addr : SocketAddr) (s : PeerTable)
    → IsFresh s
    → find_peer addr s ≡ none
    → let added = add_peer s in
      let done = connect_to_peer added.1 addr added.0 in
      ((a : SocketAddr)
        → find_peer a done.0 ≡ (if addr_eq addr a then some added.1 else find_peer a s))
      × (has_connect_peer addr done.0 ≡ true)
      × (done.0.noconnect_peers ≡ s.noconnect_peers)
      × (done.0.channels ≡ s.channels)
      × ((p : ℕ)
          → lookup p done.0.remote_address
            ≡ (if s.fresh == p then some addr else lookup p s.remote_address))
      × (done.1 ≡ add_all addr s.channels)
unfolding add_peer connect_to_peer find_peer has_connect_peer
connect_to_peer-add_peer addr s h new =
    let out = take_out-append s.fresh s.noconnect_peers h in
    let here = addr_eq_iff addr addr in
    rw (connect_to_peer, out)
      (
        (λ a. lookup-emplace_new addr a s.fresh s.peers new),
        ground (arith, lookup-emplace_new addr addr s.fresh s.peers new),
        refl,
        refl,
        (λ p. ground (
          arith,
          lookup-insert s.fresh p addr (insert s.fresh invalid_addr s.remote_address),
          lookup-insert s.fresh p invalid_addr s.remote_address,
        )),
        refl,
      )

-- Under the same conditions, `disconnect` after the two closes the channels of the peer, and
-- `find_peer` gives for every address what it gave before.
pub disconnect-connect_to_peer :
    (addr : SocketAddr) (s : PeerTable)
    → IsFresh s
    → find_peer addr s ≡ none
    → let added = add_peer s in
      let done = disconnect added.1 (connect_to_peer added.1 addr added.0).0 in
      ((a : SocketAddr) → find_peer a done.0 ≡ find_peer a s)
      × (done.1 ≡ remove_all addr s.channels)
unfolding add_peer connect_to_peer disconnect find_peer
disconnect-connect_to_peer addr s h new =
    let m = insert s.fresh invalid_addr s.remote_address in
    let named : lookup s.fresh (insert s.fresh addr m) ≡ some addr =
      ground (arith, lookup-insert s.fresh s.fresh addr m, ==_iff s.fresh s.fresh) in
    let here : lookup addr (emplace addr s.fresh s.peers) ≡ some s.fresh =
      ground (arith, lookup-emplace_new addr addr s.fresh s.peers new, addr_eq_iff addr addr) in
    let gone = disconnect_found s.fresh addr (connected_table addr s) s.fresh named here in
    let whole : disconnect s.fresh (connect_to_peer s.fresh addr (add_peer s).0).0 ≡ (
      record (connected_table addr s) { peers = erase addr (emplace addr s.fresh s.peers) },
      remove_all addr s.channels,
    ) =
      ap (λ z. disconnect s.fresh z.0) (connect_added addr s h) ∙ gone in
    (
      (λ a.
          ap (λ z. find_peer a z.0) whole
          ∙ ground (
            arith,
            lookup-erase addr a (emplace addr s.fresh s.peers),
            lookup-emplace_new addr a s.fresh s.peers new,
            addr_eq_iff addr a,
          )),
      ap (λ z. z.1) whole,
    )

-- A peer that came in by itself stays: its `remote_address` is never set, so `disconnect` looks for it
-- under the address of `socket_addr_t()` and, where no peer has that one, does nothing.
pub disconnect-on_unknown_packet :
    (addr : SocketAddr) (s : PeerTable)
    → find_peer addr s ≡ none
    → find_peer invalid_addr s ≡ none
    → addr ≢ invalid_addr
    → let t = (on_unknown_packet addr s).0 in
      (find_peer addr t ≡ some s.fresh) × (disconnect s.fresh t ≡ (t, []))
unfolding on_unknown_packet disconnect find_peer
disconnect-on_unknown_packet addr s new none_there valid =
    let named : lookup s.fresh (insert s.fresh invalid_addr s.remote_address) ≡ some invalid_addr =
      ground (
        arith,
        lookup-insert s.fresh s.fresh invalid_addr s.remote_address,
        ==_iff s.fresh s.fresh,
      ) in
    let away : lookup invalid_addr (emplace addr s.fresh s.peers) ≡ none = ground (
      arith,
      lookup-emplace_new addr invalid_addr s.fresh s.peers new,
      addr_eq_iff addr invalid_addr,
    ) in
    let here : lookup addr (emplace addr s.fresh s.peers) ≡ some s.fresh =
      ground (arith, lookup-emplace_new addr addr s.fresh s.peers new, addr_eq_iff addr addr) in
    let t : PeerTable = record s {
      peers = emplace addr s.fresh s.peers;
      remote_address = insert s.fresh invalid_addr s.remote_address;
      fresh = suc s.fresh;
    } in
    let came : (on_unknown_packet addr s).0 ≡ t = rw (on_unknown_packet, new) refl in
    rw came (here, disconnect_missed s.fresh invalid_addr t named away)
