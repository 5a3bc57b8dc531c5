-- ===== src/Peer/Receiving.antt =====
-- The loop of `peer_t::pmain`: what one package does to the peer and its channel. `raw` is what
-- `new byte[len]` happens to hold; `now` is `get_timestamp()`.
use p2p_live.Prelude.{
  ℕ, ◌+◌, ◌-◌, Bool, true, ◌&&◌, not, Option, none, some, List, [], ◌∷◌, ◌++◌, map, if◌then◌else◌,
  ◌==◌, length, take, lookup, insert, nat_eq, min,
}
use p2p_live.Buffer.Memory.{splice}
use p2p_live.Peer.{
  PeerPackage, init_req, init_rsp, heart, fragment_req, fragment_rsp, fragment_rsp_rest, meta_req,
  meta_rsp, Cache, ChannelInfo, PeerInfo, Handlers, PeerEffect, written, connected, meta_pulled,
  meta_received, fragment_pulled, fragment_received, empty_channel,
}

-- `fragment_recv_buffer_cache.get_length()`, 0 for a null buffer
abbrev pub missing : Option Cache → ℕ
missing none = 0
missing (some c) = length c.bytes - c.walked

abbrev pub cache_bytes : Option Cache → List ℕ
cache_bytes none = []
cache_bytes (some c) = c.bytes

-- `std::min(get_length(), data.size())`, the `memcpy` to `get()` and `walk_step(len)`, which does not
-- reach past the end since `len` is at most what is missing
unfoldable pub fill : List ℕ → Cache → Cache
fill content c =
    let len = min (length c.bytes - c.walked) (length content) in
    record { bytes = splice c.bytes c.walked (take len content); walked = c.walked + len }

-- The end of both fragment branches.
unfoldable pub deliver : Handlers → ChannelInfo → ChannelInfo × List PeerEffect
deliver h ch =
    if missing ch.fragment_recv_buffer_cache == 0
    then (
      record ch { fragment_recv_buffer_cache = none },
      if h.fragment_recv_handler
          then fragment_received ch.fragment_recv_id (cache_bytes ch.fragment_recv_buffer_cache)
            ∷ []
          else [],
    )
    else (ch, [])

-- `has_fragment_rsp`. A fragment that starts while another is under way is not looked at.
unfoldable pub receive_fragment :
    (ℕ → List ℕ) → Handlers → ℕ → ℕ → List ℕ → ChannelInfo → ChannelInfo × List PeerEffect
unfolding fill deliver
receive_fragment raw h fid len content ch = elim ch.fragment_recv_buffer_cache [
  | none ↦ deliver h (record ch {
    fragment_recv_id = fid;
    fragment_recv_buffer_cache = some (fill content (record { bytes = raw len; walked = 0 }));
  })
  | some _ ↦ deliver h ch
]

-- `has_fragment_rsp_rest`
unfoldable pub receive_rest : Handlers → Bool → List ℕ → ChannelInfo → ChannelInfo × List PeerEffect
unfolding fill deliver
receive_rest h is_rst content ch = elim ch.fragment_recv_buffer_cache [
  | none ↦ deliver h ch
  | some c ↦
      if is_rst
      then (record ch { fragment_recv_buffer_cache = none }, [])
      else deliver h (record ch { fragment_recv_buffer_cache = some (fill content c) })
]

abbrev pub channel_or : Option ChannelInfo → ChannelInfo
channel_or none = empty_channel
channel_or (some ch) = ch

-- `peer->channel[conn.channel]`
abbrev pub channel_at : ℕ → PeerInfo → ChannelInfo
channel_at c p = channel_or (lookup c p.channel)

abbrev pub store_channel : ℕ → PeerInfo → ChannelInfo × List PeerEffect → PeerInfo × List PeerEffect
store_channel c p (ch, es) = (record p { channel = insert c ch p.channel }, es)

-- `has_init_req`: `sid` is the one of this `peer_t`.
unfoldable pub receive_init : ℕ → ℕ → ℕ → PeerInfo → PeerInfo × List PeerEffect
receive_init now sid req_sid p =
    if (not (sid == 0) && not (req_sid == 0)) && not (req_sid == sid) then (p, []) else (
      record p { last_ping = now; sid = sid },
      if p.has_connect then [] else written init_rsp ∷ [],
    )

-- One round of the loop for a package on channel `c`.
unfoldable pub receive :
    (ℕ → List ℕ) → ℕ → ℕ → Handlers → ℕ → PeerPackage → PeerInfo → PeerInfo × List PeerEffect
unfolding receive_init receive_fragment receive_rest
receive raw now sid h c (init_req s) p = receive_init now sid s p
receive raw now sid h c init_rsp p = (
  record p { last_ping = now; has_connect = true },
  if h.connect_handler then connected ∷ [] else [],
)
receive raw now sid h c heart p = (record p { last_ping = now }, [])
receive raw now sid h c (meta_req key) p =
    (record p { last_ping = now }, if h.meta_handler then meta_pulled key ∷ [] else [])
receive raw now sid h c (meta_rsp key value) p =
    (p, if h.meta_recv_handler then meta_received key value ∷ [] else [])
receive raw now sid h c (fragment_req priority ids) p =
    (p, if h.meta_handler && h.fragment_handler then map fragment_pulled ids else [])
receive raw now sid h c (fragment_rsp fid len content) p =
    store_channel c p (receive_fragment raw h fid len content (channel_at c p))
receive raw now sid h c (fragment_rsp_rest rst content) p =
    store_channel c p (receive_rest h rst content (channel_at c p))
receive raw now sid h c _ p = (p, [])

-- The packages that a channel delivers, in order.
unfoldable pub receive_all :
    (ℕ → List ℕ) → ℕ → ℕ → Handlers → ℕ → List PeerPackage → PeerInfo → PeerInfo × List PeerEffect
unfolding receive
receive_all raw now sid h c [] p = (p, [])
receive_all raw now sid h c (k ∷ ks) p =
    let (p', es) = receive raw now sid h c k p in
    let (p'', fs) = receive_all raw now sid h c ks p' in (p'', es ++ fs)
