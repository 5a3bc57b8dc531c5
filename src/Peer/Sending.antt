-- ===== src/Peer/Sending.antt =====
-- `peer_t::send_fragments` and the small senders. `ByteSizeLong` of a package is a parameter, since
-- protobuf computes it.
use p2p_live.Prelude.{
  ℕ, zero, suc, Bool, true, false, Option, none, some, List, [], ◌∷◌, if◌then◌else◌, ltb, ◌==◌,
  length, take, drop, sub_u64, min,
}
use p2p_live.Peer.{
  PeerPackage, init_req, heart, fragment_req, fragment_rsp, fragment_rsp_rest, meta_req, meta_rsp,
}

-- What was written, and whether the function came to its end: it throws on a package that is larger
-- than the mtu.
pub record Sent : Type 0 where
  pub packages : List PeerPackage
  pub complete : Bool

abbrev pub push_front : PeerPackage → Option Sent → Option Sent
push_front p none = none
push_front p (some s) = some (record s { packages = p ∷ s.packages })

-- `auto base_len = mtu - pkg.ByteSizeLong() - 8`, a `u64`, where the package has no data yet
unfoldable pub base_len : (PeerPackage → ℕ) → ℕ → ℕ → ℕ → ℕ
base_len size mtu fid len = sub_u64 (sub_u64 mtu (size (fragment_rsp fid len []))) 8

-- `while (buffer.get_length() > 0)`: `none` where the fuel runs out.
unfoldable pub send_rest : (PeerPackage → ℕ) → ℕ → ℕ → ℕ → List ℕ → Option Sent
send_rest size zero mtu base content = none
send_rest size (suc fuel) mtu base content =
    let len = min (length content) base in
    let pkg = fragment_rsp_rest false (take len content) in
    let rest = send_rest size fuel mtu base (drop len content) in
    if length content == 0
    then some (record { packages = []; complete = true })
    else if ltb mtu (size pkg)
    then some (record { packages = []; complete = false })
    else push_front pkg rest

-- `send_fragments`, with one unit of fuel for each byte and one for the end.
unfoldable pub send_fragments : (PeerPackage → ℕ) → ℕ → ℕ → List ℕ → Option Sent
unfolding send_rest base_len
send_fragments size mtu fid content =
    let base = base_len size mtu fid (length content) in
    let len = min (length content) base in
    let pkg = fragment_rsp fid (length content) (take len content) in
    if ltb mtu (size pkg)
    then some (record { packages = []; complete = false })
    else push_front pkg (send_rest size (suc (length content)) mtu base (drop len content))

-- `send_init`, `heartbeat`, `update_fragments`, `update_metainfo`, `send_metainfo`
abbrev pub send_init : ℕ → PeerPackage
send_init sid = init_req sid

abbrev pub heartbeat : PeerPackage
heartbeat = heart

abbrev pub update_fragments : List ℕ → ℕ → PeerPackage
update_fragments ids priority = fragment_req priority ids

abbrev pub update_metainfo : ℕ → PeerPackage
update_metainfo key = meta_req key

abbrev pub send_metainfo : ℕ → List ℕ → PeerPackage
send_metainfo key value = meta_rsp key value
