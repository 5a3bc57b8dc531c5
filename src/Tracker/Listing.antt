-- ===== src/Tracker/Listing.antt =====
-- The reply to `TrackersReq`: the loop over `trackers` that drops closed links on the way.
use p2p_live.Prelude.{
  ℕ, suc, ◌+◌, ◌-◌, ◌≤◌, ◌≡◌, ap, arith, List, [], ◌∷◌, if◌then◌else◌, ltb, length, take, take_nil,
  Bool-cases, inl, inr, ◌<◌,
}
use p2p_live.SocketAddr.{SocketAddr}
use p2p_live.Proto.{Node}
use p2p_live.Tracker.{TrackerInfo}

abbrev pub Links : Type 0
Links = List (SocketAddr × TrackerInfo)

-- The loop from one entry on, with `i` entries kept so far: what stays in the map, what is added to
-- the reply, and `i` at the end.
unfoldable pub list_trackers : ℕ → ℕ → Links → Links × List Node × ℕ
list_trackers cnt i [] = ([], [], i)
list_trackers cnt i ((addr, info) ∷ rest) =
    let next = list_trackers cnt (if info.is_closed then i else i + 1) rest in
    if info.is_closed
    then next
    else ((addr, info) ∷ next.0, (if ltb i cnt then info.node ∷ next.1 else next.1), next.2)

-- The links that are not closed.
abbrev pub open_links : Links → Links
open_links [] = []
open_links ((addr, info) ∷ rest) =
    if info.is_closed then open_links rest else (addr, info) ∷ open_links rest

abbrev pub link_nodes : Links → List Node
link_nodes [] = []
link_nodes ((addr, info) ∷ rest) = info.node ∷ link_nodes rest

take_none : (cnt i : ℕ) (xs : List Node) → cnt ≤ i → take (cnt - i) xs ≡ []
take_none cnt i xs h = let e : cnt - i ≡ 0 = omega arith in ap (λ k. take k xs) e

take_one :
    (cnt i : ℕ) (x : Node) (xs : List Node)
    → i < cnt
    → take (cnt - i) (x ∷ xs) ≡ x ∷ take (cnt - (i + 1)) xs
take_one cnt i x xs h =
    let e : cnt - i ≡ suc (cnt - (i + 1)) = omega arith in ap (λ k. take k (x ∷ xs)) e

-- The loop keeps exactly the links that are not closed, in order, reports the first `cnt` of them,
-- and counts them all.
pub list_trackers_lem :
    (cnt i : ℕ) (links : Links)
    → list_trackers cnt i links ≡ (
      open_links links,
      take (cnt - i) (link_nodes (open_links links)),
      i + length (open_links links),
    )
unfolding list_trackers
list_trackers_lem cnt i [] = ground (arith, take_nil {A = Node} (cnt - i))
list_trackers_lem cnt i ((addr, info) ∷ rest) = elim (Bool-cases info.is_closed) [
  | inl gone ↦ rw gone (list_trackers_lem cnt i rest)
  | inr kept ↦
      rw (kept, list_trackers_lem cnt (i + 1) rest)
        (ground (
          arith,
          take_one cnt i info.node (link_nodes (open_links rest)),
          take_none cnt i (info.node ∷ link_nodes (open_links rest)),
          take_none cnt (i + 1) (link_nodes (open_links rest)),
        ))
]
