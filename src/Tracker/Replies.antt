-- ===== src/Tracker/Replies.antt =====
-- What the tracker answers to requests for nodes and for trackers.
use p2p_live.Prelude.{
  ℕ, zero, suc, ◌%◌, ◌≤◌, ◌≡◌, refl, sym, ap, ◌∙◌, arith, Bool, true, false, Option, none, some,
  List, [], ◌∷◌, length, take, min, take_nil,
}
use p2p_live.SocketAddr.{SocketAddr}
use p2p_live.Proto.{
  Package, NodeReq, Strategy, random, min_workload, edge_nodes, other, node_req, node_rsp,
  trackers_req, trackers_rsp,
}
use p2p_live.Tracker.{TrackerServer, NodeInfo, Effect, sends}
use p2p_live.Tracker.Search.{matching, rotate, node_loop_lem}
use p2p_live.Tracker.Listing.{open_links, link_nodes, list_trackers_lem}
use p2p_live.Tracker.Server.{
  server_turn, search_nodes, node_limit, picks, count_sid, handle_node_req, handle_trackers_req,
}

rotate_nil : (n : ℕ) → rotate n [] ≡ []
rotate_nil zero = refl
rotate_nil (suc n) = refl

-- The search of the source finds what a plain filter of the rotated table gives.
pub search_nodes_lem :
    (rnd cnt : ℕ) (pick : NodeInfo → Bool) (infos : List NodeInfo)
    → search_nodes rnd cnt pick infos ≡ take cnt (matching pick (rotate (rnd % length infos) infos))
unfolding search_nodes
search_nodes_lem rnd cnt pick [] =
    sym (ap (λ xs. take cnt (matching pick xs)) (rotate_nil (rnd % 0)) ∙ take_nil cnt)
search_nodes_lem rnd cnt pick (x ∷ xs) =
    let infos = x ∷ xs in
    let start = rnd % length infos in
    let ran = node_loop_lem infos cnt pick start (omega arith) in ground (arith, ran)

-- What a request for nodes is answered with: the entries of the session that are fresh, in the order
-- of the table from a random place on, cut to the limit; for edge servers those of session 0.
abbrev pub node_answer : ℕ → ℕ → ℕ → ℕ → List NodeInfo → Strategy → Option Package
node_answer now rnd limit sid infos random = some (
    node_rsp (length infos) sid
      (take limit (matching (picks now sid) (rotate (rnd % length infos) infos))))
node_answer now rnd limit sid infos min_workload = some (node_rsp 0 sid [])
node_answer now rnd limit sid infos edge_nodes = some (
    node_rsp (count_sid 0 infos) sid
      (take limit (matching (picks now 0) (rotate (rnd % length infos) infos))))
node_answer now rnd limit sid infos (other _) = none

abbrev pub answered : ℕ → Option Package → List Effect
answered conn none = []
answered conn (some p) = sends conn p ∷ []

abbrev pub is_answered : Option Package → Bool
is_answered none = false
is_answered (some _) = true

-- A request for nodes never changes the server. The wrap-around search answers exactly what the
-- filter of the table gives, for each strategy, and a strategy that is not known ends the
-- connection without an answer.
pub server_turn-node_req :
    (now rnd : ℕ) (addr : SocketAddr) (conn : ℕ) (req : NodeReq) (s : TrackerServer)
    → let answer =
        node_answer now rnd (node_limit req.max_count) req.sid s.node_infos req.strategy in
      server_turn now rnd addr conn (node_req req) s
      ≡ record { server = s; effects = answered conn answer; goes_on = is_answered answer }
unfolding server_turn handle_node_req
server_turn-node_req now rnd addr conn req s = ground (
  arith,
  search_nodes_lem rnd (node_limit req.max_count) (picks now req.sid) s.node_infos,
  search_nodes_lem rnd (node_limit req.max_count) (picks now 0) s.node_infos,
)

-- The limit is the count that was asked for, at most 500.
pub node_limit_le : (n : ℕ) → (node_limit n ≤ 500) × (node_limit n ≤ n)
unfolding node_limit
node_limit_le n = ground arith

-- A request for trackers removes the closed links and no other, answers with the first of the rest
-- up to the count asked for and to 500, and reports how many there are.
pub server_turn-trackers_req :
    (now rnd : ℕ) (addr : SocketAddr) (conn max_count : ℕ) (s : TrackerServer)
    → server_turn now rnd addr conn (trackers_req max_count) s ≡ record {
      server = record s { trackers = open_links s.trackers };
      effects =
          sends conn (
            trackers_rsp
              (length (open_links s.trackers))
              (take (min 500 max_count) (link_nodes (open_links s.trackers))))
          ∷ [];
      goes_on = true;
    }
unfolding server_turn handle_trackers_req
server_turn-trackers_req now rnd addr conn max_count s =
    ground (arith, list_trackers_lem (min 500 max_count) 0 s.trackers)
