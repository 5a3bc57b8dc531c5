-- ===== src/Tracker/EdgeKey.antt =====
-- Session 0 is that of the edge servers, and only the edge key opens it.
use p2p_live.Prelude.{
  ℕ, ◌%◌, ◌≡◌, ◌≢◌, refl, sym, ap, ◌∙◌, subst, arith, Bool, false, not, ◌&&◌, inl, inr, List, [],
  ◌∷◌, ◌++◌, ◌==◌, length, get_elem?, take, drop, lookup, Bool-cases, Option-cases, All, All-append,
  All-take, All-drop, All-set, All-get_elem?, set-append_last, get_elem?-append_last, take_nil,
}
use p2p_live.SocketAddr.{SocketAddr, addr_eq_inst}
use p2p_live.Proto.{
  Package, Node, NodeReq, edge_nodes, node_req, node_rsp, init_connection_req, heart, ping,
  trackers_req,
}
use p2p_live.Tracker.{TrackerServer, NodeInfo, sends}
use p2p_live.Tracker.Search.{matching, rotate}
use p2p_live.Tracker.Server.{
  Turn, server_turn, same_bytes, update_node, touch, beat, fresh_node, join_node, accept_node,
  handle_init, handle_heart, handle_trackers_req, picks, count_sid, node_limit, update_tracker,
}
use p2p_live.Tracker.Registry.{handle_node_req_server}
use p2p_live.Tracker.Replies.{server_turn-node_req}

-- A package that opens session 0 with the key `key`.
abbrev pub shows_key : List ℕ → Package → Bool
shows_key key (init_connection_req sid k) = sid == 0 && same_bytes k key
shows_key key _ = false

abbrev pub IsPeer : NodeInfo → Type 0
IsPeer x = x.sid ≢ 0

-- No entry of the table is an edge server.
abbrev pub NoEdge : TrackerServer → Type 0
NoEdge s = All IsPeer s.node_infos

-- A turn of the loop, from one of the peers.
pub record Event : Type 0 where
  pub now : ℕ
  pub rnd : ℕ
  pub addr : SocketAddr
  pub conn : ℕ
  pub package_in : Package

-- The packages that the server reads, in the order in which it reads them, over all connections.
unfoldable pub run_turns : List Event → TrackerServer → TrackerServer
unfolding server_turn
run_turns [] s = s
run_turns (e ∷ es) s = run_turns es (server_turn e.now e.rnd e.addr e.conn e.package_in s).server

edge_key-accept :
    (now : ℕ) (addr : SocketAddr) (conn sid : ℕ) (s : TrackerServer)
    → (accept_node now addr conn sid s).server.edge_key ≡ s.edge_key
unfolding accept_node join_node
edge_key-accept now addr conn sid s = ground arith

edge_key-turn :
    (now rnd : ℕ) (addr : SocketAddr) (conn : ℕ) (p : Package) (s : TrackerServer)
    → (server_turn now rnd addr conn p s).server.edge_key ≡ s.edge_key
unfolding server_turn update_tracker handle_heart handle_init handle_trackers_req
edge_key-turn now rnd addr conn (ping p) s = refl
edge_key-turn now rnd addr conn (node_req req) s =
    ap (λ (t : TrackerServer). t.edge_key) (handle_node_req_server now rnd conn req s)
edge_key-turn now rnd addr conn (init_connection_req sid key) s =
    ground (arith, edge_key-accept now addr conn sid s)
edge_key-turn now rnd addr conn heart s = ground arith
edge_key-turn now rnd addr conn (trackers_req n) s = refl
edge_key-turn now rnd addr conn _ s = refl

touched-NoEdge :
    (now sid i : ℕ) (infos : List NodeInfo)
    → sid ≢ 0
    → All IsPeer infos
    → All IsPeer (update_node (get_elem? infos i) i (touch now sid) infos)
touched-NoEdge now sid i infos h k = elim (Option-cases (get_elem? infos i)) [
  | inl out ↦ rw out k
  | inr (x, hit) ↦ rw hit (All-set IsPeer infos i (touch now sid x) h k)
]

joined-NoEdge :
    (now sid : ℕ) (x : NodeInfo) (infos : List NodeInfo)
    → sid ≢ 0
    → All IsPeer infos
    → let all = infos ++ x ∷ [] in
      All IsPeer (update_node (get_elem? all (length infos)) (length infos) (touch now sid) all)
joined-NoEdge now sid x infos h k = rw (get_elem?-append_last infos x) (
    rw (set-append_last infos x (touch now sid x))
      (All-append IsPeer infos (touch now sid x ∷ []) k (h, tt)))

accept-NoEdge :
    (now : ℕ) (addr : SocketAddr) (conn sid : ℕ) (s : TrackerServer)
    → sid ≢ 0
    → NoEdge s
    → NoEdge (accept_node now addr conn sid s).server
unfolding accept_node join_node
accept-NoEdge now addr conn sid s h k = elim (Option-cases (lookup addr s.nodes)) [
  | inl e ↦ rw (e, join_node) (joined-NoEdge now sid (fresh_node addr conn) s.node_infos h k)
  | inr (i, e) ↦ rw (e, join_node) (touched-NoEdge now sid i s.node_infos h k)
]

init-NoEdge :
    (now : ℕ) (addr : SocketAddr) (conn sid : ℕ) (key : List ℕ) (s : TrackerServer)
    → shows_key s.edge_key (init_connection_req sid key) ≡ false
    → NoEdge s
    → NoEdge (handle_init now addr conn sid key s).server
unfolding handle_init
init-NoEdge now addr conn sid key s h k =
    elim (Bool-cases (sid == 0 && not (same_bytes key s.edge_key))) [
      | inl bad ↦ rw bad k
      | inr good ↦ rw good (accept-NoEdge now addr conn sid s (ground arith) k)
    ]

heart-NoEdge :
    (now : ℕ) (addr : SocketAddr) (s : TrackerServer)
    → NoEdge s
    → NoEdge (handle_heart now addr s).server
unfolding handle_heart
heart-NoEdge now addr s k = elim (Option-cases (lookup addr s.nodes)) [
  | inl e ↦ rw (e, handle_heart) k
  | inr (i, e) ↦
      rw (e, handle_heart)
        (elim (Option-cases (get_elem? s.node_infos i)) [
          | inl out ↦ rw out k
          | inr (x, hit) ↦ rw hit (
              All-set IsPeer s.node_infos i (beat now x)
                (All-get_elem? IsPeer s.node_infos i x k hit) k)
        ])
]

turn-NoEdge :
    (now rnd : ℕ) (addr : SocketAddr) (conn : ℕ) (p : Package) (s : TrackerServer)
    → shows_key s.edge_key p ≡ false
    → NoEdge s
    → NoEdge (server_turn now rnd addr conn p s).server
unfolding server_turn update_tracker handle_trackers_req
turn-NoEdge now rnd addr conn (ping p) s h k = k
turn-NoEdge now rnd addr conn (node_req req) s h k =
    rw (handle_node_req_server now rnd conn req s) k
turn-NoEdge now rnd addr conn (init_connection_req sid key) s h k =
    init-NoEdge now addr conn sid key s h k
turn-NoEdge now rnd addr conn heart s h k = heart-NoEdge now addr s k
turn-NoEdge now rnd addr conn (trackers_req n) s h k = k
turn-NoEdge now rnd addr conn _ s h k = k

-- None of the events shows the key.
abbrev pub KeyUnseen : List ℕ → List Event → Type 0
KeyUnseen key = All (λ (e : Event). shows_key key e.package_in ≡ false)

run-NoEdge :
    (es : List Event) (s : TrackerServer)
    → KeyUnseen s.edge_key es
    → NoEdge s
    → NoEdge (run_turns es s)
unfolding run_turns
run-NoEdge [] s h k = k
run-NoEdge (e ∷ es) s h k =
    let s' = (server_turn e.now e.rnd e.addr e.conn e.package_in s).server in
    let key = edge_key-turn e.now e.rnd e.addr e.conn e.package_in s in
    run-NoEdge es s' (subst (λ z. KeyUnseen z es) (sym key) h.1)
      (turn-NoEdge e.now e.rnd e.addr e.conn e.package_in s h.0 k)

matching-NoEdge :
    (now : ℕ) (infos : List NodeInfo) → All IsPeer infos → matching (picks now 0) infos ≡ []
matching-NoEdge now [] h = refl
matching-NoEdge now (x ∷ xs) h = ground (arith, matching-NoEdge now xs h.1, h.0)

count_sid-NoEdge : (infos : List NodeInfo) → All IsPeer infos → count_sid 0 infos ≡ 0
count_sid-NoEdge [] h = refl
count_sid-NoEdge (x ∷ xs) h = ground (arith, count_sid-NoEdge xs h.1, h.0)

-- From a server whose table has no edge server, as long as no package shows the edge key, whatever
-- else the peers send, a request for edge servers is answered with none.
pub edge_nodes_need_key :
    (es : List Event) (s : TrackerServer) (now rnd : ℕ) (addr : SocketAddr) (conn max_count sid : ℕ)
    → KeyUnseen s.edge_key es
    → NoEdge s
    → let req : NodeReq = record { max_count = max_count; sid = sid; strategy = edge_nodes } in
      (server_turn now rnd addr conn (node_req req) (run_turns es s)).effects
      ≡ sends conn (node_rsp 0 sid []) ∷ []
edge_nodes_need_key es s now rnd addr conn max_count sid h k =
    let t = run_turns es s in
    let none_left : All IsPeer t.node_infos = run-NoEdge es s h k in
    let req : NodeReq = record { max_count = max_count; sid = sid; strategy = edge_nodes } in
    let start = rnd % length t.node_infos in
    ap (λ (z : Turn). z.effects) (server_turn-node_req now rnd addr conn req t)
    ∙ ground (
      arith,
      count_sid-NoEdge t.node_infos none_left,
      matching-NoEdge now (rotate start t.node_infos) (
          All-append IsPeer (drop start t.node_infos) (take start t.node_infos)
            (All-drop IsPeer start t.node_infos none_left)
            (All-take IsPeer start t.node_infos none_left)),
      take_nil {A = Node} (node_limit max_count),
    )
