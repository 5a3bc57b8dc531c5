-- ===== src/Tracker/Registry.antt =====
-- The table of nodes: `nodes` gives each address an index of `node_infos`, and the entry there is the
-- entry of that address.
use p2p_live.Prelude.{
  ℕ, ◌≡◌, refl, sym, ap, ◌∙◌, subst, arith, inl, inr, some, List, [], ◌∷◌, ◌++◌, ◌==◌, ==_iff,
  length, get_elem?, lookup, insert, lookup-insert, get_elem?-set_hit, get_elem?_lt, Option-cases,
  get_elem?-append_left, get_elem?-append_last, not, ◌&&◌, Bool-cases,
}
use p2p_live.SocketAddr.{SocketAddr, IsIpv4, addr_eq, addr_eq_inst, addr_eq_iff}
use p2p_live.Proto.{
  Package, Node, NodeReq, ping, node_req, init_connection_req, heart, trackers_req,
}
use p2p_live.Tracker.{TrackerServer, NodeInfo}
use p2p_live.Tracker.Server.{
  server_turn, update_node, touch, beat, fresh_node, join_node, accept_node, handle_init,
  handle_heart, handle_node_req, update_tracker, same_bytes,
}

pub record HasEntry (infos : List NodeInfo) (addr : SocketAddr) (index : ℕ) : Type 0 where
  pub info : NodeInfo
  pub at : get_elem? infos index ≡ some info
  pub same_ip : info.node.ip ≡ addr.ip
  pub same_port : info.node.port ≡ addr.port
  pub inet : IsIpv4 addr

pub record IsRegistered (s : TrackerServer) : Type 0 where
  pub entry :
      (addr : SocketAddr) (index : ℕ)
      → lookup addr s.nodes ≡ some index
      → HasEntry s.node_infos addr index

some_node : {x y : NodeInfo} → some x ≡ some y → x.node ≡ y.node
some_node e = cc

-- A write that leaves the node's address alone keeps every entry.
update_node-HasEntry :
    (f : NodeInfo → NodeInfo)
    → ((x : NodeInfo) → (f x).node ≡ x.node)
    → (infos : List NodeInfo) (j : ℕ) (addr : SocketAddr) (index : ℕ) → HasEntry infos addr index
    → HasEntry (update_node (get_elem? infos j) j f infos) addr index
update_node-HasEntry f keeps infos j addr index e = elim (Option-cases (get_elem? infos j)) [
  | inl out ↦ rw out e
  | inr (x, hit) ↦ rw hit (elim (Bool-cases (j == index)) [
    | inl same ↦
        let found : some x ≡ some e.info =
          sym hit ∙ ap (get_elem? infos) ((==_iff j index).0 same) ∙ e.at in
        let node : (f x).node ≡ e.info.node = keeps x ∙ some_node found in
        record {
          info = f x;
          at = ground (arith, get_elem?-set_hit infos j index (f x) x hit);
          same_ip = ap (λ (n : Node). n.ip) node ∙ e.same_ip;
          same_port = ap (λ (n : Node). n.port) node ∙ e.same_port;
          inet = e.inet;
        }
    | inr differs ↦ record {
      info = e.info;
      at = ground (arith, get_elem?-set_hit infos j index (f x) x hit, e.at);
      same_ip = e.same_ip;
      same_port = e.same_port;
      inet = e.inet;
    }
  ])
]

-- A new entry at the end keeps the entries before it.
append-HasEntry :
    (infos : List NodeInfo) (x : NodeInfo) (addr : SocketAddr) (index : ℕ)
    → HasEntry infos addr index
    → HasEntry (infos ++ x ∷ []) addr index
append-HasEntry infos x addr index e = record {
  info = e.info;
  at = get_elem?-append_left infos (x ∷ []) index (get_elem?_lt infos index e.info e.at) ∙ e.at;
  same_ip = e.same_ip;
  same_port = e.same_port;
  inet = e.inet;
}

join_new-IsRegistered :
    (a : SocketAddr) (conn : ℕ) (s : TrackerServer)
    → IsIpv4 a
    → IsRegistered s
    → (addr : SocketAddr) (index : ℕ)
    → lookup addr (insert a (length s.node_infos) s.nodes) ≡ some index
    → HasEntry (s.node_infos ++ fresh_node a conn ∷ []) addr index
join_new-IsRegistered a conn s v r addr index e = elim (Bool-cases (addr_eq a addr)) [
  | inl same ↦
      let is_a : a ≡ addr = (addr_eq_iff a addr).0 same in
      let at_end : length s.node_infos ≡ index =
        ground (arith, lookup-insert a addr (length s.node_infos) s.nodes, same, e) in
      subst (λ i. HasEntry (s.node_infos ++ fresh_node a conn ∷ []) addr i) at_end
        (subst (λ b. HasEntry (s.node_infos ++ fresh_node a conn ∷ []) b (length s.node_infos)) is_a
          (record {
            info = fresh_node a conn;
            at = get_elem?-append_last s.node_infos (fresh_node a conn);
            same_ip = refl;
            same_port = refl;
            inet = v;
          }))
  | inr differs ↦ append-HasEntry s.node_infos (fresh_node a conn) addr index (
      r.entry addr index
        (ground (arith, lookup-insert a addr (length s.node_infos) s.nodes, differs, e)))
]

join_node-IsRegistered :
    (a : SocketAddr) (conn : ℕ) (s : TrackerServer)
    → IsIpv4 a
    → IsRegistered s
    → IsRegistered (join_node a conn s).0
unfolding join_node
join_node-IsRegistered a conn s v r = elim (Option-cases (lookup a s.nodes)) [
  | inl e ↦ rw (e, join_node) (record { entry = join_new-IsRegistered a conn s v r })
  | inr (index, e) ↦ rw (e, join_node) r
]

accept_node-IsRegistered :
    (now : ℕ) (a : SocketAddr) (conn sid : ℕ) (s : TrackerServer)
    → IsIpv4 a
    → IsRegistered s
    → IsRegistered (accept_node now a conn sid s).server
unfolding accept_node
accept_node-IsRegistered now a conn sid s v r =
    let w = join_node-IsRegistered a conn s v r in
    record {
      entry = λ addr index e.
          update_node-HasEntry (touch now sid) (λ x. refl) (join_node a conn s).0.node_infos
            (join_node a conn s).1 addr index (w.entry addr index e);
    }

handle_init-IsRegistered :
    (now : ℕ) (a : SocketAddr) (conn sid : ℕ) (key : List ℕ) (s : TrackerServer)
    → IsIpv4 a
    → IsRegistered s
    → IsRegistered (handle_init now a conn sid key s).server
unfolding handle_init
handle_init-IsRegistered now a conn sid key s v r =
    elim (Bool-cases (sid == 0 && not (same_bytes key s.edge_key))) [
      | inl bad ↦ rw bad r
      | inr good ↦ rw good (accept_node-IsRegistered now a conn sid s v r)
    ]

handle_heart-IsRegistered :
    (now : ℕ) (a : SocketAddr) (s : TrackerServer)
    → IsRegistered s
    → IsRegistered (handle_heart now a s).server
unfolding handle_heart
handle_heart-IsRegistered now a s r = elim (Option-cases (lookup a s.nodes)) [
  | inl e ↦ rw (e, handle_heart) r
  | inr (i, e) ↦
      rw (e, handle_heart)
        (record {
          entry = λ addr index found.
              update_node-HasEntry (beat now) (λ x. refl) s.node_infos i addr index
                (r.entry addr index found);
        })
]

pub handle_node_req_server :
    (now rnd conn : ℕ) (req : NodeReq) (s : TrackerServer)
    → (handle_node_req now rnd conn req s).server ≡ s
unfolding handle_node_req
handle_node_req_server now rnd conn req s = ground arith

-- Every package, of any kind, from a peer with an IPv4 address keeps this: each address that the
-- table knows has an entry that holds this address.
pub server_turn-IsRegistered :
    (now rnd : ℕ) (a : SocketAddr) (conn : ℕ) (p : Package) (s : TrackerServer)
    → IsIpv4 a
    → IsRegistered s
    → IsRegistered (server_turn now rnd a conn p s).server
unfolding server_turn update_tracker
server_turn-IsRegistered now rnd a conn (ping p) s v r = record { entry = r.entry }
server_turn-IsRegistered now rnd a conn (node_req req) s v r =
    rw (handle_node_req_server now rnd conn req s) r
server_turn-IsRegistered now rnd a conn (init_connection_req sid key) s v r =
    handle_init-IsRegistered now a conn sid key s v r
server_turn-IsRegistered now rnd a conn heart s v r = handle_heart-IsRegistered now a s r
server_turn-IsRegistered now rnd a conn (trackers_req n) s v r = record { entry = r.entry }
server_turn-IsRegistered now rnd a conn _ s v r = r

-- Two addresses that are both in a registered table never share an entry.
pub IsRegistered-injective :
    (s : TrackerServer) (a b : SocketAddr) (index : ℕ)
    → IsRegistered s
    → lookup a s.nodes ≡ some index
    → lookup b s.nodes ≡ some index
    → a ≡ b
IsRegistered-injective s a b index r ea eb =
    let x = r.entry a index ea in
    let y = r.entry b index eb in
    let same : x.info.node ≡ y.info.node = some_node (sym x.at ∙ y.at) in
    ground (
      arith,
      x.same_ip,
      x.same_port,
      y.same_ip,
      y.same_port,
      x.inet.inet,
      y.inet.inet,
      ap (λ (n : Node). n.ip) same,
      ap (λ (n : Node). n.port) same,
    )
