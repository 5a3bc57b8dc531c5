-- ===== src/Source.antt =====
-- src/source-client/peer.cc: the source of a stream between its tracker and its edge server. The
-- application's `error_handler` is an input: `none` where it is not set, and what it decides.
pub mod Targets
use p2p_live.Prelude.{
  ℕ, ◌≡◌, ◌⊎◌, refl, arith, Bool, true, false, ◌&&◌, Option, none, some, List, [], ◌∷◌,
  if◌then◌else◌, inl, inr,
}
use p2p_live.SocketAddr.{SocketAddr}
use p2p_live.Proto.{Node, Strategy, edge_nodes, ConnectionState}

-- The globals. Peers are numbers; `peer_alive` says that `glob_peer` is not null.
pub record SourceClient : Type 0 where
  pub peer_alive : Bool
  pub edge_peer_target : Option ℕ
  pub is_connect_edge_server : Bool

pub data SourceEffect : Type 0 where
  reports : ConnectionState → SourceEffect
  reconnects_later asks_trackers exits_all prepared : SourceEffect
  asks_nodes asks_nodes_later : (count : ℕ) → Strategy → SourceEffect
  asks_for_connection : Node → SourceEffect
  reconnects_peer : (peer target : ℕ) → SourceEffect
  sends_fragment : (fragment_id channel : ℕ) → List ℕ → SourceEffect
  sends_meta : (key channel : ℕ) → List ℕ → SourceEffect

-- `error_handler(state)`, and what follows each decision.
abbrev pub decided : ConnectionState → Option Bool → SourceEffect → List SourceEffect
decided why none retry = []
decided why (some again) retry = reports why ∷ (if again then retry else exits_all) ∷ []

-- The tracker's `on_error` handler.
unfoldable pub on_tracker_error :
    ConnectionState → Option Bool → SourceClient → SourceClient × List SourceEffect
on_tracker_error why decision s =
    (record s { is_connect_edge_server = false }, decided why decision reconnects_later)

-- `on_tracker_server_connect`
unfoldable pub on_tracker_server_connect : List SourceEffect
on_tracker_server_connect = asks_trackers ∷ asks_nodes 2 edge_nodes ∷ []

-- `on_nodes_update`
unfoldable pub on_nodes_update : List Node → Option Bool → List SourceEffect
on_nodes_update [] decision =
    decided ConnectionState.connection_refuse decision (asks_nodes_later 1 edge_nodes)
on_nodes_update (n ∷ ns) decision = asks_for_connection n ∷ []

-- `on_peer_connect`; the target that was there is replaced.
unfoldable pub on_peer_connect :
    ℕ → (has_handler : Bool) → SourceClient → SourceClient × List SourceEffect
on_peer_connect peer has_handler s = (
  record s { edge_peer_target = some peer; is_connect_edge_server = true },
  if has_handler then prepared ∷ [] else [],
)

abbrev pub reconnect : ℕ → Option ℕ → SourceClient → Option (SourceClient × List SourceEffect)
reconnect peer none s = none
reconnect peer (some target) s =
    some (s, reports ConnectionState.close_by_peer ∷ reconnects_peer peer target ∷ [])

-- `on_peer_disconnect`; `none` is the fault of a null target.
unfoldable pub on_peer_disconnect :
    ℕ → Option Bool → SourceClient → Option (SourceClient × List SourceEffect)
on_peer_disconnect peer none s =
    some (record s { is_connect_edge_server = false; edge_peer_target = none }, [])
on_peer_disconnect peer (some true) s =
    reconnect peer s.edge_peer_target (record s { is_connect_edge_server = false })
on_peer_disconnect peer (some false) s = some (
  record s { is_connect_edge_server = false; edge_peer_target = none },
  reports ConnectionState.close_by_peer ∷ [],
)

abbrev pub is_ready : SourceClient → Bool
is_ready s = s.peer_alive && s.is_connect_edge_server

-- `send_data` and `send_meta_info`: the function that `start_with` is given.
unfoldable pub send_data : List ℕ → (channel fragment_id : ℕ) → SourceClient → List SourceEffect
send_data bytes channel fragment_id s =
    if is_ready s then sends_fragment fragment_id channel bytes ∷ [] else []

unfoldable pub send_meta_info : List ℕ → (channel key : ℕ) → SourceClient → List SourceEffect
send_meta_info bytes channel key s = if is_ready s then sends_meta key channel bytes ∷ [] else []

-- `is_connect`
unfoldable pub is_connect : SourceClient → Bool
is_connect s = s.is_connect_edge_server
