-- ===== src/Source/Targets.antt =====
-- While the source is connected it has a target.
use p2p_live.Prelude.{ℕ, ◌≡◌, refl, Bool, true, Option, some}
use p2p_live.Proto.{ConnectionState}
use p2p_live.Source.{SourceClient, on_tracker_error, on_peer_connect}

-- A source that takes itself for connected has a peer to send to.
abbrev pub HasTarget : SourceClient → Type 0
HasTarget s = s.is_connect_edge_server ≡ true → (peer : ℕ) × (s.edge_peer_target ≡ some peer)

-- After a peer has connected and after an error of the tracker, a source that takes itself for
-- connected has a target.
pub on_peer_connect-HasTarget :
    (peer : ℕ) (has_handler : Bool) (why : ConnectionState) (decision : Option Bool)
    (s : SourceClient)
    → HasTarget (on_peer_connect peer has_handler s).0
      × HasTarget (on_tracker_error why decision s).0
unfolding on_peer_connect on_tracker_error
on_peer_connect-HasTarget peer has_handler why decision s = (λ e. (peer, refl), λ e. absurd cc)
