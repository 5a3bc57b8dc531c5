-- ===== src/Rudp/Refinement.antt =====
-- What the table of endpoints promises: after any operations it shows what the directory does.
use p2p_live.Prelude.{ℕ, ◌≡◌, refl, ap, ◌∙◌, List, [], ◌∷◌, nat_eq}
use p2p_live.SocketAddr.{SocketAddr, addr_eq_inst}
use p2p_live.Rudp.{Ikcp, UserMap}
use p2p_live.Rudp.Endpoints.{
  find, on_ikcp, speed, config, set_wndsize, add_connection, Wait, aclose_connection,
  remove_connection, close_all_peer,
}
use p2p_live.Rudp.Directory.{IsUserMap}
use p2p_live.Rudp.Slots.{vacant, Directory, view}
use p2p_live.Rudp.Adding.{
  changed, added, view-written, add_lem, write_found-IsUserMap, config-IsUserMap,
}

-- The operations, on the directory and on the maps.
pub data Op (K : Type 0) : Type 0 where
  adds : SocketAddr → (channel inactive_timeout : ℕ) → Op K
  configures : SocketAddr → (channel level : ℕ) → Op K
  resizes : SocketAddr → (channel send recv : ℕ) → Op K
  removes : SocketAddr → (channel : ℕ) → (w : Wait K) → Op K
  closes_all : Op K

module _ {K : Type 0} (kcp : Ikcp K) where
  unfoldable pub step_directory : Op K → Directory K → Directory K
  step_directory (adds a c t) d = added kcp a c t (d a c) d
  step_directory (configures a c level) d = changed a c (on_ikcp kcp (speed kcp level)) (d a c) d
  step_directory (resizes a c send recv) d =
      changed a c (on_ikcp kcp (kcp.wndsize send recv)) (d a c) d
  step_directory (removes a c w) d = changed a c (aclose_connection kcp w) (d a c) d
  step_directory closes_all d = λ b x. vacant

  unfoldable pub step_map : Op K → UserMap K → UserMap K
  unfolding add_connection config set_wndsize remove_connection close_all_peer
  step_map (adds a c t) m = add_connection kcp a c t m
  step_map (configures a c level) m = config kcp a c level m
  step_map (resizes a c send recv) m = set_wndsize kcp a c send recv m
  step_map (removes a c w) m = remove_connection kcp a c w m
  step_map closes_all m = (close_all_peer kcp m).0

  nothing_there : view {K = K} [] ≡ (λ b x. vacant)
  unfolding view
  nothing_there = refl

  pub step_map-IsUserMap : (op : Op K) (m : UserMap K) → IsUserMap m → IsUserMap (step_map op m)
  unfolding step_map config set_wndsize remove_connection close_all_peer
  step_map-IsUserMap (adds a c t) m v = (add_lem kcp a c t m v).1
  step_map-IsUserMap (configures a c level) m v = config-IsUserMap kcp a c level m v
  step_map-IsUserMap (resizes a c send recv) m v =
      write_found-IsUserMap (on_ikcp kcp (kcp.wndsize send recv)) a c (find a c m) m v
  step_map-IsUserMap (removes a c w) m v =
      write_found-IsUserMap (aclose_connection kcp w) a c (find a c m) m v
  step_map-IsUserMap closes_all m v = record { keys = tt; inner = λ a x e. absurd cc }

  view-step_map :
      (op : Op K) (m : UserMap K) → IsUserMap m → view (step_map op m) ≡ step_directory op (view m)
  unfolding step_map step_directory config set_wndsize remove_connection close_all_peer
  view-step_map (adds a c t) m v = (add_lem kcp a c t m v).0
  view-step_map (configures a c level) m v = view-written (on_ikcp kcp (speed kcp level)) a c m
  view-step_map (resizes a c send recv) m v =
      view-written (on_ikcp kcp (kcp.wndsize send recv)) a c m
  view-step_map (removes a c w) m v = view-written (aclose_connection kcp w) a c m
  view-step_map closes_all m v = nothing_there

  unfoldable pub run_map : List (Op K) → UserMap K → UserMap K
  unfolding step_map
  run_map [] m = m
  run_map (op ∷ ops) m = run_map ops (step_map op m)

  unfoldable pub run_directory : List (Op K) → Directory K → Directory K
  unfolding step_directory
  run_directory [] d = d
  run_directory (op ∷ ops) d = run_directory ops (step_directory op d)

  -- The nested maps refine the directory: after any operations, from any map in which no key stands
  -- twice, they show at every address and channel what the same operations make of the directory.
  pub view-run_map :
      (ops : List (Op K)) (m : UserMap K)
      → IsUserMap m
      → view (run_map ops m) ≡ run_directory ops (view m)
  unfolding run_map run_directory
  view-run_map [] m v = refl
  view-run_map (op ∷ ops) m v =
      view-run_map ops (step_map op m) (step_map-IsUserMap op m v)
      ∙ ap (run_directory ops) (view-step_map op m v)
