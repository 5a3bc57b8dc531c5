-- ===== src/Tracker/Punching.antt =====
-- Who gets the request of `udp_main`.
use p2p_live.SocketAddr.{SocketAddr, addr_eq_inst}
