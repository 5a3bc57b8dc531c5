-- ===== src/Rudp.antt =====
-- include/net/rudp.hpp and lib/net/rudp.cc: `rudp_impl_t`, which keeps an endpoint for each remote
-- address and channel over one UDP socket. The protocol itself is that of the vendored ikcp: `Ikcp`
-- has the calls that the code makes, over a state `K` that it does not look into.
pub mod Endpoints
pub mod Directory
pub mod Slots
pub mod Adding
pub mod Refinement
pub mod Reconnect
pub mod Timing
pub mod Deadlines
pub mod Traffic
pub mod Inputs
pub mod Blocking
pub mod Demultiplexing
pub mod Accepting
pub mod Unknown
pub mod Tests
use p2p_live.Prelude.{ℕ, Bool, Option, none, some, List}
use p2p_live.SocketAddr.{SocketAddr}
use p2p_live.Timer.{TimerRegistered}

-- The functions of ikcp.h that the code calls. `input` and `send` say whether they took the bytes,
-- `recv` gives a message that fits the room, `check` the next time in milliseconds.
pub record Ikcp (K : Type 0) : Type 0 where
  pub create : (conv : ℕ) → K
  pub getconv : List ℕ → ℕ
  pub input : List ℕ → K → K × Bool
  pub send : List ℕ → K → K × Bool
  pub recv : (room : ℕ) → K → K × Option (List ℕ)
  pub check : K → (current : ℕ) → ℕ
  pub update : (current : ℕ) → K → K
  pub waitsnd : K → ℕ
  pub wndsize : (snd rcv : ℕ) → K → K
  pub nodelay : (nodelay interval resend nc : ℕ) → K → K

-- `rudp_endpoint_t`. `ikcp` is `none` for the null pointer of a closed endpoint, and `timer_reg` is
-- `none` where `timer_reg.id` is -1.
pub record Endpoint (K : Type 0) : Type 0 where
  pub remote_address : SocketAddr
  pub channel : ℕ
  pub ikcp : Option K
  pub last_alive : ℕ
  pub inactive_timeout : ℕ
  pub timer_reg : Option TimerRegistered
  pub wait_for_io : Bool
  pub is_closing : Bool
  pub recv_queue : List (List ℕ)

-- `user_map`: addresses, and channels below each.
abbrev pub UserMap : Type 0 → Type 0
UserMap K = List (SocketAddr × List (ℕ × Endpoint K))
