-- ===== src/Rudp/Tests.antt =====
-- The endpoints of reliable UDP at concrete inputs, with a protocol that takes any datagram but an
-- empty one and keeps what it takes and what it is to send.
use p2p_live.Prelude.{
  ◌==◌, ◌*◌, ◌≤◌, ◌<◌, ℕ, ◌+◌, ◌≡◌, refl, arith, Bool, true, false, Option, none, some, List, [],
  ◌∷◌, ◌++◌, if◌then◌else◌, leb, length, u64_max,
}
use p2p_live.SocketAddr.{SocketAddr}
use p2p_live.Timer.{TimerRegistered, TimeManager, create_time_manager}
use p2p_live.Rudp.{Ikcp, Endpoint, UserMap}
use p2p_live.Rudp.Endpoints.{
  Wait, uses_destroyed, entry, find, add_connection, remove_connection, wait_sent, write_endpoint,
}
use p2p_live.Rudp.Directory.{IsUserMap, write_endpoint-IsUserMap}
use p2p_live.Rudp.Slots.{view}
use p2p_live.Rudp.Refinement.{
  Op, adds, configures, resizes, removes, run_map, run_directory, view-run_map,
}
use p2p_live.Rudp.Reconnect.{find-add-remove}
use p2p_live.Rudp.Timing.{kcp_time, set_timer}
use p2p_live.Timer.Slots.{IsSynced}
use p2p_live.Rudp.Deadlines.{Fires, set_timer_lem, timepoint-set_timer}
use p2p_live.Rudp.Traffic.{accept_unknown, server_turn}
use p2p_live.Rudp.Inputs.{Inputs, Stops, input_all_lem}
use p2p_live.Rudp.Traffic.{input_all}
use p2p_live.Rudp.Blocking.{Event, arrives, ticks, reads, writes, run_events, queue-run_events}
use p2p_live.Rudp.Demultiplexing.{Datagram, serve, queue-serve}
use p2p_live.Rudp.Accepting.{new_endpoint, has}
use p2p_live.Rudp.Unknown.{accept_unknown-Leaves, holds, find-server_turn}

pub record Plain : Type 0 where
  pub inbox : List (List ℕ)
  pub outbox : List (List ℕ)

abbrev first : List ℕ → ℕ
first [] = 0
first (b ∷ bs) = b

abbrev takes : List ℕ → Plain → Plain × Bool
takes [] k = (k, false)
takes (b ∷ bs) k = (record k { inbox = k.inbox ++ (b ∷ bs) ∷ [] }, true)

abbrev gives : (room : ℕ) → List (List ℕ) → Plain → Plain × Option (List ℕ)
gives room [] k = (k, none)
gives room (m ∷ ms) k = if leb (length m) room then (record k { inbox = ms }, some m) else (k, none)

abbrev plain : Ikcp Plain
plain = record {
  create = λ conv. record { inbox = []; outbox = [] };
  getconv = first;
  input = takes;
  send = λ bytes k. (record k { outbox = k.outbox ++ bytes ∷ [] }, true);
  recv = λ room k. gives room k.inbox k;
  check = λ k current. current + 10;
  update = λ current k. record k { outbox = [] };
  waitsnd = λ k. length k.outbox;
  wndsize = λ snd rcv k. k;
  nodelay = λ nodelay interval resend nc k. k;
}

abbrev here : SocketAddr
here = record { family = 2; ip = 5; port = 80 }

abbrev there : SocketAddr
there = record { family = 2; ip = 6; port = 80 }

abbrev quiet : Plain
quiet = record { inbox = []; outbox = [] }

abbrev busy : Plain
busy = record { inbox = []; outbox = (7 ∷ []) ∷ [] }

abbrev one_endpoint : Endpoint Plain
one_endpoint = record {
  remote_address = here;
  channel = 1;
  ikcp = some busy;
  last_alive = 0;
  inactive_timeout = 60;
  timer_reg = none;
  wait_for_io = false;
  is_closing = false;
  recv_queue = [];
}

abbrev one_peer : UserMap Plain
one_peer = (here, (1, one_endpoint) ∷ []) ∷ []

nobody-IsUserMap : IsUserMap {K = Plain} []
nobody-IsUserMap = record { keys = tt; inner = λ a x e. absurd cc }

one_peer-IsUserMap : IsUserMap one_peer
unfolding write_endpoint
one_peer-IsUserMap = write_endpoint-IsUserMap here 1 one_endpoint [] nobody-IsUserMap

-- Everything is sent at the second resumption.
abbrev sent_at_last : Wait Plain
sent_at_last = record { resumes = busy ∷ quiet ∷ []; timer = none }

abbrev some_ops : List (Op Plain)
some_ops =
    adds there 0 60
    ∷ configures here 1 0
    ∷ resizes there 0 8 8
    ∷ removes here 1 sent_at_last
    ∷ adds here 1 60
    ∷ []

view-run_map_example :
    view (run_map plain some_ops one_peer) ≡ run_directory plain some_ops (view one_peer)
view-run_map_example = view-run_map plain some_ops one_peer one_peer-IsUserMap

find-add-remove_example :
    (find here 1
        (add_connection plain here 1 60 (remove_connection plain here 1 sent_at_last one_peer))
      ≡ none)
    × (uses_destroyed plain here 1 (remove_connection plain here 1 sent_at_last one_peer) ≡ true)
unfolding find entry wait_sent
find-add-remove_example =
    find-add-remove plain here 1 60 one_endpoint busy quiet sent_at_last one_peer one_peer-IsUserMap
      refl refl refl refl

abbrev hour : ℕ
hour = 3600000000

abbrev base_time : ℕ
base_time = 1600000000000000

abbrev timers : TimeManager
timers = create_time_manager 1000

timers-IsSynced : IsSynced timers
unfolding create_time_manager
timers-IsSynced = record { rising = tt; synced = λ t. refl }

set_timer_lem_example :
    (reg : TimerRegistered) × ((set_timer plain base_time
        (base_time + hour)
        (base_time + hour + 3)
        1
        one_endpoint
        timers).0.timer_reg
      ≡ some reg)
    × (base_time + hour + 3 + 10000 ≤ reg.timepoint)
    × (reg.timepoint < base_time + hour + 3 + 10000 + 1000)
    × Fires 1 reg timers
        (set_timer plain base_time
          (base_time + hour)
          (base_time + hour + 3)
          1
          one_endpoint
          timers).1
unfolding create_time_manager kcp_time
set_timer_lem_example =
    set_timer_lem plain base_time (base_time + hour) (base_time + hour + 3) 1 one_endpoint busy
      timers refl timers-IsSynced (omega arith) (omega arith) (omega arith) (omega arith)
      (omega arith) (omega arith) (λ reg e. absurd cc) (omega arith) (omega arith)

abbrev fifty_days : ℕ
fifty_days = 1200 * hour

timepoint-set_timer_example :
    (reg : TimerRegistered) × ((set_timer plain base_time
        (base_time + fifty_days)
        (base_time + fifty_days + 3)
        1
        one_endpoint
        timers).0.timer_reg
      ≡ some reg)
    × (reg.timepoint ≡ u64_max)
    × Fires 1 reg timers
        (set_timer plain base_time
          (base_time + fifty_days)
          (base_time + fifty_days + 3)
          1
          one_endpoint
          timers).1
unfolding create_time_manager kcp_time
timepoint-set_timer_example =
    timepoint-set_timer plain base_time (base_time + fifty_days) (base_time + fifty_days + 3) 1
      one_endpoint busy timers refl timers-IsSynced (omega arith) (omega arith) (omega arith)
      (omega arith) (omega arith) (omega arith) (omega arith) (λ reg e. absurd cc) (omega arith)
      (omega arith)

-- An empty datagram among others stops the loop.
input_all_lem_example :
    (taken : List (List ℕ)) × ((1 ∷ 7 ∷ []) ∷ [] ∷ (1 ∷ 8 ∷ []) ∷ []
      ≡ taken ++ (input_all plain ((1 ∷ 7 ∷ []) ∷ [] ∷ (1 ∷ 8 ∷ []) ∷ []) quiet).0)
    × (k' : Plain) × Inputs plain taken quiet k'
    × Stops plain
        (input_all plain ((1 ∷ 7 ∷ []) ∷ [] ∷ (1 ∷ 8 ∷ []) ∷ []) quiet).0
        k'
        (input_all plain ((1 ∷ 7 ∷ []) ∷ [] ∷ (1 ∷ 8 ∷ []) ∷ []) quiet).1
input_all_lem_example = input_all_lem plain ((1 ∷ 7 ∷ []) ∷ [] ∷ (1 ∷ 8 ∷ []) ∷ []) quiet

abbrev some_events : List Event
some_events =
    arrives 5 (1 ∷ 8 ∷ [])
    ∷ ticks 0 1000 1001 1002 1
    ∷ reads 0 2000 2001 1 false 1472
    ∷ writes 0 3000 3001 1 false (9 ∷ [])
    ∷ []

queue-run_events_example :
    (run_events plain some_events
      (record one_endpoint { recv_queue = [] ∷ [] }, timers)).0.recv_queue
    ≡ [] ∷ (1 ∷ 8 ∷ []) ∷ []
queue-run_events_example =
    queue-run_events plain [] [] some_events (record one_endpoint { recv_queue = [] ∷ [] }) timers
      (λ k. refl) refl

abbrev some_datagrams : List Datagram
some_datagrams =
    record { at = 5; from = here; bytes = 1 ∷ 8 ∷ [] }
    ∷ record { at = 6; from = there; bytes = 0 ∷ 9 ∷ [] }
    ∷ record { at = 7; from = here; bytes = 2 ∷ 4 ∷ [] }
    ∷ record { at = 8; from = here; bytes = 1 ∷ 3 ∷ [] }
    ∷ []

queue-serve_example :
    (m' : UserMap Plain) × (e' : Endpoint Plain) × (serve plain
        (some (accept_unknown plain 60 (1 ∷ [])))
        some_datagrams
        one_peer
      ≡ some m')
    × (entry here 1 m' ≡ some e')
    × (e'.recv_queue ≡ (1 ∷ 8 ∷ []) ∷ (1 ∷ 3 ∷ []) ∷ [])
    × (e'.ikcp ≡ some busy)
unfolding entry
queue-serve_example =
    queue-serve plain (accept_unknown plain 60 (1 ∷ [])) here 1 some_datagrams one_endpoint busy
      one_peer (accept_unknown-Leaves plain 60 (1 ∷ []) here 1) one_peer-IsUserMap refl refl

find-server_turn_example :
    (m' : UserMap Plain) × (server_turn plain
        (some (accept_unknown plain 60 (1 ∷ [])))
        9
        there
        (1 ∷ 7 ∷ [])
        one_peer
      ≡ some m')
    × ((d : ℕ)
        → find there d m' ≡ (
            if has d (0 ∷ 1 ∷ [])
            then some (holds plain 9 (1 ∷ 7 ∷ []) (1 == d) (new_endpoint plain there d 60))
            else none))
find-server_turn_example =
    find-server_turn plain 60 9 (1 ∷ []) there (1 ∷ 7 ∷ []) one_peer one_peer-IsUserMap refl
