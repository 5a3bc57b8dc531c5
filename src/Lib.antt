-- ===== src/Lib.antt =====
-- Verification library of P2P-Live, a live streaming system over peers, trackers and edge servers.
--
-- The parts. A tracker server (lib/net/p2p/tracker.cc) registers the nodes that join over TCP, answers
-- requests for nodes and other trackers, and links to other trackers. Peers (lib/net/p2p/peer.cc)
-- exchange media fragments and metadata over reliable UDP channels; an edge server
-- (src/edge-server/main.cc) is a peer that stores what it gets. Below them stand packets
-- (lib/net/tcp.cc), sockets (lib/net/socket.cc), buffers (lib/net/socket_buffer.cc), byte order
-- (include/net/endian.hpp), timers (lib/net/timer.cc), the event loop with its dispatcher
-- (lib/net/event.cc, lib/net/execute_dispatcher.cc), coroutines (include/net/co.hpp) and reliable UDP
-- (lib/net/rudp.cc), which keeps a state of the vendored ikcp for each remote address and channel.
--
-- The files. Names are those of the source.
--   Prelude: lists, maps and words over the native numbers, shared by all.
--   Buffer: `socket_buffer_t`. Buffer/Memory has the blocks and the reference count, Buffer itself the
--     constructors, copies, moves and windows, the other files what they keep.
--   Endian: the casts, `cast_struct` member by member, `save_to`, `cast_to`.
--   SocketAddr: `socket_addr_t`. Proto: the messages of include/net/proto/msg.proto.
--   Co: `paramter_t`, the loops of `await`, `await_timeout` and `await_p` over any call, and in Co/Chain
--     `resume`, `yield` and `co_cur`; Co/Sleeping is `stop_for` over the timers of the loop.
--   Socket: `bsd_socket_t::awrite` and `aread`, with what the kernel answers as an input, and
--     `co::await` as the repetition of a call; Socket/Datagrams `awrite_to` and `aread_from`,
--     Socket/Connecting `connect_to`, `connect_udp` and `accept_from`.
--   Tcp: `awrite_packet`, `aread_packet_head`, `aread_packet_content` over what a connection brings, in
--     pieces; Tcp/Heads the calls of `aread` when a head is split; Tcp/Sessions `server_t` and
--     `client_t`.
--   Timer: `make_timer`, `insert`, `cancel`, `tick`, `next_tick_timepoint`; Timer/Sequences is about
--     several ticks.
--   Lock: `rw_lock_t` (include/net/lock.hpp), any number of threads, one atomic access at a time.
--   Event: `event_loop_t::run` round by round, `select_loop`, `dispatch`; Event/Demultiplexers what
--     lib/net/select.cc and lib/net/epoll.cc make of the kernel's answer.
--   Tracker: Tracker/Server is `server_main`, one function for each kind of package and
--     `server_turn` for the dispatch; Tracker/Search and Tracker/Listing its two loops; Tracker/Links
--     `client_main`, `udp_main` and the handlers for links; Tracker/Client `tracker_node_client_t`.
--   Rudp: `rudp_impl_t`. Rudp/Endpoints is the table of endpoints, Rudp/Traffic `rudp_server_main`,
--     `check_unknown`, `update_endpoint`, `aread` and `awrite`, Rudp/Timing `set_timer`. Rudp/Slots and
--     Rudp/Refinement have the plain directory that the table implements.
--   Peer: Peer/Sending is `send_fragments`, Peer/Receiving the loop of `pmain`, Peer/Queues
--     `async_do_write`, the run that it schedules and the functions that fill its queues, Peer/Table the table of peers.
--   Edge: the stores of the edge server, and in Edge/Callbacks the callbacks on `globl_data`.
--   Source: the handlers of src/source-client/peer.cc.
--   ThreadPool: `thread_pool_t`, one step of a thread at a time. LoadBalance: the front server of
--     lib/net/load_balance.cc.
-- The files named Tests hold the theorems at concrete inputs.
--
-- How state and effects are modelled. State is a record that a function takes and gives; packages that
-- are sent and handlers that are called are lists of effects; time, random numbers and what the system
-- answers are arguments. A fault (a null pointer, a deleted array) is `none`. Integers of 64 and 32
-- bits wrap where the source lets them.
--
-- Fuel. `node_loop` gets one unit more than the table is long, which is one round and the step that
-- ends it. `send_rest` gets one unit more than there are bytes, since each package takes at least
-- one. `dispatch` gets more than the weight of its queue, where each coroutine weighs more than all that
-- it starts; without such a weight it need not end. The theorems below show that this is enough.
--
-- Parameters. The functions of the vendored ikcp that lib/net/rudp.cc calls are the fields of the
-- record `Ikcp`, over a state that is not looked into. What Co waits on is any function of the
-- parameter and a state.
--
-- Not modelled: the vendored ikcp, the switch of stacks by boost, `udp_output`, the sockets of Windows,
-- protobuf's encoding (message sizes are a parameter with a law), what
-- `epoll_ctl` keeps, the Qt clients, and the start-up code of the programs. Two handlers of the tracker server that run in
-- different threads at the same time are not interleaved.
pub mod Prelude
pub mod Buffer
pub mod Co
pub mod Endian
pub mod Socket
pub mod Tcp
pub mod Lock
pub mod Timer
pub mod Event
pub mod Rudp
pub mod Peer
pub mod Edge
pub mod SocketAddr
pub mod Proto
pub mod Tracker
pub mod Source
pub mod ThreadPool
pub mod LoadBalance
