-- ===== src/Tcp/Tests.antt =====
-- Two packets on one stream.
use p2p_live.Prelude.{◌≡◌, refl, false, arith, some, List, ℕ, [], ◌∷◌, length}
use p2p_live.Socket.{SocketState, received, returned, ok, await_aread}
use p2p_live.Tcp.Heads.{await_head, await_head_lem}
use p2p_live.Endian.{cast_struct, cast_u32}
use p2p_live.Tcp.{Pieces, awrite_packet, head_bytes}
use p2p_live.Tcp.Pieces.{joined, skip}
use p2p_live.Tcp.Framing.{HeadsWhole, aread_packets, awrite_packets, aread_packets-awrite_packets}

abbrev two_packets : List (List ℕ)
two_packets = (1 ∷ 2 ∷ 3 ∷ []) ∷ [] ∷ []

-- The first payload is split, and the second head comes with its end.
abbrev pieces : Pieces
pieces = [] ∷ (0 ∷ 0 ∷ 0 ∷ 3 ∷ 1 ∷ []) ∷ (2 ∷ 3 ∷ 0 ∷ 0 ∷ 0 ∷ 0 ∷ []) ∷ []

pieces_carry : joined pieces ≡ awrite_packets [] two_packets
unfolding awrite_packets awrite_packet head_bytes cast_struct cast_u32
pieces_carry = refl

pieces-HeadsWhole : HeadsWhole two_packets pieces
unfolding skip
pieces-HeadsWhole = (omega arith, (omega arith, tt))

aread_packets-awrite_packets_example :
    (left : Pieces) × (aread_packets (length two_packets) pieces ≡ some (two_packets, left))
    × (joined left ≡ [])
aread_packets-awrite_packets_example =
    aread_packets-awrite_packets two_packets pieces (omega arith, (omega arith, tt)) pieces_carry
      pieces-HeadsWhole

abbrev fresh_socket : SocketState
fresh_socket = record { is_connection_closed = false; registered = false }

-- A packet of one byte whose head arrives in two pieces: the size that is read is not 1.
await_head_lem_example :
    let calls = (received (0 ∷ 0 ∷ []) ∷ []) ∷ (received (0 ∷ 1 ∷ 7 ∷ 8 ∷ []) ∷ []) ∷ [] in
    ((await_head 0 calls fresh_socket).outcome ≡ returned ok)
    × ((await_head 0 calls fresh_socket).bytes ≡ 0 ∷ 1 ∷ 7 ∷ 8 ∷ [])
    × ((await_aread 0 calls 4 fresh_socket).outcome ≡ returned ok)
    × ((await_aread 0 calls 4 fresh_socket).bytes ≡ 0 ∷ 0 ∷ 0 ∷ 1 ∷ [])
await_head_lem_example =
    await_head_lem (0 ∷ 0 ∷ []) (0 ∷ 1 ∷ 7 ∷ 8 ∷ []) fresh_socket refl (omega arith) (omega arith)
      (omega arith)
