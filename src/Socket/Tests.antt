-- ===== src/Socket/Tests.antt =====
-- A write that the kernel takes in three parts over two calls, and a read that ends in the middle.
use p2p_live.Prelude.{ℕ, ◌≤◌, ◌≡◌, refl, false, List, [], ◌∷◌, ◌++◌, length}
use p2p_live.Socket.{
  SendAnswer, sent, send_error, RecvAnswer, received, recv_error, eintr, would_block, returned, ok,
  SocketState, awrite, await_awrite, await_aread,
}
use p2p_live.Socket.Transfer.{await_awrite_lem}
use p2p_live.Socket.Filling.{await_aread_lem}
use p2p_live.Socket.Events.{IsTidy, awrite-IsTidy}

abbrev open_socket : SocketState
open_socket = record { is_connection_closed = false; registered = false }

abbrev send_calls : List (List SendAnswer)
send_calls = (sent 2 ∷ send_error would_block ∷ []) ∷ (send_error eintr ∷ sent 1 ∷ sent 5 ∷ []) ∷ []

abbrev content : List ℕ
content = 1 ∷ 2 ∷ 3 ∷ 4 ∷ 5 ∷ []

await_awrite_lem_example :
    let c = await_awrite 0 send_calls content open_socket in
    (c.bytes ++ c.left ≡ content) × ((c.outcome ≡ returned ok) → c.bytes ≡ content)
await_awrite_lem_example = await_awrite_lem send_calls 0 content open_socket

abbrev recv_calls : List (List RecvAnswer)
recv_calls = (received (1 ∷ 2 ∷ []) ∷ recv_error would_block ∷ []) ∷ (received [] ∷ []) ∷ []

await_aread_lem_example :
    let c = await_aread 0 recv_calls 4 open_socket in
    (length c.bytes ≤ 4) × (c.outcome ≡ returned ok → length c.bytes ≡ 4)
await_aread_lem_example = await_aread_lem recv_calls 0 4 open_socket

awrite-IsTidy_example :
    let c = awrite false 0 (sent 2 ∷ send_error would_block ∷ []) content open_socket in
    IsTidy false c.outcome c.state.registered
awrite-IsTidy_example =
    awrite-IsTidy false 0 (sent 2 ∷ send_error would_block ∷ []) content open_socket refl
