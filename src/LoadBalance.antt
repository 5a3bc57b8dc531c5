-- ===== src/LoadBalance.antt =====
-- include/net/load_balance.hpp and lib/net/load_balance.cc: the messages of the front server, and its
-- answer to a client. Structs are the bytes that they lie in memory with.
use p2p_live.Prelude.{
  ℕ, ◌≡◌, ◌<◌, refl, Bool, true, false, Option, none, some, List, [], ◌∷◌, if◌then◌else◌, ltb,
  length, take, lt→ltb,
}
use p2p_live.Endian.{Typelist, byte1, byte2, byte4, struct_size, cast_struct}

-- `peer_get_server_request_t`: version, room_id, key.
abbrev pub peer_get_server_request : Typelist
peer_get_server_request = byte2 ∷ byte4 ∷ byte4 ∷ []

-- `peer_get_server_respond_t`: version, port, ip_addr, session_id, state.
abbrev pub peer_get_server_respond : Typelist
peer_get_server_respond = byte2 ∷ byte2 ∷ byte4 ∷ byte4 ∷ byte1 ∷ []

-- `pull_server_request_common_t`: type. `pull_inner_server_respond_t`: connect_count.
abbrev pub pull_server_request_common : Typelist
pull_server_request_common = byte2 ∷ []

abbrev pub pull_inner_server_respond : Typelist
pull_inner_server_respond = byte4 ∷ []

-- `front_handler_t`: it fills the answer, and says whether to send it.
abbrev pub FrontHandler : Type 0
FrontHandler = (request : List ℕ) → List ℕ × Bool

-- What the answer is that goes out.
abbrev pub respond_bytes : List ℕ × Bool → Option (List ℕ)
respond_bytes (respond, false) = none
respond_bytes (respond, true) = some (cast_struct peer_get_server_respond respond)

-- `cast_to` on what was read; the result of the read is not looked at, and `junk` is what the struct
-- holds where fewer bytes came.
unfoldable pub read_request : (junk bytes : List ℕ) → List ℕ
read_request junk bytes =
    if ltb (length bytes) (struct_size peer_get_server_request)
    then junk
    else cast_struct peer_get_server_request (take (struct_size peer_get_server_request) bytes)

-- The handler that `front_server_t::bind` gives to `on_client_join`.
unfoldable pub answer_client : Option FrontHandler → (junk bytes : List ℕ) → Option (List ℕ)
unfolding read_request
answer_client none junk bytes = none
answer_client (some handler) junk bytes = respond_bytes (handler (read_request junk bytes))

-- A client that sends too few bytes is answered all the same, from a request that it did not send.
pub answer_client_short :
    (handler : FrontHandler) (junk bytes : List ℕ)
    → length bytes < 10
    → answer_client (some handler) junk bytes ≡ respond_bytes (handler junk)
unfolding answer_client read_request
answer_client_short handler junk bytes h = rw (lt→ltb (length bytes) 10 h) refl
