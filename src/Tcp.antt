-- ===== src/Tcp.antt =====
-- include/net/tcp.hpp and lib/net/tcp.cc: packets, a length in network order before each payload,
-- over the bytes that a connection carries, as the writes and the arrivals split them.
pub mod Pieces
pub mod Framing
pub mod Heads
pub mod Sessions
pub mod Tests
use p2p_live.Prelude.{
  ℕ, ◌%◌, ◌-◌, ◌==◌, Option, none, some, List, [], ◌∷◌, ◌++◌, if◌then◌else◌, leb, length, take,
  drop, u32_mod,
}
use p2p_live.Endian.{Typelist, byte4, cast_struct, to_memory, of_memory}

-- `package_head_t::member_list_t`
abbrev pub head_members : Typelist
head_members = byte4 ∷ []

-- `head.size = buffer.get_length()` cuts to a `u32`; `endian::save_to(head, head_buffer)`.
unfoldable pub head_bytes : ℕ → List ℕ
head_bytes len = cast_struct head_members (to_memory 4 (len % u32_mod))

-- `connection_t::awrite_packet`: the head and then the payload go to the stream. (Each write goes
-- through `awrite` until all of it is out: module `Socket`.)
unfoldable pub awrite_packet : List ℕ → List ℕ → List ℕ
awrite_packet stream payload = stream ++ (head_bytes (length payload) ++ payload)

-- What a connection brings, in pieces: a read that has used up a piece would block, and is called
-- again when the next one is there. What a read leaves of a piece is there for the next read.
abbrev pub Pieces : Type 0
Pieces = List (List ℕ)

abbrev pub after_piece : List ℕ → Option (List ℕ × Pieces) → Option (List ℕ × Pieces)
after_piece x none = none
after_piece x (some (bytes, rest)) = some (x ++ bytes, rest)

-- `conn_aread_packet_content` until its buffer of `n` bytes is full; `none` where the pieces end
-- before.
unfoldable pub aread_packet_content : ℕ → Pieces → Option (List ℕ × Pieces)
aread_packet_content n [] = if n == 0 then some ([], []) else none
aread_packet_content n (x ∷ xs) =
    let later = aread_packet_content (n - length x) xs in
    if leb n (length x) then some (take n x, drop n x ∷ xs) else after_piece x later

abbrev pub head_size : List ℕ → ℕ
head_size bytes = of_memory (cast_struct head_members bytes)

-- `conn_aread_packet_head` until there is a result: the size out of the four bytes, turned in place.
-- Each call makes a buffer of its own, so a piece that does not fill it is lost (module `Heads`).
unfoldable pub aread_packet_head : Pieces → Option (ℕ × Pieces)
aread_packet_head [] = none
aread_packet_head (x ∷ xs) =
    let later = aread_packet_head xs in
    if leb 4 (length x) then some (head_size (take 4 x), drop 4 x ∷ xs) else later

-- The head, a buffer of that length, and the content, as every reader calls them.
unfoldable pub aread_packet : Pieces → Option (List ℕ × Pieces)
aread_packet pieces = elim (aread_packet_head pieces) [
  | none ↦ none
  | some (len, rest) ↦ aread_packet_content len rest
]
