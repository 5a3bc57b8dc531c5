-- ===== src/Endian.antt =====
-- include/net/endian.hpp on a little endian machine: `cast` turns an integer, an array or a struct
-- round in place, and `save_to`, `cast_to` and `cast_inplace` move structs to and from buffers.
pub mod Swap
pub mod Layout
pub mod Records
pub mod Tests
use p2p_live.Prelude.{
  ℕ, zero, suc, ◌+◌, ◌*◌, ◌/◌, ◌%◌, Bool, true, false, Option, none, some, List, [], ◌∷◌, ◌++◌,
  if◌then◌else◌, ltb, length, take, drop,
}
use p2p_live.Buffer.Memory.{Heap}
use p2p_live.Buffer.{SocketBuffer, get_length, put_bytes, get_bytes}

-- `v & 0xFF` and `v >> k` at a whole number of bytes; the masks do not overlap, so `|` is a sum.
abbrev pub byte_at : ℕ → ℕ → ℕ
byte_at shift v = v / shift % 256

-- `cast(u8 &)`, `cast(i8 &)`
unfoldable pub cast_u8 : ℕ → ℕ
cast_u8 v = v

-- `cast(u16 &)`
unfoldable pub cast_u16 : ℕ → ℕ
cast_u16 v = byte_at 1 v * 256 + byte_at 256 v

-- `cast(u32 &)`
unfoldable pub cast_u32 : ℕ → ℕ
cast_u32 v =
    byte_at 1 v * 16777216 + byte_at 256 v * 65536 + byte_at 65536 v * 256 + byte_at 16777216 v

-- `cast(u64 &)`
unfoldable pub cast_u64 : ℕ → ℕ
cast_u64 v =
    byte_at 1 v * 72057594037927936
    + byte_at 256 v * 281474976710656
    + byte_at 65536 v * 1099511627776
    + byte_at 16777216 v * 4294967296
    + byte_at 4294967296 v * 16777216
    + byte_at 1099511627776 v * 65536
    + byte_at 281474976710656 v * 256
    + byte_at 72057594037927936 v

-- The bytes of a `w` byte integer in memory, and the integer that lies there: the machine's order,
-- which is little endian.
abbrev pub to_memory : ℕ → ℕ → List ℕ
to_memory zero v = []
to_memory (suc w) v = v % 256 ∷ to_memory w (v / 256)

abbrev pub of_memory : List ℕ → ℕ
of_memory [] = 0
of_memory (b ∷ bs) = b + 256 * of_memory bs

-- The member types that the message structs have. (`i64` is left out: its `cast` calls itself.)
pub data Width : Type 0 where
  byte1 byte2 byte4 byte8 : Width

abbrev pub size_of : Width → ℕ
size_of byte1 = 1
size_of byte2 = 2
size_of byte4 = 4
size_of byte8 = 8

-- `cast<T>(val)` for each of them, on the integer's value.
unfoldable pub cast_word : Width → ℕ → ℕ
cast_word byte1 = cast_u8
cast_word byte2 = cast_u16
cast_word byte4 = cast_u32
cast_word byte8 = cast_u64

-- `typelist_t<...>`: the members in order. A packed struct is as long as their sum.
abbrev pub Typelist : Type 0
Typelist = List Width

abbrev pub struct_size : Typelist → ℕ
struct_size [] = 0
struct_size (w ∷ ws) = size_of w + struct_size ws

-- `cast_struct` and `cast_struct_impl`: the first member is cast where it lies, and the rest from
-- `sizeof` of it on.
unfoldable pub cast_struct : Typelist → List ℕ → List ℕ
unfolding cast_word
cast_struct [] bytes = bytes
cast_struct (w ∷ ws) bytes =
    to_memory (size_of w) (cast_word w (of_memory (take (size_of w) bytes)))
    ++ cast_struct ws (drop (size_of w) bytes)

-- `cast_array`: every element of an array of one member type.
unfoldable pub cast_array : Width → ℕ → List ℕ → List ℕ
cast_array w zero bytes = bytes
cast_array w (suc n) bytes =
    to_memory (size_of w) (cast_word w (of_memory (take (size_of w) bytes)))
    ++ cast_array w n (drop (size_of w) bytes)

-- `save_to`: false and nothing written where the buffer is too short; the struct is modified.
-- `none` is a fault of the write.
unfoldable pub save_to : Typelist → List ℕ → SocketBuffer → Heap → Option (Bool × List ℕ × Heap)
save_to ws val b h =
    if ltb (get_length b) (struct_size ws)
    then some (false, val, h)
    else elim (put_bytes (cast_struct ws val) b h) [
      | none ↦ none
      | some h' ↦ some (true, cast_struct ws val, h')
    ]

-- `cast_to`: `none` is a fault of the read; else the flag and the struct, which is `val` as it was
-- where the buffer is too short.
unfoldable pub cast_to : Typelist → SocketBuffer → Heap → List ℕ → Option (Bool × List ℕ)
cast_to ws b h val =
    if ltb (get_length b) (struct_size ws)
    then some (false, val)
    else elim (get_bytes (struct_size ws) b h) [
      | none ↦ none
      | some bytes ↦ some (true, cast_struct ws bytes)
    ]

-- `cast_inplace`, where the buffer is the struct's own memory.
unfoldable pub cast_inplace : Typelist → List ℕ → SocketBuffer → Bool × List ℕ
cast_inplace ws val b =
    if ltb (get_length b) (struct_size ws) then (false, val) else (true, cast_struct ws val)
