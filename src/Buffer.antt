-- ===== src/Buffer.antt =====
-- include/net/socket_buffer.hpp and lib/net/socket_buffer.cc: `socket_buffer_t`, a window on a
-- block of bytes, with a reference count that copies share.
pub mod Memory
pub mod Window
pub mod Counts
pub mod Text
pub mod Lifetime
pub mod Tests
use Memory.{Heap, alloc, bump_refs, drop_refs, delete_bytes, read_range, overwrite_at}
use p2p_live.Prelude.{
  ℕ, Bool, Option, none, some, List, if◌then◌else◌, ltb, length, add_u64, sub_u64, take, replicate,
}

-- `socket_buffer_t`. `ptr` and `header` are block numbers, `none` for the null pointer.
pub record SocketBuffer : Type 0 where
  pub ptr : Option ℕ
  pub header : Option ℕ
  pub buffer_size : ℕ
  pub valid_data_length : ℕ
  pub walk_offset : ℕ

-- `socket_buffer_t()`
abbrev pub null_buffer : SocketBuffer
null_buffer = record {
  ptr = none;
  header = none;
  buffer_size = 0;
  valid_data_length = 0;
  walk_offset = 0;
}

-- `socket_buffer_t(u64 len)`: `raw` is what `new byte[len]` happens to hold, so `len` is its length.
unfoldable pub of_length : List ℕ → Heap → SocketBuffer × Heap
of_length raw h = (
  record {
    ptr = some (length h);
    header = some (length h);
    buffer_size = length raw;
    valid_data_length = 0;
    walk_offset = 0;
  },
  alloc raw h,
)

-- `socket_buffer_t(byte *, u64)` and `from_struct_inner`: memory that the user manages.
unfoldable pub of_pointer : ℕ → ℕ → SocketBuffer
of_pointer p len = record {
  ptr = some p;
  header = none;
  buffer_size = len;
  valid_data_length = 0;
  walk_offset = 0;
}

-- `from_string`
unfoldable pub of_string : List ℕ → Heap → SocketBuffer × Heap
unfolding of_length
of_string str h = of_length str h

-- The copy constructor. `none` is a fault: the header was deleted.
unfoldable pub copy : SocketBuffer → Heap → Option (SocketBuffer × Heap)
unfolding bump_refs
copy b h = elim b.header [
  | none ↦ some (b, h)
  | some i ↦ elim (bump_refs i h) [ none ↦ none | some h' ↦ some (b, h') ]
]

-- `operator=`; `same` is `&rh == this`. The header that the left side had is not decremented.
unfoldable pub assign : Bool → SocketBuffer → SocketBuffer → Heap → Option (SocketBuffer × Heap)
unfolding copy
assign same dst src h = if same then some (dst, h) else copy src h

-- The move constructor: the new buffer, and what is left of the old one.
unfoldable pub move : SocketBuffer → SocketBuffer × SocketBuffer
move b = (b, null_buffer)

-- `operator()(socket_buffer_t &&)`, the move assignment under another name: it deletes the array
-- whatever the count says, and leaves the header alone.
unfoldable pub call_move :
    SocketBuffer → SocketBuffer → Heap → Option (SocketBuffer × SocketBuffer × Heap)
call_move dst src h = elim dst.ptr [
  | none ↦ some (src, null_buffer, h)
  | some p ↦ elim (delete_bytes p h) [ none ↦ none | some h' ↦ some (src, null_buffer, h') ]
]

-- The destructor.
unfoldable pub destroy : SocketBuffer → Heap → Option Heap
unfolding drop_refs
destroy b h = elim b.ptr [
  | none ↦ some h
  | some p ↦ elim b.header [ none ↦ some h | some i ↦ drop_refs p i h ]
]

-- `get_length`
unfoldable pub get_length : SocketBuffer → ℕ
get_length b = sub_u64 b.valid_data_length b.walk_offset

-- `expect().length(len)`
unfoldable pub expect_length : ℕ → SocketBuffer → SocketBuffer
expect_length len b = record b { valid_data_length = len; walk_offset = 0 }

-- `expect().origin_length()`
unfoldable pub expect_origin_length : SocketBuffer → SocketBuffer
expect_origin_length b = record b { valid_data_length = b.buffer_size; walk_offset = 0 }

-- `finish_walk`
unfoldable pub finish_walk : SocketBuffer → SocketBuffer
finish_walk b = record b { valid_data_length = b.walk_offset; walk_offset = 0 }

-- `walk_step`: the sum is a `u64` and may wrap before it is cut.
unfoldable pub walk_step : ℕ → SocketBuffer → SocketBuffer
walk_step delta b =
    let off = add_u64 b.walk_offset delta in
    record b { walk_offset = if ltb b.valid_data_length off then b.valid_data_length else off }

-- `memcpy(get(), bytes, n)`: a fault on a null pointer, a deleted array, or past its end.
unfoldable pub put_bytes : List ℕ → SocketBuffer → Heap → Option Heap
put_bytes bytes b h = elim b.ptr [ none ↦ none | some p ↦ overwrite_at p b.walk_offset bytes h ]

-- What lies at `get()`, `n` bytes long.
unfoldable pub get_bytes : ℕ → SocketBuffer → Heap → Option (List ℕ)
get_bytes n b h = elim b.ptr [ none ↦ none | some p ↦ read_range p b.walk_offset n h ]

-- `write_string`
unfoldable pub write_string : List ℕ → SocketBuffer → Heap → Option (ℕ × Heap)
write_string str b h =
    let len = if ltb (get_length b) (length str) then get_length b else length str in
    elim (put_bytes (take len str) b h) [ none ↦ none | some h' ↦ some (len, h') ]

-- `to_string`
unfoldable pub to_string : SocketBuffer → Heap → Option (List ℕ)
to_string b h = get_bytes (get_length b) b h

-- `clear`: a null buffer is left alone.
unfoldable pub clear : SocketBuffer → Heap → Option Heap
clear b h = elim b.ptr [ none ↦ some h | some p ↦ put_bytes (replicate (get_length b) 0) b h ]
