-- ===== src/Buffer/Window.antt =====
-- The window of a `socket_buffer_t`: `valid_data_length` and `walk_offset` inside the block.
use p2p_live.Prelude.{ℕ, ◌+◌, ◌-◌, ◌≤◌, ◌<◌, ◌≡◌, arith, u64_mod, List, length}
use p2p_live.Buffer.Memory.{Heap}
use p2p_live.Buffer.{
  SocketBuffer, null_buffer, of_length, of_pointer, get_length, expect_length, expect_origin_length,
  finish_walk, walk_step,
}

pub record IsValid (b : SocketBuffer) : Type 0 where
  pub size_fits : b.buffer_size < u64_mod
  pub valid_in_size : b.valid_data_length ≤ b.buffer_size
  pub walk_in_valid : b.walk_offset ≤ b.valid_data_length

-- The constructors make windows inside their block for a block of less than 2 ^ 64 bytes, and from
-- a valid buffer `expect().origin_length()`, `expect().length(len)` with a length that the block
-- has, `walk_step` and `finish_walk` give a valid one.
pub window-IsValid :
    (b : SocketBuffer) (raw : List ℕ) (h : Heap) (p len delta : ℕ)
    → IsValid b
    → length raw < u64_mod
    → len ≤ b.buffer_size
    → IsValid null_buffer
      × IsValid (of_length raw h).0
      × IsValid (of_pointer p len)
      × IsValid (expect_length len b)
      × IsValid (expect_origin_length b)
      × IsValid (walk_step delta b)
      × IsValid (finish_walk b)
unfolding of_length of_pointer expect_length expect_origin_length walk_step finish_walk
window-IsValid b raw h p len delta v hr hl = ground arith

pub get_length_lem :
    (b : SocketBuffer) → IsValid b → get_length b ≡ b.valid_data_length - b.walk_offset
unfolding get_length
get_length_lem b v = omega arith

pub walk_step-IsValid : (b : SocketBuffer) (delta : ℕ) → IsValid b → IsValid (walk_step delta b)
unfolding walk_step
walk_step-IsValid b delta v = ground arith

-- Walking takes that many bytes off the front of the window, and stops at its end; the data before
-- the walk counts as done after `finish_walk`. It needs that the sum does not wrap.
pub walk_step_lem :
    (b : SocketBuffer) (delta : ℕ)
    → IsValid b
    → b.walk_offset + delta < u64_mod
    → (get_length (walk_step delta b) ≡ get_length b - delta)
      × (get_length (finish_walk (walk_step delta b)) + get_length (walk_step delta b)
          ≡ b.valid_data_length)
unfolding walk_step finish_walk get_length
walk_step_lem b delta v h = ground arith
