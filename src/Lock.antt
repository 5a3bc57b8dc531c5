-- ===== src/Lock.antt =====
-- include/net/lock.hpp: `rw_lock_t`, with every thread at its place between two accesses of the atomic
-- `flag`. The accesses are sequentially consistent here.
pub mod Exclusion
pub mod Tests
use p2p_live.Prelude.{
  ℕ, ◌%◌, Bool, Option, none, some, List, if◌then◌else◌, leb, ◌==◌, add_u64, sub_u64, get_elem?,
  set,
}

-- `1ull << 63`
abbrev pub write_bit : ℕ
write_bit = 9223372036854775808

-- Where a thread is. `..._wait` is before the inner loop's load, `..._load` before the load of `old`,
-- `..._try` before the exchange.
pub data Phase : Type 0 where
  idle read_wait read_load reading unread_load write_wait write_try writing : Phase
  read_try unread_try : (old : ℕ) → Phase

-- `rw_lock_t` and the threads that use it.
pub record RwLock : Type 0 where
  pub flag : ℕ
  pub threads : List Phase

-- One access of `flag`, in `rlock`, `runlock`, `lock` and `unlock`; a thread that is idle may want
-- either lock, and one that holds a lock gives it back.
unfoldable pub advance : Bool → ℕ → Phase → ℕ × Phase
advance wants_write flag idle = (flag, if wants_write then write_wait else read_wait)
advance wants_write flag read_wait = (flag, if leb write_bit flag then read_wait else read_load)
advance wants_write flag read_load = (flag, read_try (flag % write_bit))
advance wants_write flag (read_try old) =
    if flag == old then (add_u64 old 1, reading) else (flag, read_wait)
advance wants_write flag reading = (flag, unread_load)
advance wants_write flag unread_load = (flag, unread_try (flag % write_bit))
advance wants_write flag (unread_try old) =
    if flag == old then (sub_u64 old 1, idle) else (flag, unread_load)
advance wants_write flag write_wait = (flag, if flag == 0 then write_try else write_wait)
advance wants_write flag write_try = if flag == 0 then (write_bit, writing) else (flag, write_wait)
advance wants_write flag writing = (0, idle)

-- Thread `i` makes one access; a thread that is not there makes none.
unfoldable pub step_thread : Bool → ℕ → RwLock → RwLock
unfolding advance
step_thread wants_write i s = elim (get_elem? s.threads i) [
  | none ↦ s
  | some phase ↦
      let next = advance wants_write s.flag phase in
      record { flag = next.0; threads = set s.threads i next.1 }
]
