-- ===== src/Timer.antt =====
-- include/net/timer.hpp and lib/net/timer.cc: timers in slots of one precision, a minimum heap of
-- slots and a map from the slot's time to it. Times are `u64` microseconds and `now` is what
-- `get_current_time` returns. A callback is a number; running it is recorded, since the callbacks of
-- the program only queue work on the dispatcher and leave the manager alone.
pub mod Align
pub mod Tests
pub mod Slots
pub mod Ticks
pub mod Sequences
use p2p_live.Prelude.{
  ℕ, zero, suc, ◌+◌, ◌-◌, ◌*◌, ◌/◌, Bool, true, false, Option, none, some, List, [], ◌∷◌, ◌++◌,
  if◌then◌else◌, ltb, length, set, get_elem?, lookup, insert, erase, nat_eq, u64_max, sub_u64,
}

-- `timer_t`
pub record Timer : Type 0 where
  pub timepoint : ℕ
  pub callback : ℕ

-- `timer_slot_t::callbacks`: the flag is cleared by `cancel`.
abbrev pub Callbacks : Type 0
Callbacks = List (ℕ × Bool)

-- `timer_registered_t`
pub record TimerRegistered : Type 0 where
  pub id : ℕ
  pub timepoint : ℕ

-- `time_manager_t`. `queue` is the priority queue of slots, each named by its time, in the order in
-- which `top` and `pop` give them; `slots` is `map`.
pub record TimeManager : Type 0 where
  pub precision : ℕ
  pub queue : List ℕ
  pub slots : List (ℕ × Callbacks)

-- `create_time_manager`
unfoldable pub create_time_manager : ℕ → TimeManager
create_time_manager precision = record { precision = precision; queue = []; slots = [] }

-- `make_timer`: a sum that does not fit is the largest time.
unfoldable pub make_timer : ℕ → ℕ → ℕ → Timer
make_timer now span callback =
    if ltb (u64_max - span) now
    then record { timepoint = u64_max; callback = callback }
    else record { timepoint = span + now; callback = callback }

-- The time that `insert` moves a timer to: up to the precision, unless that would wrap.
unfoldable pub align : ℕ → ℕ → ℕ
align precision timepoint =
    if ltb (u64_max - timepoint) (sub_u64 precision 1)
    then timepoint
    else (timepoint + precision - 1) / precision * precision

-- `queue.push`: the heap gives the smallest time first.
unfoldable pub push : ℕ → List ℕ → List ℕ
push t [] = t ∷ []
push t (u ∷ q) = if ltb u t then u ∷ push t q else t ∷ (u ∷ q)

abbrev pub callbacks_of : Option Callbacks → Callbacks
callbacks_of none = []
callbacks_of (some cs) = cs

abbrev pub slot_at : ℕ → List (ℕ × Callbacks) → Callbacks
slot_at t m = callbacks_of (lookup t m)

-- `map.find`, and a new slot in the map and the heap where there was none.
unfoldable pub open_slot : ℕ → TimeManager → TimeManager
open_slot t m = elim (lookup t m.slots) [
  | none ↦ record m { queue = push t m.queue; slots = insert t [] m.slots }
  | some _ ↦ m
]

-- `time_manager_t::insert`
unfoldable pub insert_timer : Timer → TimeManager → TimeManager × TimerRegistered
unfolding open_slot
insert_timer timer m =
    let t = align m.precision timer.timepoint in
    let m' = open_slot t m in
    let callbacks = slot_at t m'.slots ++ (timer.callback, true) ∷ [] in
    (
      record m' { slots = insert t callbacks m'.slots },
      record { id = length callbacks; timepoint = t },
    )

abbrev pub clear_flag : Option (ℕ × Bool) → ℕ → Callbacks → Callbacks
clear_flag none i cs = cs
clear_flag (some (c, _)) i cs = set cs i (c, false)

-- `time_manager_t::cancel`. (An `id` that the slot does not have is undefined in the source; here
-- it changes nothing.)
unfoldable pub cancel : TimerRegistered → TimeManager → TimeManager
cancel reg m = elim (lookup reg.timepoint m.slots) [
  | none ↦ m
  | some cs ↦ record m {
    slots = insert reg.timepoint (clear_flag (get_elem? cs (reg.id - 1)) (reg.id - 1) cs) m.slots;
  }
]

-- The callbacks of a slot that were not cancelled, in order.
unfoldable pub active : Callbacks → List ℕ
active [] = []
active ((c, on) ∷ cs) = if on then c ∷ active cs else active cs

-- The loop of `tick`: the heap and the map that it leaves, and what it ran.
unfoldable pub tick_loop :
    ℕ → List ℕ → List (ℕ × Callbacks) → List ℕ × List (ℕ × Callbacks) × List ℕ
tick_loop now [] slots = ([], slots, [])
tick_loop now (t ∷ q) slots =
    let rest = tick_loop now q (erase t slots) in
    if ltb now t then (t ∷ q, slots, []) else (rest.0, rest.1, active (slot_at t slots) ++ rest.2)

-- `time_manager_t::tick`
unfoldable pub tick : ℕ → TimeManager → TimeManager × List ℕ
unfolding tick_loop
tick now m =
    let (q, slots, ran) = tick_loop now m.queue m.slots in
    (record m { queue = q; slots = slots }, ran)

abbrev pub first_time : List ℕ → ℕ
first_time [] = u64_max
first_time (t ∷ q) = t

-- `next_tick_timepoint`
unfoldable pub next_tick_timepoint : TimeManager → ℕ
next_tick_timepoint m = first_time m.queue
