-- ===== src/Timer/Tests.antt =====
-- The timers' theorems on a manager of precision 10 with two timers in it.
use p2p_live.Prelude.{
  ℕ, ◌+◌, ◌<◌, ◌≡◌, ◌⊎◌, refl, ◌&&◌, none, [], ◌∷◌, if◌then◌else◌, leb, ◌==◌, lookup, nat_eq,
}
use p2p_live.Timer.{
  Timer, TimeManager, create_time_manager, align, insert_timer, cancel, tick, next_tick_timepoint,
}
use p2p_live.Timer.Slots.{IsSynced, insert_timer-IsSynced, runs, due, later}
use p2p_live.Timer.Ticks.{tick_lem, occurs, occurs-tick-cancel}
use p2p_live.Timer.Sequences.{ticks, latest, occurs-ticks-insert_timer}

abbrev timer_at : ℕ → ℕ → Timer
timer_at t c = record { timepoint = t; callback = c }

abbrev two_timers : TimeManager
two_timers =
    (insert_timer (timer_at 25 1) (insert_timer (timer_at 42 2) (create_time_manager 10)).0).0

no_timers-IsSynced : IsSynced (create_time_manager 10)
unfolding create_time_manager
no_timers-IsSynced = record { rising = tt; synced = λ t. refl }

two_timers-IsSynced : IsSynced two_timers
two_timers-IsSynced =
    insert_timer-IsSynced (timer_at 25 1) (insert_timer (timer_at 42 2) (create_time_manager 10)).0
      (insert_timer-IsSynced (timer_at 42 2) (create_time_manager 10) no_timers-IsSynced)

tick_lem_example :
    let (m', ran) = tick 30 two_timers in
    (ran ≡ runs two_timers.slots (due 30 two_timers.queue))
    × (m'.queue ≡ later 30 two_timers.queue)
    × ((s : ℕ) → lookup s m'.slots ≡ (if leb s 30 then none else lookup s two_timers.slots))
    × ((m'.queue ≡ []) ⊎ (30 < next_tick_timepoint m'))
tick_lem_example = tick_lem 30 two_timers two_timers-IsSynced

-- The timer is due at the second tick; the third and the fourth do not run it again.
occurs-ticks-insert_timer_example :
    occurs 3 (ticks (20 ∷ 30 ∷ 25 ∷ 60 ∷ []) (insert_timer (timer_at 28 3) two_timers).0).1
    ≡ occurs 3 (ticks (20 ∷ 30 ∷ 25 ∷ 60 ∷ []) two_timers).1
      + (if leb (align two_timers.precision 28) (latest 20 (30 ∷ 25 ∷ 60 ∷ [])) && 3 == 3
          then 1
          else 0)
occurs-ticks-insert_timer_example =
    occurs-ticks-insert_timer 3 20 (30 ∷ 25 ∷ 60 ∷ []) (timer_at 28 3) two_timers
      two_timers-IsSynced

occurs-tick-cancel_example :
    let (m', reg) = insert_timer (timer_at 28 3) two_timers in
    occurs 3 (tick 30 (cancel reg m')).1 ≡ occurs 3 (tick 30 two_timers).1
occurs-tick-cancel_example = occurs-tick-cancel 3 30 (timer_at 28 3) two_timers two_timers-IsSynced
