-- ===== src/Co/Sleeping.antt =====
-- lib/net/execute_context.cc: `stop_for`, `start` and `start_with`, over the timers and the dispatcher
-- of the loop.
use p2p_live.Prelude.{ℕ, ◌≡◌, Option, none, some}
use p2p_live.Timer.{TimerRegistered, TimeManager, make_timer, insert_timer, cancel, tick}
use p2p_live.Timer.Slots.{IsSynced}
use p2p_live.Timer.Ticks.{occurs, occurs-tick-cancel}
use p2p_live.Event.{Dispatcher, add}

-- `execute_context_t`, by its number, with the timer of its sleep, `none` where the id is -1.
pub record ExecuteContext : Type 0 where
  pub id : ℕ
  pub timer : Option TimerRegistered

abbrev pub unregister : Option TimerRegistered → TimeManager → TimeManager
unregister none tm = tm
unregister (some reg) tm = cancel reg tm

-- `stop_for` up to its `yield`; `callback` names the function of the timer.
unfoldable pub begin_sleep :
    (now ms callback : ℕ) → ExecuteContext → TimeManager → ExecuteContext × TimeManager
unfolding make_timer insert_timer cancel
begin_sleep now ms callback c tm =
    let (tm', reg) = insert_timer (make_timer now ms callback) (unregister c.timer tm) in
    (record c { timer = some reg }, tm')

-- `start`: the context is put on the dispatcher's queue.
unfoldable pub start : ExecuteContext → Dispatcher → Dispatcher
unfolding add
start c d = add c.id none d

-- `start_with`: the function is run before the coroutine goes on.
unfoldable pub start_with : ℕ → ExecuteContext → Dispatcher → Dispatcher
unfolding add
start_with f c d = add c.id (some f) d

-- The function of the timer.
unfoldable pub on_wake : ExecuteContext → Dispatcher → ExecuteContext × Dispatcher
unfolding start
on_wake c d = (record c { timer = none }, start c d)

-- What follows the `yield` of `stop_for`. (Where the timer has fired its slot is gone, and `cancel`
-- finds nothing to clear.)
unfoldable pub end_sleep : ExecuteContext → TimeManager → TimeManager
unfolding cancel
end_sleep c tm = unregister c.timer tm

-- A sleep that something else than its timer ends leaves no timer behind: the next tick runs each
-- callback as often as if the coroutine had not slept.
pub occurs-tick-end_sleep :
    (f now later ms callback : ℕ) (c : ExecuteContext) (tm : TimeManager)
    → c.timer ≡ none
    → IsSynced tm
    → let (c', tm') = begin_sleep now ms callback c tm in
      occurs f (tick later (end_sleep c' tm')).1 ≡ occurs f (tick later tm).1
unfolding begin_sleep end_sleep
occurs-tick-end_sleep f now later ms callback c tm h v =
    rw h (occurs-tick-cancel f later (make_timer now ms callback) tm v)
