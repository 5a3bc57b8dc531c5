-- ===== src/ThreadPool.antt =====
-- include/net/thread_pool.hpp and lib/net/thread_pool.cc: `thread_pool_t`, with every thread at its
-- place in `wrapper`. What a thread does under the mutex is one step.
pub mod Order
use p2p_live.Prelude.{
  ℕ, ◌+◌, ◌-◌, Bool, true, false, Option, none, some, List, [], ◌∷◌, ◌++◌, if◌then◌else◌, ◌&&◌,
  get_elem?, set, replicate,
}

-- Where a thread is: before the test of the loop, in the wait, or out of the loop.
pub data Worker : Type 0 where
  looping waiting left : Worker

-- `thread_pool_t`; `counter` wraps nowhere, since it counts threads.
pub record ThreadPool : Type 0 where
  pub tasks : List ℕ
  pub threads : List Worker
  pub exit : Bool
  pub counter : ℕ

-- `thread_pool_t(count)`
unfoldable pub new_pool : ℕ → ThreadPool
new_pool count = record { tasks = []; threads = replicate count looping; exit = false; counter = 0 }

-- `empty`
abbrev pub empty : ThreadPool → Bool
empty p = elim p.tasks [ [] ↦ true | ◌∷◌ t ts ↦ false ]

-- `commit`
unfoldable pub commit : ℕ → ThreadPool → ThreadPool
commit task p = if p.exit then p else record p { tasks = p.tasks ++ task ∷ [] }

-- The start of the destructor; `join` waits until every thread has left.
unfoldable pub begin_exit : ThreadPool → ThreadPool
begin_exit p = record p { exit = true }

abbrev pub move_to : ℕ → Worker → ThreadPool → ThreadPool
move_to i w p = record p { threads = set p.threads i w }

abbrev pub take_task : ℕ → List ℕ → ThreadPool → ThreadPool × List ℕ
take_task i [] p = (if p.exit then move_to i left p else p, [])
take_task i (t ∷ ts) p =
    (move_to i looping (record p { tasks = ts; counter = p.counter - 1 }), t ∷ [])

abbrev pub advance_worker : ℕ → Worker → ThreadPool → ThreadPool × List ℕ
advance_worker i looping p = (
  if p.exit && empty p
      then move_to i left p
      else move_to i waiting (record p { counter = p.counter + 1 }),
  [],
)
advance_worker i waiting p = take_task i p.tasks p
advance_worker i left p = (p, [])

abbrev pub advance_at : Option Worker → ℕ → ThreadPool → ThreadPool × List ℕ
advance_at none i p = (p, [])
advance_at (some w) i p = advance_worker i w p

-- One step of thread `i` in `wrapper`, with the task that it goes on to run.
unfoldable pub wrapper : ℕ → ThreadPool → ThreadPool × List ℕ
wrapper i p = advance_at (get_elem? p.threads i) i p

-- `get_idles`
unfoldable pub get_idles : ThreadPool → ℕ
get_idles p = p.counter
