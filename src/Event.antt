-- ===== src/Event.antt =====
-- lib/net/event.cc: the event loop and the choice of a loop; lib/net/execute_dispatcher.cc: the queue
-- of coroutines that each loop resumes.
pub mod Loops
pub mod Requests
pub mod Dispatching
pub mod Tests
pub mod Demultiplexers
use p2p_live.Prelude.{
  ℕ, zero, suc, ◌+◌, ◌-◌, Bool, true, false, ◌||◌, Option, none, some, List, [], ◌∷◌, ◌++◌,
  if◌then◌else◌, ltb, leb, ◌==◌, lookup, insert, erase, nat_eq,
}

-- `event_loop_t`, with handlers as numbers.
pub record EventLoop : Type 0 where
  pub event_map : List (ℕ × ℕ)
  pub is_exit : Bool
  pub has_wake_up : Bool
  pub exit_code : ℕ

pub data LoopEffect : Type 0 where
  ticked dispatched woken_up : LoopEffect
  linked unlinked : (handle : ℕ) → LoopEffect
  selected : (timeout : ℕ) → LoopEffect
  handled : (handler : ℕ) → LoopEffect

-- `add_event_handler` and `remove_event_handler`
unfoldable pub add_event_handler : ℕ → ℕ → EventLoop → EventLoop
add_event_handler handle handler s = record s { event_map = insert handle handler s.event_map }

unfoldable pub remove_event_handler : ℕ → EventLoop → EventLoop × List LoopEffect
remove_event_handler handle s =
    (record s { event_map = erase handle s.event_map }, unlinked handle ∷ [])

abbrev pub handler_effects : Option ℕ → List LoopEffect
handler_effects none = []
handler_effects (some f) = handled f ∷ dispatched ∷ []

-- What `demuxer->select` gave: 0 is no handle. A handle without a handler goes to the next round
-- before the second dispatch.
abbrev pub select_effects : ℕ → EventLoop → List LoopEffect
select_effects handle s =
    if handle == 0 then dispatched ∷ [] else handler_effects (lookup handle s.event_map)

-- One round of `run`: the times are what the clock and the time manager give before and after the
-- first dispatch, `exits` is `is_exit` after it, and `handle` is what `select` returns.
unfoldable pub run_once : ℕ → ℕ → ℕ → ℕ → Bool → ℕ → EventLoop → EventLoop × List LoopEffect
run_once cur target next cur' exits handle s =
    let first = (if leb target cur then ticked ∷ [] else []) ++ dispatched ∷ [] in
    let timeout = if ltb cur' next then next - cur' else 0 in
    if s.is_exit
    then (s, [])
    else if exits
    then (record s { is_exit = true }, first)
    else (record s { has_wake_up = false }, first ++ (selected timeout ∷ select_effects handle s))

-- `exit`
unfoldable pub exit : ℕ → EventLoop → EventLoop × List LoopEffect
exit code s = (record s { exit_code = code; is_exit = true }, woken_up ∷ [])

-- `wake_up`; `here` is whether the caller runs in the loop's own thread.
unfoldable pub wake_up : Bool → EventLoop → EventLoop × List LoopEffect
wake_up here s =
    if here
    then (s, [])
    else (record s { has_wake_up = true }, if s.has_wake_up then [] else woken_up ∷ [])

-- `event_context_t::select_loop` on the loops' load factors: the loop in `for` with the best number so
-- far, its load, and the number of the loop at hand.
unfoldable pub select_from : List ℕ → ℕ → ℕ → ℕ → ℕ
select_from [] at best min_fac = best
select_from (fac ∷ facs) at best min_fac =
    let less = ltb fac min_fac in
    select_from facs (suc at) (if less then at else best) (if less then fac else min_fac)

-- `loops[0]` is there: the constructor of the context made it.
unfoldable pub select_loop : ℕ → List ℕ → ℕ
unfolding select_from
select_loop fac facs = select_from (fac ∷ facs) 0 0 fac

-- `execute_thread_dispatcher_t`: the waiting contexts, each with the function to run in it or none,
-- and the cancelled contexts.
pub record Dispatcher : Type 0 where
  pub co_wait_for_resume : List (ℕ × Option ℕ)
  pub cancel_contexts : List ℕ

abbrev pub contains : ℕ → List ℕ → Bool
contains x [] = false
contains x (y ∷ ys) = y == x || contains x ys

-- `add` and `cancel`
unfoldable pub add : ℕ → Option ℕ → Dispatcher → Dispatcher
add econtext func s = record s {
  co_wait_for_resume = s.co_wait_for_resume ++ (econtext, func) ∷ [];
}

unfoldable pub cancel : ℕ → Dispatcher → Dispatcher
cancel econtext s = record s { cancel_contexts = econtext ∷ s.cancel_contexts }

-- What a resumed coroutine does to the dispatcher before it yields.
pub data Request : Type 0 where
  adds : (econtext : ℕ) (func : Option ℕ) → Request
  cancels : (econtext : ℕ) → Request

unfoldable pub request : Request → Dispatcher → Dispatcher
unfolding add cancel
request (adds c f) s = add c f s
request (cancels c) s = cancel c s

unfoldable pub requests : List Request → Dispatcher → Dispatcher
unfolding request
requests [] s = s
requests (r ∷ rs) s = requests rs (request r s)

abbrev pub push_resumed :
    ℕ × Option ℕ
    → Option (Dispatcher × List (ℕ × Option ℕ))
    → Option (Dispatcher × List (ℕ × Option ℕ))
push_resumed e none = none
push_resumed e (some (s, es)) = some (s, e ∷ es)

-- `dispatch`: `acts` says what a resumed coroutine asks for; the log is what was resumed, in order, and
-- `none` means that the fuel ran out.
unfoldable pub dispatch :
    (ℕ × Option ℕ → List Request) → ℕ → Dispatcher → Option (Dispatcher × List (ℕ × Option ℕ))
unfolding requests
dispatch acts zero s = none
dispatch acts (suc fuel) s = elim s.co_wait_for_resume [
  | [] ↦ some (record s { cancel_contexts = [] }, [])
  | e ∷ q ↦
      let popped = record s { co_wait_for_resume = q } in
      elim (contains e.0 s.cancel_contexts) [
        | true ↦ dispatch acts fuel popped
        | false ↦ push_resumed e (dispatch acts fuel (requests (acts e) popped))
      ]
]
