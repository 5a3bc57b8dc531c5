-- ===== src/Co/Tests.antt =====
-- The waiting loops on a call that counts down its state, and a chain of two coroutines.
use p2p_live.Prelude.{
  ℕ, ◌-◌, ◌≡◌, refl, arith, true, false, none, some, List, [], ◌∷◌, ◌++◌, map, if◌then◌else◌, ◌==◌,
}
use p2p_live.Socket.{IoResult, ok, timeout}
use p2p_live.Co.{
  Parameter, listening, Call, Nap, await, await_timeout, Wake, event, parent_stops, await_p,
}
use p2p_live.Co.Waiting.{
  StopsWhenTold, WaitsOn, Returns, await_timeout-Returns, await_timeout-early,
}
use p2p_live.Co.Listeners.{listeners_after, listening-await_p}
use p2p_live.Co.Stopping.{await_p-await}
use p2p_live.Co.Chain.{
  Coroutines, resume, yield, end_wrapper, in_main_coroutine, main, IsChain, Steps, done, resumes,
  yields, ends, is_empty, Steps-IsChain,
}

-- `ok` at 0, `timeout` when it is told to stop.
abbrev countdown : Call ℕ IoResult
countdown p s = (s, if p.stop then some timeout else if s == 0 then some ok else none)

abbrev never : Call ℕ IoResult
never p s = (s, if p.stop then some timeout else none)

countdown-StopsWhenTold : StopsWhenTold countdown
countdown-StopsWhenTold p s h = (timeout, rw h refl)

never-StopsWhenTold : StopsWhenTold never
never-StopsWhenTold p s h = (timeout, rw h refl)

never-WaitsOn : WaitsOn never
never-WaitsOn p s h = rw h refl

abbrev less : ℕ → ℕ
less s = s - 1

abbrev nap : ℕ → Nap ℕ
nap elapsed = record { elapsed = elapsed; change = less }

await_timeout-Returns_example : Returns (await_timeout 3 countdown (nap 1 ∷ nap 2 ∷ nap 3 ∷ []) 9)
await_timeout-Returns_example =
    await_timeout-Returns countdown 3 (nap 1 ∷ nap 2 ∷ nap 3 ∷ []) 9 countdown-StopsWhenTold
      (omega arith) (omega arith)

-- Five seconds that are over after two milliseconds.
await_timeout-early_example : Returns (await_timeout 5000000 never (nap 1000 ∷ nap 1000 ∷ []) 9)
await_timeout-early_example =
    await_timeout-early never 5000000 (nap 1000) (nap 1000) 9 never-StopsWhenTold never-WaitsOn
      (omega arith) (omega arith)

abbrev parent : Parameter
parent = record { times = 1; stop = false; stop_listener = (4, true) ∷ (5, false) ∷ [] }

abbrev wakes : List (Wake ℕ)
wakes = event less ∷ event less ∷ []

listening-await_p_example :
    listening (await_p parent countdown 6 wakes 2).parent.stop_listener
    ≡ listeners_after (await_p parent countdown 6 wakes 2).progress (4 ∷ []) 6
listening-await_p_example = listening-await_p countdown 6 wakes parent 2

await_p-await_example :
    ((await_p parent countdown 6 (map event (less ∷ less ∷ [])) 2).progress
      ≡ await countdown (less ∷ less ∷ []) 2)
    × Returns
        (await_p parent countdown 6 (map event (less ∷ less ∷ []) ++ parent_stops ∷ []) 2).progress
await_p-await_example =
    await_p-await countdown 6 (less ∷ less ∷ []) [] parent 2 countdown-StopsWhenTold

abbrev nothing_runs : Coroutines
nothing_runs = record { co_cur = none; prev = λ c. none; is_stop = λ c. false }

abbrev one_over : Coroutines
one_over = record {
  co_cur = some 1;
  prev = λ d. if 2 == d then some 1 else if 1 == d then none else none;
  is_stop = λ d. if 1 == d then true else false;
}

-- Coroutine 1 resumes 2, which yields; then 1 ends, outside all others.
two_resumed : Steps nothing_runs [] one_over (1 ∷ [])
unfolding resume yield end_wrapper
two_resumed = resumes 1 refl (resumes 2 refl (yields 2 refl (ends done)))

Steps-IsChain_example : IsChain one_over (1 ∷ []) × (in_main_coroutine one_over ≡ is_empty (1 ∷ []))
Steps-IsChain_example = Steps-IsChain two_resumed main
