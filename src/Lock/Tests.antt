-- ===== src/Lock/Tests.antt =====
-- A reader gets in while a writer waits.
use p2p_live.Prelude.{ℕ, ◌≡◌, ◌⊎◌, arith, Bool, true, false, List, [], ◌∷◌}
use p2p_live.Lock.Exclusion.{count, reads, writes, run_threads, new_lock, run_threads_lem}

abbrev order : List (Bool × ℕ)
order = (false, 0) ∷ (false, 0) ∷ (true, 1) ∷ (false, 0) ∷ (true, 1) ∷ (false, 0) ∷ (true, 1) ∷ []

run_threads_lem_example :
    let threads = (run_threads order (new_lock 2)).threads in
    (count writes threads ≡ 0) ⊎ ((count writes threads ≡ 1) × (count reads threads ≡ 0))
run_threads_lem_example = run_threads_lem 2 order (omega arith)
