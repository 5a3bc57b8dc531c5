-- ===== src/Event/Dispatching.antt =====
-- What `dispatch` resumes, and when it ends.
use p2p_live.Prelude.{ℕ, ◌≡◌, Bool, true, false, Option, some, List, [], ◌++◌, All}
use p2p_live.Event.{Dispatcher, contains, Request, dispatch}
use p2p_live.Event.Requests.{started, cancelled, picked, requested}

module _ (acts : ℕ × Option ℕ → List Request) (w : ℕ × Option ℕ → ℕ) where
  -- The log has what a test picks of the queue and of what the log's coroutines add, in order, where
  -- the test picks no context that is cancelled before or by a coroutine of the log.
  abbrev IsServed : Dispatcher → List (ℕ × Option ℕ) → Type 0
  IsServed s log =
      (p : ℕ × Option ℕ → Bool)
      → ((e : ℕ × Option ℕ) → p e ≡ true → contains e.0 s.cancel_contexts ≡ false)
      → ((e : ℕ × Option ℕ) → p e ≡ true → cancelled e.0 (requested acts log) ≡ false)
      → picked p log ≡ picked p (s.co_wait_for_resume ++ started (requested acts log))

  -- With this fuel `dispatch` ends as it should.
  abbrev Ends : (fuel : ℕ) → Dispatcher → Type 0
  Ends fuel s =
      (log : List (ℕ × Option ℕ)) × (dispatch acts fuel s
        ≡ some (record { co_wait_for_resume = []; cancel_contexts = [] }, log))
      × All (λ e. contains e.0 s.cancel_contexts ≡ false) log
      × IsServed s log
