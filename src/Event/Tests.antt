-- ===== src/Event/Tests.antt =====
-- A dispatcher with three coroutines, of which one is cancelled and one starts that one and another.
use p2p_live.Prelude.{ℕ, Option, none, some, List, [], ◌∷◌, if◌then◌else◌, ◌==◌}
use p2p_live.Event.{Dispatcher, Request, adds}

abbrev waiting : Dispatcher
waiting = record {
  co_wait_for_resume = (1, none) ∷ (2, some 7) ∷ (3, none) ∷ [];
  cancel_contexts = 2 ∷ [];
}

abbrev starts : ℕ × Option ℕ → List Request
starts e = if e.0 == 1 then adds 2 none ∷ adds 4 (some 8) ∷ [] else []

abbrev weight : ℕ × Option ℕ → ℕ
weight e = if e.0 == 1 then 3 else 1
