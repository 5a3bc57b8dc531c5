-- ===== src/ThreadPool/Order.antt =====
-- The tasks of a pool: each is taken once, in the order of the calls of `commit`.
use p2p_live.Prelude.{
  ℕ, ◌≡◌, refl, sym, ap, ◌∙◌, arith, Bool, true, false, Option, none, some, List, [], ◌∷◌, ◌++◌,
  if◌then◌else◌, ◌&&◌, inl, inr, Bool-cases, get_elem?,
}
use mathlib.Core.List.{append_assoc, append-nil}
use p2p_live.ThreadPool.{
  ThreadPool, Worker, looping, waiting, left, empty, commit, begin_exit, wrapper, take_task,
  advance_worker, advance_at,
}

pub data PoolStep : Type 0 where
  commits : ℕ → PoolStep
  exits : PoolStep
  thread_runs : ℕ → PoolStep

unfoldable pub pool_step : PoolStep → ThreadPool → ThreadPool × List ℕ
unfolding commit begin_exit wrapper
pool_step (commits task) p = (commit task p, [])
pool_step exits p = (begin_exit p, [])
pool_step (thread_runs i) p = wrapper i p

unfoldable pub run_pool : List PoolStep → ThreadPool → ThreadPool × List ℕ
unfolding pool_step
run_pool [] p = (p, [])
run_pool (x ∷ xs) p =
    let (p', now) = pool_step x p in let (q, later) = run_pool xs p' in (q, now ++ later)

-- The tasks that `commit` takes: those of the calls before the destructor.
abbrev pub committed : Bool → List PoolStep → List ℕ
committed exit [] = []
committed exit (commits task ∷ xs) =
    let rest = committed exit xs in if exit then rest else task ∷ rest
committed exit (exits ∷ xs) = committed true xs
committed exit (thread_runs i ∷ xs) = committed exit xs

-- What a thread takes comes off the front of the queue.
abbrev Takes : ThreadPool → ThreadPool × List ℕ → Type 0
Takes p (q, taken) = (taken ++ q.tasks ≡ p.tasks) × (q.exit ≡ p.exit)

take_task-Takes : (i : ℕ) (ts : List ℕ) (p : ThreadPool) → p.tasks ≡ ts → Takes p (take_task i ts p)
take_task-Takes i [] p h = elim (Bool-cases p.exit) [
  | inl going ↦ rw going (refl, refl)
  | inr staying ↦ rw staying (refl, refl)
]
take_task-Takes i (t ∷ ts) p h = (sym h, refl)

advance_worker-Takes : (i : ℕ) (w : Worker) (p : ThreadPool) → Takes p (advance_worker i w p)
advance_worker-Takes i looping p = elim (Bool-cases (p.exit && empty p)) [
  | inl over ↦ ground (arith, over)
  | inr going ↦ ground (arith, going)
]
advance_worker-Takes i waiting p = take_task-Takes i p.tasks p refl
advance_worker-Takes i left p = (refl, refl)

advance_at-Takes : (o : Option Worker) (i : ℕ) (p : ThreadPool) → Takes p (advance_at o i p)
advance_at-Takes none i p = (refl, refl)
advance_at-Takes (some w) i p = advance_worker-Takes i w p

-- However the threads run, `commit` is called and the destructor begins: the tasks that were taken,
-- followed by those that wait, are those that waited at first, followed by those that `commit` took
-- since, in order and each once.
pub tasks-run_pool :
    (xs : List PoolStep) (p : ThreadPool)
    → let (q, taken) = run_pool xs p in taken ++ q.tasks ≡ p.tasks ++ committed p.exit xs
unfolding run_pool pool_step commit begin_exit wrapper
tasks-run_pool [] p = sym (append-nil p.tasks)
tasks-run_pool (commits task ∷ xs) p = elim (Bool-cases p.exit) [
  | inl over ↦ let rest = tasks-run_pool xs p in rw over (rw over at rest)
  | inr going ↦
      let rest = tasks-run_pool xs (record p { tasks = p.tasks ++ task ∷ [] }) in
      rw going (rw going at rest ∙ append_assoc p.tasks (task ∷ []) (committed false xs))
]
tasks-run_pool (exits ∷ xs) p = tasks-run_pool xs (record p { exit = true })
tasks-run_pool (thread_runs i ∷ xs) p =
    let (p1, now) = wrapper i p in
    let (q, later) = run_pool xs p1 in
    let (front, same) = advance_at-Takes (get_elem? p.threads i) i p in
    append_assoc now later q.tasks
    ∙ ap (λ z. now ++ z) (tasks-run_pool xs p1 ∙ ap (λ b. p1.tasks ++ committed b xs) same)
    ∙ sym (append_assoc now p1.tasks (committed p.exit xs))
    ∙ ap (λ z. z ++ committed p.exit xs) front
