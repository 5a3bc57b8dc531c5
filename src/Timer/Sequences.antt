-- ===== src/Timer/Sequences.antt =====
-- Several ticks of `time_manager_t`, one after the other.
use p2p_live.Prelude.{
  ℕ, ◌+◌, ◌≡◌, refl, sym, ap, ◌∙◌, arith, ◌&&◌, none, List, [], ◌∷◌, ◌++◌, if◌then◌else◌, ltb, leb,
  ◌==◌, lookup, nat_eq,
}
use p2p_live.Timer.{Timer, TimeManager, Callbacks, align, insert_timer, tick}
use p2p_live.Timer.Slots.{IsSynced, later, insert_timer-IsSynced}
use p2p_live.Timer.Ticks.{
  occurs, occurs-append, load, ran_load, tick_lem, tick-IsSynced, occurs-tick_insert,
}

-- The manager after ticks at the given times, and what they have run.
unfoldable pub ticks : List ℕ → TimeManager → TimeManager × List ℕ
ticks [] m = (m, [])
ticks (n ∷ ns) m = let (m', ran) = tick n m in let (m'', rest) = ticks ns m' in (m'', ran ++ rest)

-- The latest of the times, which need not rise.
unfoldable pub latest : ℕ → List ℕ → ℕ
latest n [] = n
latest n (k ∷ ks) = let l = latest k ks in if ltb n l then l else n

-- What a second tick finds is what the first has not run.
load_twice :
    (c n k : ℕ) (slots left : List (ℕ × Callbacks)) (q : List ℕ)
    → ((s : ℕ) → lookup s left ≡ (if leb s n then none else lookup s slots))
    → load c n slots q + load c k left (later n q) ≡ load c (if ltb n k then k else n) slots q
load_twice c n k slots left [] h = refl
load_twice c n k slots left (t ∷ q) h = ground (arith, load_twice c n k slots left q h, h t)

tick_twice :
    (c n k : ℕ) (m : TimeManager)
    → IsSynced m
    → occurs c (tick n m).1 + occurs c (tick k (tick n m).0).1
      ≡ occurs c (tick (if ltb n k then k else n) m).1
tick_twice c n k m v =
    let w = tick-IsSynced n m v in
    let (ran, queue, slots, next) = tick_lem n m v in
    let second : occurs c (tick k (tick n m).0).1 ≡ load c k (tick n m).0.slots (later n m.queue) =
      ran_load c k (tick n m).0 w ∙ ap (load c k (tick n m).0.slots) queue in
    let total = load_twice c n k m.slots (tick n m).0.slots m.queue slots in
    ground (arith, second, ran_load c n m v, total, ran_load c (if ltb n k then k else n) m v)

-- Ticks run a callback as often as one tick at the latest of their times.
occurs-ticks :
    (c n : ℕ) (ns : List ℕ) (m : TimeManager)
    → IsSynced m
    → occurs c (ticks (n ∷ ns) m).1 ≡ occurs c (tick (latest n ns) m).1
unfolding ticks latest
occurs-ticks c n [] m v = omega (arith, occurs-append c (tick n m).1 [])
occurs-ticks c n (k ∷ ks) m v =
    let m' = (tick n m).0 in
    occurs-append c (tick n m).1 (ticks (k ∷ ks) m').1
    ∙ ap (λ x. occurs c (tick n m).1 + x) (occurs-ticks c k ks m' (tick-IsSynced n m v))
    ∙ tick_twice c n (latest k ks) m v

-- Where heap and map agree: over any sequence of ticks, a timer that is inserted before them has its
-- callback run once more in all if some tick is at its aligned time or after it, and not otherwise;
-- every other callback runs as often as without the timer.
pub occurs-ticks-insert_timer :
    (c n : ℕ) (ns : List ℕ) (timer : Timer) (m : TimeManager)
    → IsSynced m
    → occurs c (ticks (n ∷ ns) (insert_timer timer m).0).1
      ≡ occurs c (ticks (n ∷ ns) m).1
        + (if leb (align m.precision timer.timepoint) (latest n ns) && timer.callback == c
            then 1
            else 0)
occurs-ticks-insert_timer c n ns timer m v =
    occurs-ticks c n ns (insert_timer timer m).0 (insert_timer-IsSynced timer m v)
    ∙ occurs-tick_insert c (latest n ns) timer m v
    ∙ ap
        (λ x.
          x
          + (if leb (align m.precision timer.timepoint) (latest n ns) && timer.callback == c
              then 1
              else 0))
        (sym (occurs-ticks c n ns m v))
