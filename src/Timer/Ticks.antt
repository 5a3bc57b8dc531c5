-- ===== src/Timer/Ticks.antt =====
-- What `tick` runs: which callbacks, how often, and what `insert` and `cancel` before it change.
use p2p_live.Prelude.{
  ℕ, ◌+◌, ◌-◌, ◌<◌, ◌≡◌, refl, sym, ap, ◌∙◌, arith, true, false, ◌&&◌, ◌⊎◌, none, some, List, [],
  ◌∷◌, ◌++◌, if◌then◌else◌, ltb, leb, ◌==◌, length, lookup, insert, nat_eq, lookup-insert,
  Option-cases, length-append, set-append_last, get_elem?-append_last, inl, inr,
}
use p2p_live.Timer.{
  Timer, TimerRegistered, TimeManager, Callbacks, align, push, slot_at, open_slot, insert_timer,
  cancel, active, tick, next_tick_timepoint, first_time,
}
use p2p_live.Timer.Slots.{
  memb, Above, IsRising, IsSynced, is_some, tick_loop-Ticked, due, later, runs, memb-Above,
  Above-IsRising, open_slot-IsSynced, open_slot-memb, insert_timer-IsSynced, cancel-IsSynced,
}

memb-due_iff : (s now : ℕ) (q : List ℕ) → memb s (due now q) ≡ (memb s q && leb s now)
memb-due_iff s now [] = refl
memb-due_iff s now (u ∷ q) = ground (arith, memb-due_iff s now q)

memb-later_iff : (s now : ℕ) (q : List ℕ) → memb s (later now q) ≡ (memb s q && ltb now s)
memb-later_iff s now [] = refl
memb-later_iff s now (u ∷ q) = ground (arith, memb-later_iff s now q)

later-Above : (b now : ℕ) (q : List ℕ) → Above b q → Above b (later now q)
later-Above b now [] a = tt
later-Above b now (u ∷ q) a =
    ground (arith, later-Above u now q a.1, later-Above b now q, Above-weaken b u q)
  where
    Above-weaken : (b u : ℕ) (q : List ℕ) → b < u → Above u q → Above b q
    Above-weaken b u [] h a = tt
    Above-weaken b u (w ∷ q) h a = (omega arith, a.1)

later-IsRising : (now : ℕ) (q : List ℕ) → IsRising q → IsRising (later now q)
later-IsRising now [] a = tt
later-IsRising now (u ∷ q) a =
    ground (arith, later-Above u now q a, later-IsRising now q (Above-IsRising u q a))

pub tick-IsSynced : (now : ℕ) (m : TimeManager) → IsSynced m → IsSynced (tick now m).0
unfolding tick
tick-IsSynced now m v =
    let r = tick_loop-Ticked now m.queue m.slots v.rising in
    record {
      rising = rw r.queue (later-IsRising now m.queue v.rising);
      synced = λ s. ground (
        arith,
        r.queue,
        r.slots_left s,
        v.synced s,
        memb-due_iff s now m.queue,
        memb-later_iff s now m.queue,
      );
    }

later_next : (now : ℕ) (q : List ℕ) → (later now q ≡ []) ⊎ (now < first_time (later now q))
later_next now [] = inl refl
later_next now (u ∷ q) = ground (arith, later_next now q)

-- One tick of a manager whose heap and map agree: it runs the active callbacks of exactly the
-- slots whose time has come, the earliest slot first and each slot in the order of insertion; it
-- drops those slots and leaves every other slot as it was; and no slot that is due is left in the
-- heap.
pub tick_lem :
    (now : ℕ) (m : TimeManager)
    → IsSynced m
    → let (m', ran) = tick now m in
      (ran ≡ runs m.slots (due now m.queue))
      × (m'.queue ≡ later now m.queue)
      × ((s : ℕ) → lookup s m'.slots ≡ (if leb s now then none else lookup s m.slots))
      × ((m'.queue ≡ []) ⊎ (now < next_tick_timepoint m'))
unfolding tick next_tick_timepoint
tick_lem now m v =
    let r = tick_loop-Ticked now m.queue m.slots v.rising in
    (
      r.ran,
      r.queue,
      (λ s. ground (arith, r.slots_left s, v.synced s, memb-due_iff s now m.queue)),
      rw r.queue (later_next now m.queue),
    )

-- How often a callback stands in a list.
abbrev pub occurs : ℕ → List ℕ → ℕ
occurs c [] = 0
occurs c (x ∷ xs) = (if x == c then 1 else 0) + occurs c xs

pub occurs-append : (c : ℕ) (xs ys : List ℕ) → occurs c (xs ++ ys) ≡ occurs c xs + occurs c ys
occurs-append c [] ys = omega arith
occurs-append c (x ∷ xs) ys = omega (arith, occurs-append c xs ys)

-- How often the slots of a queue would run `c` by `now`.
abbrev pub load : ℕ → ℕ → List (ℕ × Callbacks) → List ℕ → ℕ
load c now slots [] = 0
load c now slots (t ∷ q) =
    (if leb t now then occurs c (active (slot_at t slots)) else 0) + load c now slots q

occurs-runs :
    (c now : ℕ) (slots : List (ℕ × Callbacks)) (q : List ℕ)
    → occurs c (runs slots (due now q)) ≡ load c now slots q
occurs-runs c now slots [] = refl
occurs-runs c now slots (t ∷ q) = ground (
  arith,
  occurs-runs c now slots q,
  occurs-append c (active (slot_at t slots)) (runs slots (due now q)),
)

pub ran_load :
    (c now : ℕ) (m : TimeManager)
    → IsSynced m
    → occurs c (tick now m).1 ≡ load c now m.slots m.queue
ran_load c now m v = ap (occurs c) (tick_lem now m v).0 ∙ occurs-runs c now m.slots m.queue

load-push :
    (c now t : ℕ) (slots : List (ℕ × Callbacks)) (q : List ℕ)
    → load c now slots (push t q)
      ≡ (if leb t now then occurs c (active (slot_at t slots)) else 0) + load c now slots q
unfolding push
load-push c now t slots [] = refl
load-push c now t slots (u ∷ q) = ground (arith, load-push c now t slots q)

load-insert_out :
    (c now t : ℕ) (cs : Callbacks) (slots : List (ℕ × Callbacks)) (q : List ℕ)
    → memb t q ≡ false
    → load c now (insert t cs slots) q ≡ load c now slots q
load-insert_out c now t cs slots [] h = refl
load-insert_out c now t cs slots (u ∷ q) h =
    ground (arith, lookup-insert t u cs slots, load-insert_out c now t cs slots q)

-- Storing callbacks in one slot of a rising queue changes that slot's share.
load-insert :
    (c now t : ℕ) (cs : Callbacks) (slots : List (ℕ × Callbacks)) (q : List ℕ)
    → IsRising q
    → memb t q ≡ true
    → load c now (insert t cs slots) q
        + (if leb t now then occurs c (active (slot_at t slots)) else 0)
      ≡ load c now slots q + (if leb t now then occurs c (active cs) else 0)
load-insert c now t cs slots [] a h = absurd (cc)
load-insert c now t cs slots (u ∷ q) a h = ground (
  arith,
  lookup-insert t u cs slots,
  load-insert c now t cs slots q (Above-IsRising u q a),
  load-insert_out c now t cs slots q,
  memb-Above t u q a,
)

load-open_slot :
    (c now t : ℕ) (m : TimeManager)
    → IsSynced m
    → load c now (open_slot t m).slots (open_slot t m).queue ≡ load c now m.slots m.queue
unfolding open_slot active
load-open_slot c now t m v = elim (Option-cases (lookup t m.slots)) [
  | inl e ↦
      let gone : memb t m.queue ≡ false = sym (v.synced t) ∙ ap is_some e in
      rw (e, open_slot)
        (ground (
          arith,
          load-push c now t (insert t [] m.slots) m.queue,
          lookup-insert t t [] m.slots,
          load-insert_out c now t [] m.slots m.queue gone,
        ))
  | inr (cs, e) ↦ rw (e, open_slot) refl
]

active-append : (cs ds : Callbacks) → active (cs ++ ds) ≡ active cs ++ active ds
unfolding active
active-append [] ds = refl
active-append ((c, true) ∷ cs) ds = ap (λ t. c ∷ t) (active-append cs ds)
active-append ((c, false) ∷ cs) ds = active-append cs ds

-- Where heap and map agree, a timer that is inserted adds one run of its callback to a tick that
-- has reached its aligned time and none to an earlier one, and no run of another callback.
pub occurs-tick_insert :
    (c now : ℕ) (timer : Timer) (m : TimeManager)
    → IsSynced m
    → occurs c (tick now (insert_timer timer m).0).1
      ≡ occurs c (tick now m).1
        + (if leb (align m.precision timer.timepoint) now && timer.callback == c then 1 else 0)
unfolding insert_timer active
occurs-tick_insert c now timer m v =
    let t = align m.precision timer.timepoint in
    let m' = open_slot t m in
    let old = slot_at t m'.slots in
    let new = old ++ (timer.callback, true) ∷ [] in
    ground (
      arith,
      ran_load c now (insert_timer timer m).0 (insert_timer-IsSynced timer m v),
      ran_load c now m v,
      load-open_slot c now t m v,
      load-insert c now t new m'.slots m'.queue (open_slot-IsSynced t m v).rising
          (open_slot-memb t m v),
      active-append old ((timer.callback, true) ∷ []),
      occurs-append c (active old) (timer.callback ∷ []),
    )

-- What `cancel` does to a slot whose last callback is the one that was registered.
cancel_last :
    (c t : ℕ) (old : Callbacks) (m : TimeManager) (n : ℕ)
    → n ≡ length old + 1
    → lookup t m.slots ≡ some (old ++ (c, true) ∷ [])
    → cancel (record { id = n; timepoint = t }) m
      ≡ record m { slots = insert t (old ++ (c, false) ∷ []) m.slots }
unfolding cancel
cancel_last c t old m n e hit =
    let last : n - 1 ≡ length old = omega arith in
    ground (
      arith,
      hit,
      last,
      get_elem?-append_last old (c, true),
      set-append_last old (c, true) (c, false),
    )

-- Where heap and map agree, cancelling what `insert` returned takes the timer out again: the next
-- tick runs each callback as often as if the timer had never been inserted.
pub occurs-tick-cancel :
    (c now : ℕ) (timer : Timer) (m : TimeManager)
    → IsSynced m
    → let (m', reg) = insert_timer timer m in
      occurs c (tick now (cancel reg m')).1 ≡ occurs c (tick now m).1
unfolding insert_timer active
occurs-tick-cancel c now timer m v =
    let t = align m.precision timer.timepoint in
    let k = open_slot t m in
    let old = slot_at t k.slots in
    let new = old ++ (timer.callback, true) ∷ [] in
    let off = old ++ (timer.callback, false) ∷ [] in
    let m' : TimeManager = record k { slots = insert t new k.slots } in
    let v' : IsSynced m' = insert_timer-IsSynced timer m v in
    let hit : lookup t (insert t new k.slots) ≡ some new =
      ground (arith, lookup-insert t t new k.slots) in
    let reg : TimerRegistered = record { id = length new; timepoint = t } in
    let gone =
      cancel_last timer.callback t old m' (length new)
        (length-append old ((timer.callback, true) ∷ [])) hit in
    ground (
      arith,
      gone,
      ap (λ (z : TimeManager). occurs c (tick now z).1) gone,
      ran_load c now (cancel reg m') (cancel-IsSynced reg m' v'),
      ran_load c now m v,
      load-open_slot c now t m v,
      load-insert c now t new k.slots k.queue (open_slot-IsSynced t m v).rising
          (open_slot-memb t m v),
      load-insert c now t off m'.slots k.queue (open_slot-IsSynced t m v).rising
          (open_slot-memb t m v),
      active-append old ((timer.callback, true) ∷ []),
      active-append old ((timer.callback, false) ∷ []),
      occurs-append c (active old) (timer.callback ∷ []),
      occurs-append c (active old) [],
    )
