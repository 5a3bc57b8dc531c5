-- ===== src/Timer/Slots.antt =====
-- The heap and the map of the manager name the same slots, and `insert`, `cancel` and `tick` keep
-- them so.
use p2p_live.Prelude.{
  ℕ, ◌≤◌, ◌<◌, ◌≡◌, refl, sym, ap, ◌∙◌, arith, Bool, true, false, Option, none, some, List, [], ◌∷◌,
  ◌++◌, if◌then◌else◌, ltb, leb, ◌==◌, lookup, insert, erase, nat_eq, lookup-insert, lookup-erase,
  Option-cases, Bool-cases, ltb→lt, inl, inr,
}
use p2p_live.Timer.{
  Timer, TimerRegistered, TimeManager, Callbacks, align, push, slot_at, open_slot, insert_timer,
  cancel, active, tick_loop,
}

abbrev pub memb : ℕ → List ℕ → Bool
memb t [] = false
memb t (u ∷ q) = if u == t then true else memb t q

-- Strictly rising, from above `t`.
abbrev pub Above : ℕ → List ℕ → Type 0
Above t [] = Unit {0}
Above t (u ∷ q) = (t < u) × Above u q

abbrev pub IsRising : List ℕ → Type 0
IsRising [] = Unit {0}
IsRising (t ∷ q) = Above t q

abbrev pub is_some : Option Callbacks → Bool
is_some none = false
is_some (some _) = true

pub record IsSynced (m : TimeManager) : Type 0 where
  pub rising : IsRising m.queue
  pub synced : (t : ℕ) → is_some (lookup t m.slots) ≡ memb t m.queue

Above-mono : {s t : ℕ} (q : List ℕ) → s ≤ t → Above t q → Above s q
Above-mono [] h a = tt
Above-mono (u ∷ q) h a = (omega arith, a.1)

pub Above-IsRising : (t : ℕ) (q : List ℕ) → Above t q → IsRising q
Above-IsRising t [] a = tt
Above-IsRising t (u ∷ q) a = a.1

-- What is not above the bound is not in the queue.
pub memb-Above : (s t : ℕ) (q : List ℕ) → Above t q → s ≤ t → memb s q ≡ false
memb-Above s t [] a h = refl
memb-Above s t (u ∷ q) a h = ground (arith, memb-Above s u q a.1)

pub memb-push : (s t : ℕ) (q : List ℕ) → memb s (push t q) ≡ (if t == s then true else memb s q)
unfolding push
memb-push s t [] = refl
memb-push s t (u ∷ q) = ground (arith, memb-push s t q)

push-Above : (b t : ℕ) (q : List ℕ) → b < t → Above b q → memb t q ≡ false → Above b (push t q)
unfolding push
push-Above b t [] h a n = (h, tt)
push-Above b t (u ∷ q) h a n = ground (arith, push-Above u t q)

push-IsRising : (t : ℕ) (q : List ℕ) → IsRising q → memb t q ≡ false → IsRising (push t q)
unfolding push
push-IsRising t [] a n = tt
push-IsRising t (u ∷ q) a n = ground (arith, push-Above u t q)

pub open_slot-IsSynced : (t : ℕ) (m : TimeManager) → IsSynced m → IsSynced (open_slot t m)
unfolding open_slot
open_slot-IsSynced t m v = elim (Option-cases (lookup t m.slots)) [
  | inl e ↦
      rw (e, open_slot)
        (record {
          rising = push-IsRising t m.queue v.rising (sym (v.synced t) ∙ ap is_some e);
          synced =
              λ s. ground (arith, lookup-insert t s [] m.slots, memb-push s t m.queue, v.synced s);
        })
  | inr (cs, e) ↦ rw (e, open_slot) v
]

pub open_slot-memb : (t : ℕ) (m : TimeManager) → IsSynced m → memb t (open_slot t m).queue ≡ true
unfolding open_slot
open_slot-memb t m v = elim (Option-cases (lookup t m.slots)) [
  | inl e ↦ rw (e, open_slot) (ground (arith, memb-push t t m.queue))
  | inr (cs, e) ↦ rw (e, open_slot) (sym (v.synced t) ∙ ap is_some e)
]

-- Storing callbacks in a slot that is there keeps the two in step.
pub store-IsSynced :
    (t : ℕ) (cs : Callbacks) (m : TimeManager)
    → memb t m.queue ≡ true
    → IsSynced m
    → IsSynced (record m { slots = insert t cs m.slots })
store-IsSynced t cs m e v = record {
  rising = v.rising;
  synced = λ s. ground (arith, lookup-insert t s cs m.slots, v.synced s);
}

-- `insert` keeps the heap rising and in step with the map, and so does `cancel`.
pub insert_timer-IsSynced :
    (timer : Timer) (m : TimeManager) → IsSynced m → IsSynced (insert_timer timer m).0
unfolding insert_timer
insert_timer-IsSynced timer m v =
    let t = align m.precision timer.timepoint in
    store-IsSynced t _ (open_slot t m) (open_slot-memb t m v) (open_slot-IsSynced t m v)

pub cancel-IsSynced :
    (reg : TimerRegistered) (m : TimeManager) → IsSynced m → IsSynced (cancel reg m)
unfolding cancel
cancel-IsSynced reg m v = elim (Option-cases (lookup reg.timepoint m.slots)) [
  | inl e ↦ rw (e, cancel) v
  | inr (cs, e) ↦
      rw (e, cancel)
        (store-IsSynced reg.timepoint _ m (sym (v.synced reg.timepoint) ∙ ap is_some e) v)
]

-- The slots that are due, and those that are not.
abbrev pub due : ℕ → List ℕ → List ℕ
due now [] = []
due now (t ∷ q) = if leb t now then t ∷ due now q else due now q

abbrev pub later : ℕ → List ℕ → List ℕ
later now [] = []
later now (t ∷ q) = if leb t now then later now q else t ∷ later now q

-- What the active callbacks of those slots are, slot by slot.
abbrev pub runs : List (ℕ × Callbacks) → List ℕ → List ℕ
runs slots [] = []
runs slots (t ∷ q) = active (slot_at t slots) ++ runs slots q

due-Above : (now t : ℕ) (q : List ℕ) → now < t → Above t q → due now q ≡ []
due-Above now t [] h a = refl
due-Above now t (u ∷ q) h a = ground (arith, due-Above now u q)

Above-later : (now t : ℕ) (q : List ℕ) → now < t → Above t q → later now q ≡ q
Above-later now t [] h a = refl
Above-later now t (u ∷ q) h a = ground (arith, Above-later now u q)

memb-due : (s now : ℕ) (q : List ℕ) → memb s q ≡ false → memb s (due now q) ≡ false
memb-due s now [] h = refl
memb-due s now (u ∷ q) h = ground (arith, memb-due s now q)

runs-erase :
    (t : ℕ) (slots : List (ℕ × Callbacks)) (q : List ℕ)
    → memb t q ≡ false
    → runs (erase t slots) q ≡ runs slots q
runs-erase t slots [] h = refl
runs-erase t slots (u ∷ q) h = ground (arith, lookup-erase t u slots, runs-erase t slots q)

-- What one run of the loop leaves and what it ran.
pub record Ticked (now : ℕ) (q : List ℕ) (slots : List (ℕ × Callbacks))
    (out : List ℕ × List (ℕ × Callbacks) × List ℕ) : Type 0 where
  pub queue : out.0 ≡ later now q
  pub slots_left : (s : ℕ) → lookup s out.1 ≡ (if memb s (due now q) then none else lookup s slots)
  pub ran : out.2 ≡ runs slots (due now q)

tick_loop_stop :
    (now t : ℕ) (q : List ℕ) (slots : List (ℕ × Callbacks))
    → now < t
    → Above t q
    → Ticked now (t ∷ q) slots (t ∷ q, slots, [])
tick_loop_stop now t q slots h a = record {
  queue = ground (arith, Above-later now t q h a);
  slots_left = λ s. ground (arith, due-Above now t q h a);
  ran = ground (arith, due-Above now t q h a);
}

tick_loop_pop :
    (now t : ℕ) (q : List ℕ) (slots : List (ℕ × Callbacks))
    (out : List ℕ × List (ℕ × Callbacks) × List ℕ)
    → t ≤ now
    → Above t q
    → Ticked now q (erase t slots) out
    → Ticked now (t ∷ q) slots (out.0, out.1, active (slot_at t slots) ++ out.2)
tick_loop_pop now t q slots out h a r =
    let fresh = memb-due t now q (memb-Above t t q a (omega arith)) in
    record {
      queue = ground (arith, r.queue);
      slots_left = λ s. ground (arith, r.slots_left s, lookup-erase t s slots, fresh);
      ran = ground (arith, r.ran, runs-erase t slots (due now q) fresh);
    }

pub tick_loop-Ticked :
    (now : ℕ) (q : List ℕ) (slots : List (ℕ × Callbacks))
    → IsRising q
    → Ticked now q slots (tick_loop now q slots)
unfolding tick_loop
tick_loop-Ticked now [] slots a = record { queue = refl; slots_left = λ s. refl; ran = refl }
tick_loop-Ticked now (t ∷ q) slots a = elim (Bool-cases (ltb now t)) [
  | inl early ↦ rw early (tick_loop_stop now t q slots (ltb→lt now t early) a)
  | inr reached ↦ rw reached (
      tick_loop_pop now t q slots (tick_loop now q (erase t slots)) (ground arith) a
        (tick_loop-Ticked now q (erase t slots) (Above-IsRising t q a)))
]
