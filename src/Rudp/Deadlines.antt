-- ===== src/Rudp/Deadlines.antt =====
-- When the timer of an endpoint fires.
use p2p_live.Prelude.{
  subst, sym, List, ◌∷◌, ◌&&◌, if◌then◌else◌, leb, ◌==◌, ap, ◌∙◌, lookup, nat_eq, Option-cases,
  false, ℕ, ◌+◌, ◌-◌, ◌*◌, ◌/◌, ◌%◌, ◌≤◌, ◌<◌, ◌≡◌, refl, arith, Option, none, some, u32_mod,
  u64_max, u64_mod, inl, inr,
}
use p2p_live.Timer.{Timer, TimerRegistered, TimeManager, make_timer, insert_timer, cancel, align}
use p2p_live.Timer.Slots.{IsSynced, cancel-IsSynced}
use p2p_live.Timer.Ticks.{occurs}
use p2p_live.Timer.Sequences.{ticks, latest, occurs-ticks-insert_timer}
use p2p_live.Timer.Align.{make_timer_lem, align_lem}
use p2p_live.Rudp.{Ikcp, Endpoint}
use p2p_live.Rudp.Timing.{
  kcp_time, next_tick_time, tick_delta, time_point, in_time, keeps_timer, remove_timer, set_timer,
}

-- What is left to wait for, in microseconds.
abbrev pub wait_for : (asked kcp_cur : ℕ) → ℕ
wait_for asked kcp_cur = (asked - kcp_cur) * 1000

pub tick_delta_lem :
    (asked kcp_cur : ℕ)
    → asked < u32_mod
    → kcp_cur < u32_mod
    → tick_delta asked kcp_cur ≡ wait_for asked kcp_cur
unfolding tick_delta next_tick_time
tick_delta_lem asked kcp_cur h k = ground arith

pub late_delta_lem :
    (asked kcp_cur : ℕ)
    → asked < u32_mod
    → u32_mod ≤ kcp_cur
    → kcp_cur < 2 * u32_mod
    → tick_delta asked kcp_cur ≡ u64_mod - 1000 * u32_mod
unfolding tick_delta next_tick_time
late_delta_lem asked kcp_cur h k l = ground arith

keeps-point :
    (o : Option TimerRegistered) (point : ℕ)
    → 5000 ≤ point
    → point + 5000 ≤ u64_max
    → ((reg : TimerRegistered) → o ≡ some reg → reg.timepoint + 5000 < point)
    → keeps_timer o point ≡ false
unfolding in_time
keeps-point none point h l k = refl
keeps-point (some reg) point h l k = let far = k reg refl in ground arith

precision-cancel :
    (o : Option TimerRegistered) (tm : TimeManager) → (remove_timer o tm).precision ≡ tm.precision
unfolding cancel
precision-cancel none tm = refl
precision-cancel (some reg) tm = elim (Option-cases (lookup reg.timepoint tm.slots)) [
  | inl out ↦ rw (cancel, out) refl
  | inr (cs, at) ↦ rw (cancel, at) refl
]

-- A timer that `insert` is given, in the record that it returns.
timepoint-insert_timer :
    (t : Timer) (tm : TimeManager)
    → (insert_timer t tm).1.timepoint ≡ align tm.precision t.timepoint
unfolding insert_timer
timepoint-insert_timer t tm = refl

-- Over any sequence of ticks `later` runs, next to what `tm` runs, the callback once if one of the
-- ticks has reached the time of `reg`, and nothing else.
abbrev pub Fires : (callback : ℕ) → TimerRegistered → (tm later : TimeManager) → Type 0
Fires callback reg tm later =
    (f n : ℕ) (ns : List ℕ)
    → occurs f (ticks (n ∷ ns) later).1
      ≡ occurs f (ticks (n ∷ ns) tm).1
        + (if leb reg.timepoint (latest n ns) && callback == f then 1 else 0)

insert_timer-Fires :
    (t : Timer) (callback : ℕ) (tm : TimeManager)
    → IsSynced tm
    → t.callback ≡ callback
    → Fires callback (insert_timer t tm).1 tm (insert_timer t tm).0
insert_timer-Fires t callback tm v e f n ns =
    ground (arith, occurs-ticks-insert_timer f n ns t tm v, e, timepoint-insert_timer t tm)

remove_timer-IsSynced :
    (o : Option TimerRegistered) (tm : TimeManager) → IsSynced tm → IsSynced (remove_timer o tm)
remove_timer-IsSynced none tm v = v
remove_timer-IsSynced (some reg) tm v = cancel-IsSynced reg tm v

callback-make_timer : (now span callback : ℕ) → (make_timer now span callback).callback ≡ callback
unfolding make_timer
callback-make_timer now span callback = ground arith

module _ {K : Type 0} (kcp : Ikcp K) where
  abbrev asked_at : (base cur : ℕ) → K → ℕ
  asked_at base cur k = kcp.check k (kcp_time base cur % u32_mod)

  renewed :
      (base cur now callback : ℕ) (e : Endpoint K) (k : K) (tm : TimeManager)
      → e.ikcp ≡ some k
      → keeps_timer e.timer_reg
          (time_point (tick_delta (asked_at base cur k) (kcp_time base cur)) cur base)
        ≡ false
      → IsSynced tm
      → (reg : TimerRegistered) × ((set_timer kcp base cur now callback e tm).0.timer_reg
          ≡ some reg)
        × (reg.timepoint
            ≡ align tm.precision
                (make_timer now
                  (tick_delta (asked_at base cur k) (kcp_time base cur))
                  callback).timepoint)
        × Fires callback reg
            (remove_timer e.timer_reg tm)
            (set_timer kcp base cur now callback e tm).1
  unfolding set_timer
  renewed base cur now callback e k tm live late sync =
      let delta = tick_delta (asked_at base cur k) (kcp_time base cur) in
      let timer = make_timer now delta callback in
      let tm' = remove_timer e.timer_reg tm in
      let stored : (set_timer kcp base cur now callback e tm).1 ≡ (insert_timer timer tm').0 =
        ground (arith, live, late) in
      (
        (insert_timer timer tm').1,
        ground (arith, live, late),
        timepoint-insert_timer timer tm'
            ∙ ap (λ p. align p timer.timepoint) (precision-cancel e.timer_reg tm),
        subst (Fires callback (insert_timer timer tm').1 tm') (sym stored) (
            insert_timer-Fires timer callback tm' (remove_timer-IsSynced e.timer_reg tm sync)
              (callback-make_timer now delta callback)),
      )

  -- While the milliseconds since the base time fit a `u32`, ikcp answers with a `u32`, and a registered
  -- timer stands more than 5 ms before the sum of the current time and the base time: `set_timer` cancels
  -- the registered timer and puts in a new one, which is registered. Its time is no earlier than the
  -- second read of the clock and what ikcp still has to wait from the first, and less than one precision
  -- later; over any ticks the callback runs once more than without the new timer if a tick has
  -- reached its time, and every other callback as often as without it.
  pub set_timer_lem :
      (base cur now callback : ℕ) (e : Endpoint K) (k : K) (tm : TimeManager)
      → e.ikcp ≡ some k
      → IsSynced tm
      → base ≤ cur
      → cur ≤ now
      → 5000 ≤ cur
      → cur - base < 1000 * u32_mod
      → now + base + 1000 * u32_mod + 5000 ≤ u64_max
      → asked_at base cur k < u32_mod
      → ((reg : TimerRegistered) → e.timer_reg ≡ some reg → reg.timepoint + 5000 < cur + base)
      → 0 < tm.precision
      → tm.precision < u64_mod
      → (reg : TimerRegistered) × ((set_timer kcp base cur now callback e tm).0.timer_reg
          ≡ some reg)
        × (now + wait_for (asked_at base cur k) ((cur - base) / 1000) ≤ reg.timepoint)
        × (reg.timepoint
            < now + wait_for (asked_at base cur k) ((cur - base) / 1000) + tm.precision)
        × Fires callback reg
            (remove_timer e.timer_reg tm)
            (set_timer kcp base cur now callback e tm).1
  unfolding kcp_time time_point
  set_timer_lem base cur now callback e k tm live sync past next old young fits word far p q =
      let asked = asked_at base cur k in
      let kc : kcp_time base cur ≡ (cur - base) / 1000 = ground arith in
      let delta : tick_delta asked (kcp_time base cur) ≡ wait_for asked ((cur - base) / 1000) =
        tick_delta_lem asked (kcp_time base cur) word (ground arith) ∙ ap (wait_for asked) kc in
      let late =
        keeps-point e.timer_reg (time_point (tick_delta asked (kcp_time base cur)) cur base)
          (ground (arith, delta)) (ground (arith, delta))
          (λ reg at. let f = far reg at in ground (arith, delta)) in
      let (reg, there, place, runs_at) = renewed base cur now callback e k tm live late sync in
      let made =
        make_timer_lem now (tick_delta asked (kcp_time base cur)) callback (ground arith)
          (ground (arith, delta)) in
      let put =
        align_lem tm.precision
          (make_timer now (tick_delta asked (kcp_time base cur)) callback).timepoint p q
          (ground (arith, made, delta)) in
      (
        reg,
        there,
        ground (arith, place, put, made, delta),
        ground (arith, place, put, made, delta),
        runs_at,
      )

  -- From 2 ^ 32 ms to 2 * 2 ^ 32 ms after a base time of at least 2 ^ 32 ms, with a precision of more
  -- than 1, while the sums with the base time fit a `u64` and a registered timer stands early enough
  -- before them: the timer that `set_timer` puts in stands at the largest time there is, so that only
  -- a tick at that time runs its callback.
  pub timepoint-set_timer :
      (base cur now callback : ℕ) (e : Endpoint K) (k : K) (tm : TimeManager)
      → e.ikcp ≡ some k
      → IsSynced tm
      → base ≤ cur
      → cur ≤ now
      → 1000 * u32_mod ≤ cur - base
      → cur - base < 2000 * u32_mod
      → 1000 * u32_mod ≤ base
      → now + base + 5000 ≤ u64_max
      → asked_at base cur k < u32_mod
      → ((reg : TimerRegistered)
          → e.timer_reg ≡ some reg
          → reg.timepoint + 5000 + 1000 * u32_mod < cur + base)
      → 1 < tm.precision
      → tm.precision < u64_mod
      → (reg : TimerRegistered) × ((set_timer kcp base cur now callback e tm).0.timer_reg
          ≡ some reg)
        × (reg.timepoint ≡ u64_max)
        × Fires callback reg
            (remove_timer e.timer_reg tm)
            (set_timer kcp base cur now callback e tm).1
  unfolding kcp_time time_point
  timepoint-set_timer base cur now callback e k tm live sync past next old young based fits word far
        p q =
      let asked = asked_at base cur k in
      let kc : kcp_time base cur ≡ (cur - base) / 1000 = ground arith in
      let delta : tick_delta asked (kcp_time base cur) ≡ u64_mod - 1000 * u32_mod =
        late_delta_lem asked (kcp_time base cur) word (ground arith) (ground arith) in
      let late =
        keeps-point e.timer_reg (time_point (tick_delta asked (kcp_time base cur)) cur base)
          (ground (arith, delta)) (ground (arith, delta))
          (λ reg at. let f = far reg at in ground (arith, delta)) in
      let (reg, there, place, runs_at) = renewed base cur now callback e k tm live late sync in
      let made =
        make_timer_lem now (tick_delta asked (kcp_time base cur)) callback (ground arith)
          (ground (arith, delta)) in
      let put =
        align_lem tm.precision
          (make_timer now (tick_delta asked (kcp_time base cur)) callback).timepoint (ground arith)
          q (ground (arith, made, delta)) in
      (reg, there, ground (arith, place, put, made, delta), runs_at)
