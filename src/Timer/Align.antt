-- ===== src/Timer/Align.antt =====
-- Where `make_timer` and `insert` put a timer.
use p2p_live.Prelude.{ℕ, ◌+◌, ◌-◌, ◌/◌, ◌%◌, ◌≤◌, ◌<◌, ◌≡◌, ◌⊎◌, arith, u64_max, u64_mod}
use native.Mathlib.Nat.{mul-mod_left, div-add-mod, mod-lt}
use p2p_live.Timer.{make_timer, align}

-- For `u64` times `make_timer` saturates: the time is `now + span` where that is a `u64`, and the
-- largest one if not.
pub make_timer_lem :
    (now span callback : ℕ)
    → now ≤ u64_max
    → span ≤ u64_max
    → ((make_timer now span callback).timepoint ≡ now + span) × (now + span ≤ u64_max)
      ⊎ ((make_timer now span callback).timepoint ≡ u64_max) × (u64_max < now + span)
unfolding make_timer
make_timer_lem now span callback h k = ground arith

-- For a `u64` time and a positive `u64` precision: a timer never moves to an earlier time, moves
-- by less than the precision, still fits a `u64`, and lands on a multiple of the precision unless
-- the next one may be out of range.
pub align_lem :
    (precision t : ℕ)
    → 0 < precision
    → precision < u64_mod
    → t ≤ u64_max
    → (t ≤ align precision t)
      × (align precision t < t + precision)
      × (align precision t ≤ u64_max)
      × ((u64_max - t < precision - 1) ⊎ (align precision t % precision ≡ 0))
unfolding align
align_lem precision t h k l =
    let up = (t + precision - 1) / precision in
    ground (
      arith,
      mul-mod_left up precision,
      div-add-mod (t + precision - 1) precision,
      mod-lt (t + precision - 1) {m = precision} h,
    )
