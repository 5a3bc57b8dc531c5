-- ===== src/Rudp/Timing.antt =====
-- `rudp_impl_t::set_timer`: when the endpoint's timer runs ikcp again. Times are `u64` microseconds;
-- ikcp counts `u32` milliseconds from the base time.
use p2p_live.Prelude.{
  ℕ, ◌*◌, ◌/◌, ◌%◌, Bool, false, ◌&&◌, Option, none, some, if◌then◌else◌, ltb, leb, u32_mod,
  u64_mod, add_u64, sub_u64,
}
use p2p_live.Timer.{TimerRegistered, TimeManager, make_timer, insert_timer, cancel}
use p2p_live.Rudp.{Ikcp, Endpoint}

-- `kcp_cur`
unfoldable pub kcp_time : (base cur : ℕ) → ℕ
kcp_time base cur = sub_u64 cur base / 1000

-- `next_tick_time`, a `u32`: what ikcp asks for, or `kcp_cur` where that is later.
unfoldable pub next_tick_time : (asked kcp_cur : ℕ) → ℕ
next_tick_time asked kcp_cur = if ltb asked kcp_cur then kcp_cur % u32_mod else asked

-- `delta`, a `u64`
unfoldable pub tick_delta : (asked kcp_cur : ℕ) → ℕ
unfolding next_tick_time
tick_delta asked kcp_cur = (sub_u64 (next_tick_time asked kcp_cur) kcp_cur * 1000) % u64_mod

-- `time_point`, to which the base time is added once more than to the timer's own time.
unfoldable pub time_point : (delta cur base : ℕ) → ℕ
time_point delta cur base = add_u64 (add_u64 delta cur) base

-- The test of the early return.
unfoldable pub in_time : (timepoint point : ℕ) → Bool
in_time timepoint point = leb timepoint (add_u64 point 5000) && leb (sub_u64 point 5000) timepoint

abbrev pub keeps_timer : Option TimerRegistered → ℕ → Bool
keeps_timer none point = false
keeps_timer (some reg) point = in_time reg.timepoint point

abbrev pub remove_timer : Option TimerRegistered → TimeManager → TimeManager
remove_timer none tm = tm
remove_timer (some reg) tm = cancel reg tm

module _ {K : Type 0} (kcp : Ikcp K) where
  -- `set_timer`, with `cur` for the time that it reads, `now` for the one that `make_timer` reads, and
  -- `callback` for the function that the endpoint's context is started with. (A null `ikcp` is not
  -- looked into: nothing happens.)
  unfoldable pub set_timer :
      (base cur now callback : ℕ) → Endpoint K → TimeManager → Endpoint K × TimeManager
  unfolding kcp_time tick_delta time_point make_timer insert_timer
  set_timer base cur now callback e tm = elim e.ikcp [
    | none ↦ (e, tm)
    | some k ↦
        let kcp_cur = kcp_time base cur in
        let delta = tick_delta (kcp.check k (kcp_cur % u32_mod)) kcp_cur in
        if keeps_timer e.timer_reg (time_point delta cur base)
        then (e, tm)
        else let (tm', reg) =
            insert_timer (make_timer now delta callback) (remove_timer e.timer_reg tm) in
          (record e { timer_reg = some reg }, tm')
  ]
